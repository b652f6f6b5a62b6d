-- ===== src/Report/Rollback.antt =====
-- What a query leaves of the handler.
use mbed_client.Common.{
  ℕ, ◌≡◌, refl, sym, ap, ◌∙◌, Bool, true, false, List, [], ◌∷◌, some, arith, inl, inr, ◌⊎◌,
  Option-cases,
}
use mbed_client.Report.{Float, Handler}
use mbed_client.Report.Attributes.{
  BaseType, split_at, set_notification_attribute, assign, check_attribute_validity,
}
use mbed_client.Report.Parse.{parse_notification_attribute, set_attributes, restore, options_of}
use mbed_client.Tlv.{ResourceType}

module _ (f : Float) where
  open f use {F}

  -- The handler with its periods taken through `float` and back.
  abbrev pub rounded : Handler F → Handler F
  rounded h = record h { pmin = f.to_int (f.of_int h.pmin); pmax = f.to_int (f.of_int h.pmax) }

  -- The handlers differ in the attributes alone.
  abbrev pub SameButAttributes : Handler F → Handler F → Type 0
  SameButAttributes h h' = restore f h h' ≡ rounded h

  set_notification_attribute-SameButAttributes :
      (saved h : Handler F) (option : List ℕ) (type : BaseType) (rt : ResourceType) {b : Bool}
      {h' : Handler F}
      → SameButAttributes saved h
      → set_notification_attribute f option type rt h ≡ some (b, h')
      → SameButAttributes saved h'
  unfolding set_notification_attribute assign restore
  set_notification_attribute-SameButAttributes saved h option type rt s e = ground arith

  pub set_attributes-SameButAttributes :
      (saved h : Handler F) (options : List (List ℕ)) (type : BaseType) (rt : ResourceType)
      (b : Bool) {b' : Bool} {h' : Handler F}
      → SameButAttributes saved h
      → set_attributes f options type rt b h ≡ some (b', h')
      → SameButAttributes saved h'
  unfolding set_attributes
  set_attributes-SameButAttributes saved h [] type rt b s e = ground arith
  set_attributes-SameButAttributes saved h (o ∷ os) type rt b {b'} {h'} s e =
      elim (Option-cases (set_notification_attribute f o type rt h)) [
        | inl fault ↦ ground arith
        | inr ((done, h1), q) ↦
            let s' =
              set_notification_attribute-SameButAttributes saved h o type rt {b = done} {h' = h1} s
                q in
            ground (
              arith,
              set_attributes-SameButAttributes saved h1 os type rt true {b' = b'} {h' = h'} s',
            )
      ]

  refused :
      (h : Handler F) (text : List ℕ) (type : BaseType) (rt : ResourceType)
      (parts : List ℕ × List ℕ) (options : List (List ℕ)) (success : Bool) (h1 h' : Handler F)
      → split_at b'&' text ≡ some parts
      → options_of text ≡ some options
      → set_attributes f options type rt false h ≡ some (success, h1)
      → SameButAttributes h h1
      → parse_notification_attribute f text type rt h ≡ some (false, h')
      → (h' ≡ rounded h)
        ⊎ ((options : List (List ℕ)) × (options_of text ≡ some options)
            × (set_attributes f options type rt false h ≡ some (true, h'))
            × (check_attribute_validity f h' ≡ false))
  unfolding parse_notification_attribute
  refused h text type rt parts options true h1 h' several o q same e =
      let (valid, set) =
        (let x : (check_attribute_validity f h1 ≡ false) × (h1 ≡ h') = ground arith in x) in
      inr (
        options,
        o,
        q ∙ ap (λ x. some (true, x)) set,
        ap (check_attribute_validity f) (sym set) ∙ valid,
      )
  refused h text type rt parts options false h1 h' several o q same e =
      inl (let x : h' ≡ restore f h h1 = ground arith in x ∙ same)

  -- A query with several options that answers false leaves the handler as it was, but for the two
  -- periods, which come back from `float`; unless each of its options was taken and only the check of
  -- them together failed: then they stay set.
  pub parse_notification_attribute_refused :
      (h : Handler F) (text : List ℕ) (type : BaseType) (rt : ResourceType)
      (parts : List ℕ × List ℕ) {h' : Handler F}
      → split_at b'&' text ≡ some parts
      → parse_notification_attribute f text type rt h ≡ some (false, h')
      → (h' ≡ rounded h)
        ⊎ ((options : List (List ℕ)) × (options_of text ≡ some options)
            × (set_attributes f options type rt false h ≡ some (true, h'))
            × (check_attribute_validity f h' ≡ false))
  unfolding parse_notification_attribute
  parse_notification_attribute_refused h text type rt parts {h'} several e =
      elim (Option-cases (options_of text)) [
        | inl overrun ↦ ground arith
        | inr (options, o) ↦ elim (Option-cases (set_attributes f options type rt false h)) [
          | inl fault ↦ ground arith
          | inr ((success, h1), q) ↦
              refused h text type rt parts options success h1 h' several o q
                (set_attributes-SameButAttributes h h options type rt false {b' = success} {h' = h1}
                  refl q)
                e
        ]
      ]
