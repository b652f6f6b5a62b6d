-- ===== src/Report/Bounds.antt =====
-- The two arrays of 20 characters of `set_notification_attribute`: when they are overrun.
use mbed_client.Common.{
  ℕ, zero, suc, ◌+◌, ltb, ◌<◌, ◌≤◌, refl, Bool-cases, ◌≡◌, ◌≢◌, Bool, true, false, List, [], ◌∷◌,
  length, take, All, none, some, arith, inl, inr, Option-cases,
}
use mbed_client.Report.{Float, Handler}
use mbed_client.Report.Attributes.{BaseType, split_at, read_option, set_notification_attribute}
use mbed_client.Report.Parse.{
  parse_notification_attribute, set_attributes, query_options, write_row,
}
use mbed_client.Tlv.{ResourceType}

length-take_le : (n : ℕ) (xs : List ℕ) → length (take n xs) ≤ n
length-take_le zero xs = omega arith
length-take_le (suc n) [] = omega arith
length-take_le (suc n) (x ∷ xs) = omega (arith, length-take_le n xs)

-- The front of a text is no longer than it, and the back is shorter.
split_at-length :
    (c : ℕ) (xs : List ℕ) {front back : List ℕ}
    → split_at c xs ≡ some (front, back)
    → (length front ≤ length xs) × (length back < length xs)
unfolding split_at
split_at-length c [] e = cc
split_at-length c (x ∷ xs) e = elim (Option-cases (split_at c xs)) [
  | inl missing ↦ ground arith
  | inr ((front', back'), q) ↦
      ground (arith, split_at-length c xs {front = front'} {back = back'} q)
]

cut_short : (option : List ℕ) → ltb (length (take 19 option)) 20 ≡ true
cut_short option = ground (arith, length-take_le 19 option)

-- With fuel enough, the rows of a query are written within the array.
query_options_short :
    (fuel num_options : ℕ) (q : List ℕ)
    → length q < fuel
    → (rows : List (List ℕ)) × (query_options fuel num_options q ≡ some rows)
      × All (λ o. length o ≤ 19) rows
unfolding query_options write_row
query_options_short zero n q enough = absurd (omega arith)
query_options_short (suc fuel) n q enough = elim (Option-cases (split_at b'&' q)) [
  | inl last ↦ elim (Bool-cases (ltb n 5)) [
    | inl free ↦ elim (Bool-cases (ltb 0 (length q))) [
      | inl some_rest ↦ (
        take 19 q ∷ [],
        rw (query_options, last, free, some_rest, cut_short q) refl,
        (length-take_le 19 q, tt),
      )
      | inr no_rest ↦ ([], rw (query_options, last, free, no_rest) refl, tt)
    ]
    | inr full ↦ ([], rw (query_options, last, full) refl, tt)
  ]
  | inr ((option, rest), more) ↦ elim (Bool-cases (ltb n 5)) [
    | inl free ↦
        let shorter = split_at-length b'&' q {front = option} {back = rest} more in
        let (rows, read, short) = query_options_short fuel (n + 1) rest (omega (arith, shorter)) in
        (
          take 19 option ∷ rows,
          rw (query_options, more, free, cut_short option, read) refl,
          (length-take_le 19 option, short),
        )
    | inr full ↦ ([], rw (query_options, more, full) refl, tt)
  ]
]

read_option-ne-none : (o : List ℕ) → length o ≤ 19 → read_option o ≢ none
unfolding read_option
read_option-ne-none o h = elim (Option-cases (split_at b'=' o)) [
  | inl single ↦ ground arith
  | inr ((front, back), q) ↦ ground (arith, split_at-length b'=' o {front = front} {back = back} q)
]

module _ (f : Float) where
  open f use {F}

  set_notification_attribute-ne-none :
      (o : List ℕ) (type : BaseType) (rt : ResourceType) (h : Handler F)
      → length o ≤ 19
      → set_notification_attribute f o type rt h ≢ none
  unfolding set_notification_attribute
  set_notification_attribute-ne-none o type rt h short = elim (Option-cases (read_option o)) [
    | inl fault ↦ absurd (read_option-ne-none o short fault)
    | inr (parts, q) ↦ ground arith
  ]

  set_attributes-ne-none :
      (os : List (List ℕ)) (type : BaseType) (rt : ResourceType) (b : Bool) (h : Handler F)
      → All (λ o. length o ≤ 19) os
      → set_attributes f os type rt b h ≢ none
  unfolding set_attributes
  set_attributes-ne-none [] type rt b h s = λ e. cc
  set_attributes-ne-none (o ∷ os) type rt b h s =
      elim (Option-cases (set_notification_attribute f o type rt h)) [
        | inl fault ↦ absurd (set_notification_attribute-ne-none o type rt h s.0 fault)
        | inr ((done, h'), q) ↦ ground (arith, set_attributes-ne-none os type rt true h' s.1)
      ]

  -- A query with several options overruns neither the rows nor the arrays of an option, however
  -- long it is.
  pub parse_notification_attribute-ne-none :
      (h : Handler F) (text : List ℕ) (type : BaseType) (rt : ResourceType)
      (parts : List ℕ × List ℕ)
      → split_at b'&' text ≡ some parts
      → parse_notification_attribute f text type rt h ≢ none
  unfolding parse_notification_attribute
  parse_notification_attribute-ne-none h text type rt parts several =
      let (rows, read, short) = query_options_short (suc (length text)) 0 text (omega arith) in
      let safe = set_attributes-ne-none rows type rt false h short in ground (arith, read, safe)
