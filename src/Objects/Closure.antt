-- ===== src/Objects/Closure.antt =====
-- What every change of a value keeps: a predicate on lines that the calls of report handlers and the
-- writes of values keep is kept by `report` and `set_value`.
use mbed_client.Common.{
  ℕ, ◌+◌, ◌≡◌, bit_and, Bool, true, false, not, ◌&&◌, List, [], ◌∷◌, length, ltb, ◌==◌, Option,
  none, some, if◌then◌else◌, arith, Bool-cases, inl, inr,
}
use mbed_client.Report
use mbed_client.Report.{Float, Handler}
use mbed_client.Objects.{Node}
use mbed_client.Objects.Base.{
  text_of, o_attribute, oi_attribute, r_attribute, is_static, is_dynamic, is_under_observation,
}
use mbed_client.Objects.Line.{
  Line, Message, value_updated, drive_object, drive_object_instance, drive_resource, drive_self,
  object_update, notification_update, report_resource, report, report_change, set_value, self,
  with_self, combined_level, id_of,
}

pub record IsClosed {F : Type 0} (P : Line F → Type 0) : Type 0 where
  pub on_object : (op : Handler F → Handler F) (l : Line F) → P l → P (drive_object op l)
  pub on_instance : (op : Handler F → Handler F) (l : Line F) → P l → P (drive_object_instance op l)
  pub on_resource : (op : Handler F → Handler F) (l : Line F) → P l → P (drive_resource op l)
  pub on_self : (op : Handler F → Handler F) (l : Line F) → P l → P (drive_self op l)
  pub on_change : (n : Node F) (l : Line F) → P l → P (with_self n l)
  pub on_message :
      (m : Message) (l : Line F)
      → l.observation_handler ≡ true
      → P l
      → P (record l { messages = m ∷ l.messages })

-- Either branch of a test.
if-closed {ℓ κ} :
    {A : Type ℓ} (P : A → Type κ) (b : Bool) (x y : A) → P x → P y → P (if b then x else y)
if-closed P true x y h g = h
if-closed P false x y h g = g

if-then {ℓ κ} :
    {A : Type ℓ} (P : A → Type κ) (b : Bool) (x y : A) → b ≡ true → P x → P (if b then x else y)
if-then P true x y e h = h
if-then P false x y e h = absurd (ground (arith, e))

module _ (f : Float) where
  open f use {F}

  -- The values set one after another at the end of a line.
  abbrev pub set_values : (ℕ → Bool) → List (Option (List ℕ)) → Line F → Line F
  set_values malloc [] l = l
  set_values malloc (v ∷ vs) l = set_values malloc vs (set_value f malloc v l).1

module _ (f : Float) (P : Line f.F → Type 0) (closed : IsClosed P) where
  open f use {F, atof, null}

  pub report_resource-closed : (l : Line F) → P l → P (report_resource f l)
  unfolding report_resource
  report_resource-closed l h =
      if-closed P _ _ _
        (if-closed P _ _ l
          (closed.on_self
            (Report.set_value f (elim (self l).resource [ none ↦ null | some v ↦ atof v ])) l h)
          h)
        (if-closed P _ _ l
          (closed.on_resource (Report.set_notification_trigger f (id_of l.object_instance)) l h) h)

  pub object_update-closed : (l : Line F) → P l → P (object_update f l)
  unfolding object_update
  object_update-closed l h =
      if-closed P _ _ l
        (closed.on_object (Report.set_notification_trigger f (id_of l.object_instance)) l h) h

  -- What `notification_update` does after it has told the object.
  instance_update-closed :
      (level : ℕ) (l : Line F)
      → P l
      → P (
          if bit_and oi_attribute level == oi_attribute && is_under_observation f l.object_instance
          then drive_object_instance (Report.set_notification_trigger f 0) l
          else l)
  instance_update-closed level l h =
      if-closed P _ _ _ (closed.on_instance (Report.set_notification_trigger f 0) _ h) h

  notification_update-closed : (level : ℕ) (l : Line F) → P l → P (notification_update f level l)
  unfolding notification_update
  notification_update-closed level l h =
      instance_update-closed level _ (if-closed P _ _ l (object_update-closed l h) h)

  -- What `report` does after it has told the object and the object instance, on the way to `l1`.
  report_end-closed :
      (l l1 : Line F)
      → P l1
      → P (
          if is_dynamic (self l).mode && bit_and r_attribute (combined_level f l) == r_attribute
          then report_resource f l1
          else if is_static (self l).mode && l1.observation_handler
          then record l1 { messages = value_updated (self l).base_type ∷ l1.messages }
          else l1)
  report_end-closed l l1 h =
      if-closed P _ _ _ (report_resource-closed l1 h) (unseen (is_static (self l).mode))
    where
      unseen :
          (b : Bool)
          → P (
              if b && l1.observation_handler
              then record l1 { messages = value_updated (self l).base_type ∷ l1.messages }
              else l1)
      unseen b = elim (Bool-cases (b && l1.observation_handler)) [
        | inl set ↦
            rw set (closed.on_message (value_updated (self l).base_type) l1 (ground (arith, set)) h)
        | inr unset ↦ rw unset h
      ]

  report-closed : (l : Line F) → P l → P (report f l)
  unfolding report
  report-closed l h =
      report_end-closed l _
        (if-closed P _ _ l (notification_update-closed (combined_level f l) l h) h)

  -- A line whose levels have the bit of the object: only what the object's handler has done counts.
  pub report-closed_object :
      (l : Line F)
      → (bit_and o_attribute (combined_level f l) == o_attribute) ≡ true
      → P (object_update f l)
      → P (report f l)
  unfolding report notification_update
  report-closed_object l on h = report_end-closed l _ (
      if-then P _ _ l (ground (arith, on))
        (instance_update-closed (combined_level f l) _ (if-then P _ _ l on h)))

  pub report_change-closed : (l : Line F) → P l → P (report_change f l)
  unfolding report_change
  report_change-closed l h =
      if-closed P _ _ _
        (if-closed P _ _ l (closed.on_self (Report.set_notification_trigger f 0) l h) h)
        (report-closed l h)

  pub set_value-closed :
      (malloc : ℕ → Bool) (value : Option (List ℕ)) (l : Line F)
      → P l
      → P (set_value f malloc value l).1
  unfolding set_value
  set_value-closed malloc value l h =
      let lost = closed.on_change (record (self l) { resource = none }) l h in
      let kept = closed.on_change (record (self l) { resource = value }) l h in
      elim (Bool-cases (not (ltb 0 (length (text_of value))))) [
        | inl empty ↦ rw empty h
        | inr some_text ↦ elim (Bool-cases (not (malloc (length (text_of value) + 1)))) [
          | inl refused ↦ rw (some_text, refused) lost
          | inr copied ↦
              rw (some_text, copied) (if-closed P _ _ _ (report_change-closed _ kept) kept)
        ]
      ]

  pub set_values-closed :
      (malloc : ℕ → Bool) (values : List (Option (List ℕ))) (l : Line F)
      → P l
      → P (set_values f malloc values l)
  set_values-closed malloc [] l h = h
  set_values-closed malloc (v ∷ vs) l h =
      set_values-closed malloc vs _ (set_value-closed malloc v l h)
