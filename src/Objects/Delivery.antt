-- ===== src/Objects/Delivery.antt =====
-- A change of a value reaches who observes the object above it.
use mbed_client.Common.{
  ℕ, ◌+◌, ◌≡◌, ◌<◌, refl, ap, ◌∙◌, bit_and, bit_or, Bool, true, false, not, ◌&&◌, ◌||◌, List, [],
  ◌∷◌, ◌++◌, length, ltb, ◌==◌, some, if◌then◌else◌, arith, Option-cases, inl, inr,
}
use mathlib.Core.Path.{subst}
use mbed_client.Common.Bits.{mask_4, or_4}
use mbed_client.Report
use mbed_client.Report.{
  Float, Handler, contains, next_number, schedule_report, send_report, handle_timers,
  handle_pmin_timer, handle_pmax_timer, set_notification_trigger,
}
use mbed_client.Report.Attributes.{BaseType}
use mbed_client.Objects.{Node}
use mbed_client.Objects.Base.{
  o_attribute, is_under_observation, observation_level, is_value_changed,
}
use mbed_client.Objects.Closure.{report-closed_object}
use mbed_client.Objects.After.{IsAfter, IsAfter-IsClosed, self-with_self}
use mbed_client.Objects.Line.{
  Line, Message, observation_to_be_sent, messages_of, drive, drive_object, with_self, self,
  combined_level, is_string, report_change, object_update, report, set_value, id_of,
}

module _ (f : Float) where
  open f use {F, null, one}

  -- What a trigger of a handler sends.
  abbrev pub notification_ids : ℕ → Handler F → List ℕ
  notification_ids id h =
      let ids = h.changed_instance_ids in if contains id ids then ids else ids ++ (id ∷ [])

  abbrev pub notification : BaseType → ℕ → Handler F → Message
  notification type id h =
      observation_to_be_sent type (next_number h.observation_number) (notification_ids id h) false

  handle_timers-messages :
      (type : BaseType) (h : Handler F)
      → messages_of type (handle_timers f h).calls ≡ messages_of type h.calls
  unfolding handle_timers messages_of
  handle_timers-messages type h = ground arith

  -- A report that is due and whose value differs from the last one sends one message.
  schedule_report-sends :
      (type : BaseType) (h : Handler F)
      → h.calls ≡ []
      → f.eqb h.current_value h.last_value ≡ false
      → (h.attribute_state.pmin && not h.pmin_exceeded) ≡ false
      → messages_of type (schedule_report f h).calls
        ≡ observation_to_be_sent type
            (next_number h.observation_number)
            h.changed_instance_ids
            false
          ∷ []
  unfolding schedule_report messages_of send_report next_number Report.report handle_timers
  schedule_report-sends type h no_calls differ due =
      rw (let e : (not h.attribute_state.pmin || h.pmin_exceeded) ≡ true = ground (arith, due) in e)
        (handle_timers-messages type (send_report f (record h { notify = true })) ∙ sent)
    where
      sent :
          messages_of type (send_report f (record h { notify = true })).calls
          ≡ observation_to_be_sent type
              (next_number h.observation_number)
              h.changed_instance_ids
              false
            ∷ []
      sent = rw (differ, no_calls) refl

  trigger-sends :
      (type : BaseType) (id : ℕ) (h : Handler F)
      → f.eqb null one ≡ false
      → (h.attribute_state.pmin && not h.pmin_exceeded) ≡ false
      → messages_of type (set_notification_trigger f id (record h { calls = [] })).calls
        ≡ notification type id h ∷ []
  unfolding set_notification_trigger
  trigger-sends type id h differ due =
      schedule_report-sends type
        (record h {
          changed_instance_ids = (notification_ids id h);
          current_value = null;
          last_value = one;
          calls = [];
        })
        refl differ due

  object_update-sends :
      (l : Line F) (h : Handler F)
      → l.object.report_handler ≡ some h
      → l.observation_handler ≡ true
      → h.is_under_observation ≡ true
      → f.eqb null one ≡ false
      → (h.attribute_state.pmin && not h.pmin_exceeded) ≡ false
      → (object_update f l).messages
        ≡ notification l.object.base_type (id_of l.object_instance) h ∷ l.messages
  unfolding object_update drive_object is_under_observation
  object_update-sends l h e set observed differ due =
      rw (is_observed) (ap (λ s. s ++ l.messages) sent)
    where
      is_observed : is_under_observation f l.object ≡ true
      is_observed = rw e observed

      sent :
          (drive l.observation_handler
            (set_notification_trigger f (id_of l.object_instance))
            l.object).0
          ≡ notification l.object.base_type (id_of l.object_instance) h ∷ []
      sent = rw (set, e) (trigger-sends l.object.base_type (id_of l.object_instance) h differ due)

  -- The bit of the object in the combined levels, from that in the object's own.
  or_object :
      (a b c d : ℕ)
      → bit_and o_attribute b ≡ o_attribute
      → bit_and o_attribute (bit_or (bit_or (bit_or a b) c) d) ≡ o_attribute
  or_object a b c d h = omega (
    arith,
    mask_4 b,
    mask_4 (bit_or (bit_or (bit_or a b) c) d),
    or_4 (bit_or (bit_or a b) c) d,
    or_4 (bit_or a b) c,
    or_4 a b,
  )

  combined_level-object :
      (l : Line F) (h : Handler F)
      → l.object.report_handler ≡ some h
      → bit_and o_attribute h.observation_level ≡ o_attribute
      → (bit_and o_attribute (combined_level f l) == o_attribute) ≡ true
  unfolding combined_level observation_level
  combined_level-object l h e on =
      let all =
        or_object (observation_level f l.object_instance) (observation_level f l.object)
          (observation_level f l.resource) (observation_level f (self l)) (rw e on) in
      ground (arith, all)

  -- A line whose object is observed, is told of a change, and need not wait for a minimum period.
  pub record IsWatched (l : Line F) (h : Handler F) : Type 0 where
    pub handled : l.object.report_handler ≡ some h
    pub observed : h.is_under_observation ≡ true
    pub level : bit_and o_attribute h.observation_level ≡ o_attribute
    pub due : (h.attribute_state.pmin && not h.pmin_exceeded) ≡ false
    pub heard : l.observation_handler ≡ true

  report-sends :
      (l : Line F) (h : Handler F)
      → f.eqb null one ≡ false
      → IsWatched l h
      → IsAfter
          (notification l.object.base_type (id_of l.object_instance) h ∷ l.messages)
          (report f l)
  report-sends l h differ w =
      report-closed_object f _ (IsAfter-IsClosed _) l (combined_level-object l h w.handled w.level)
        (record {
          newer = [];
          order = object_update-sends l h w.handled w.heard w.observed differ w.due;
        })

  pub with_self-IsWatched :
      (n : Node F) (l : Line F) (h : Handler F) → IsWatched l h → IsWatched (with_self n l) h
  with_self-IsWatched n l h w = elim (Option-cases l.leaf) [
    | inl absent ↦ rw absent (record {
      handled = w.handled;
      observed = w.observed;
      level = w.level;
      due = w.due;
      heard = w.heard;
    })
    | inr (m, e) ↦ rw e (record {
      handled = w.handled;
      observed = w.observed;
      level = w.level;
      due = w.due;
      heard = w.heard;
    })
  ]

  -- The messages of a line after those of a change, which a write of the value leaves alone.
  abbrev pub told : Line F → Handler F → List Message
  told l h = notification l.object.base_type (id_of l.object_instance) h ∷ l.messages

  pub told-with_self : (n : Node F) (l : Line F) (h : Handler F) → told (with_self n l) h ≡ told l h
  told-with_self n l h = elim (Option-cases l.leaf) [
    | inl absent ↦ rw absent refl
    | inr (m, e) ↦ rw e refl
  ]

  report_change-sends :
      (n : Node F) (l : Line F) (h : Handler F)
      → f.eqb null one ≡ false
      → IsWatched l h
      → is_string n.data_type ≡ false
      → IsAfter (told l h) (report_change f (with_self n l))
  unfolding report_change
  report_change-sends n l h differ w kind =
      let plain = ap (λ m. is_string m.data_type) (self-with_self n l) ∙ kind in
      subst (λ ms. IsAfter ms (report_change f (with_self n l))) (told-with_self n l h)
        (rw plain (report-sends (with_self n l) h differ (with_self-IsWatched n l h w)))

  -- Who observes an object hears of a change of any value below it that is no string: the object's
  -- report handler sends the number of the object instance, with the next observation number, and
  -- that message is followed by later ones only.
  pub set_value-delivered :
      (malloc : ℕ → Bool) (value : List ℕ) (l : Line F) (h : Handler F)
      → f.eqb null one ≡ false
      → ((n : ℕ) → malloc n ≡ true)
      → IsWatched l h
      → is_string (self l).data_type ≡ false
      → 0 < length value
      → is_value_changed (some value) (self l) ≡ true
      → IsAfter
          (notification l.object.base_type (id_of l.object_instance) h ∷ l.messages)
          (set_value f malloc (some value) l).1
  unfolding set_value
  set_value-delivered malloc value l h differ ample w kind long changed =
      rw
        (
          let e : not (ltb 0 (length value)) ≡ false = ground arith in e,
          ample (length value + 1),
          changed,
        )
        (report_change-sends (record (self l) { resource = some value }) l h differ w kind)
