-- ===== src/Report/Delivery.antt =====
-- The report handler over a sequence of events: what it has sent, and when.
use mbed_client.Common.{
  ℕ, suc, not, ◌&&◌, ◌++◌, Bool-cases, ◌%◌, ◌≡◌, refl, Bool, true, false, List, [], ◌∷◌, All,
  Option, none, some, arith, inl, inr, Option-cases,
}
use mbed_client.Common.Int.{pos, int_eq, int_lt}
use mbed_client.Report.{
  Float, Handler, Call, start_pmin, stop_pmin, start_pmax, stop_pmax, send, handler,
  set_under_observation, set_value, set_notification_trigger, pmin_expired, pmax_expired,
  schedule_report, report, send_report, handle_timers, stop_timers, handle_pmin_timer,
  handle_pmax_timer, milliseconds, check_threshold_values, check_gt_lt_params, next_number,
}
use mbed_client.Report.Attributes.{BaseType, set_notification_attribute, assign, split_at}
use mbed_client.Report.Parse.{parse_notification_attribute, set_attributes, restore, options_of}
use mbed_client.Tlv.{ResourceType}

-- What reaches the handler from outside.
pub data Event (F : Type 0) : Type 0 where
  observe : Bool → Event F
  value : F → Event F
  trigger : ℕ → Event F
  query : List ℕ → BaseType → ResourceType → Event F
  pmin_timer pmax_timer : Event F

-- The calls that send an observation.
abbrev pub count_sent : List Call → ℕ
count_sent [] = 0
count_sent (send ids number again ∷ cs) = suc (count_sent cs)
count_sent (start_pmin n ∷ cs) = count_sent cs
count_sent (stop_pmin ∷ cs) = count_sent cs
count_sent (start_pmax n ∷ cs) = count_sent cs
count_sent (stop_pmax ∷ cs) = count_sent cs

module _ (f : Float) where
  open f use {F}

  -- A query that overruns an array on the stack has no next state.
  unfoldable pub step : Handler F → Event F → Option (Handler F)
  step h (observe observed) = some (set_under_observation f observed h)
  step h (value v) = some (set_value f v h)
  step h (trigger id) = some (set_notification_trigger f id h)
  step h (query text type resource_type) =
      elim (parse_notification_attribute f text type resource_type h) [
        | none ↦ none
        | some (success, h') ↦ some h'
      ]
  step h pmin_timer = some (pmin_expired f h)
  step h pmax_timer = some (pmax_expired f h)

  unfoldable pub run : Handler F → List (Event F) → Option (Handler F)
  run h [] = some h
  run h (e ∷ es) = elim (step h e) [ none ↦ none | some h' ↦ run h' es ]

  -- The observation number counts what was sent, in 16 bits.
  abbrev pub IsCounted : Handler F → Type 0
  IsCounted h = h.observation_number ≡ count_sent h.calls % 65536

  handle_timers-IsCounted : (h : Handler F) → IsCounted h → IsCounted (handle_timers f h)
  unfolding handle_timers
  handle_timers-IsCounted h c = ground arith

  send_report-IsCounted : (h : Handler F) → IsCounted h → IsCounted (send_report f h)
  unfolding send_report
  send_report-IsCounted h c = ground arith

  report-IsCounted : (h : Handler F) → IsCounted h → IsCounted (report f h)
  unfolding report
  report-IsCounted h c = handle_timers-IsCounted (send_report f h) (send_report-IsCounted h c)

  schedule_report-IsCounted : (h : Handler F) → IsCounted h → IsCounted (schedule_report f h)
  unfolding schedule_report
  schedule_report-IsCounted h c = ground (arith, report-IsCounted (record h { notify = true }))

  set_value-IsCounted : (v : F) (h : Handler F) → IsCounted h → IsCounted (set_value f v h)
  unfolding set_value
  set_value-IsCounted v h c =
      ground (arith, schedule_report-IsCounted (record h { current_value = v }))

  set_notification_trigger-IsCounted :
      (id : ℕ) (h : Handler F) → IsCounted h → IsCounted (set_notification_trigger f id h)
  unfolding set_notification_trigger
  set_notification_trigger-IsCounted id h c =
      schedule_report-IsCounted
        (record h { changed_instance_ids = _; current_value = _; last_value = _ }) c

  set_under_observation-IsCounted :
      (b : Bool) (h : Handler F) → IsCounted h → IsCounted (set_under_observation f b h)
  unfolding set_under_observation
  set_under_observation-IsCounted b h c =
      ground
        (arith, handle_timers-IsCounted (stop_timers f (record h { is_under_observation = b })))

  pmin_expired-IsCounted : (h : Handler F) → IsCounted h → IsCounted (pmin_expired f h)
  unfolding pmin_expired
  pmin_expired-IsCounted h c = ground (arith, report-IsCounted (record h { pmin_exceeded = true }))

  pmax_expired-IsCounted : (h : Handler F) → IsCounted h → IsCounted (pmax_expired f h)
  unfolding pmax_expired
  pmax_expired-IsCounted h c = ground (arith, report-IsCounted (record h { pmax_exceeded = true }))

  set_notification_attribute-calls :
      (o : List ℕ) (type : BaseType) (rt : ResourceType) (h : Handler F) {b : Bool} {h' : Handler F}
      → set_notification_attribute f o type rt h ≡ some (b, h')
      → (h'.calls ≡ h.calls) × (h'.observation_number ≡ h.observation_number)
  unfolding set_notification_attribute assign
  set_notification_attribute-calls o type rt h e = ground arith

  set_attributes-calls :
      (os : List (List ℕ)) (type : BaseType) (rt : ResourceType) (b : Bool) (h : Handler F)
      {b' : Bool} {h' : Handler F}
      → set_attributes f os type rt b h ≡ some (b', h')
      → (h'.calls ≡ h.calls) × (h'.observation_number ≡ h.observation_number)
  unfolding set_attributes
  set_attributes-calls [] type rt b h e = ground arith
  set_attributes-calls (o ∷ os) type rt b h {b'} {h'} e =
      elim (Option-cases (set_notification_attribute f o type rt h)) [
        | inl fault ↦ ground arith
        | inr ((done, h1), q) ↦ ground (
          arith,
          set_notification_attribute-calls o type rt h {b = done} {h' = h1} q,
          set_attributes-calls os type rt true h1 {b' = b'} {h' = h'},
        )
      ]

  parse_one-calls :
      (text : List ℕ) (type : BaseType) (rt : ResourceType) (h : Handler F) (b : Bool)
      (h' : Handler F)
      → split_at b'&' text ≡ none
      → parse_notification_attribute f text type rt h ≡ some (b, h')
      → (h'.calls ≡ h.calls) × (h'.observation_number ≡ h.observation_number)
  unfolding parse_notification_attribute
  parse_one-calls text type rt h b h' single e =
      elim (Option-cases (set_notification_attribute f text type rt h)) [
        | inl fault ↦ ground arith
        | inr ((done, h1), q) ↦
            ground (arith, set_notification_attribute-calls text type rt h {b = done} {h' = h1} q)
      ]

  parse_several-calls :
      (text : List ℕ) (type : BaseType) (rt : ResourceType) (h : Handler F) (b : Bool)
      (h' : Handler F) (parts : List ℕ × List ℕ)
      → split_at b'&' text ≡ some parts
      → parse_notification_attribute f text type rt h ≡ some (b, h')
      → (h'.calls ≡ h.calls) × (h'.observation_number ≡ h.observation_number)
  unfolding parse_notification_attribute restore
  parse_several-calls text type rt h b h' parts several e = elim (Option-cases (options_of text)) [
    | inl overrun ↦ ground arith
    | inr (options, o) ↦ elim (Option-cases (set_attributes f options type rt false h)) [
      | inl fault ↦ ground arith
      | inr ((done, h1), q) ↦
          let same = set_attributes-calls options type rt false h {b' = done} {h' = h1} q in
          ground (arith, o, q, same)
    ]
  ]

  parse_notification_attribute-IsCounted :
      (text : List ℕ) (type : BaseType) (rt : ResourceType) (h : Handler F) (b : Bool)
      (h' : Handler F)
      → parse_notification_attribute f text type rt h ≡ some (b, h')
      → IsCounted h
      → IsCounted h'
  parse_notification_attribute-IsCounted text type rt h b h' e c =
      elim (Option-cases (split_at b'&' text)) [
        | inl single ↦ ground (arith, parse_one-calls text type rt h b h' single e)
        | inr (parts, several) ↦
            ground (arith, parse_several-calls text type rt h b h' parts several e)
      ]

  step-IsCounted :
      (h : Handler F) (e : Event F) {h' : Handler F}
      → IsCounted h
      → step h e ≡ some h'
      → IsCounted h'
  unfolding step
  step-IsCounted h (observe b) c s = ground (arith, set_under_observation-IsCounted b h c)
  step-IsCounted h (value v) c s = ground (arith, set_value-IsCounted v h c)
  step-IsCounted h (trigger id) c s = ground (arith, set_notification_trigger-IsCounted id h c)
  step-IsCounted h (query text type rt) c s =
      elim (Option-cases (parse_notification_attribute f text type rt h)) [
        | inl fault ↦ ground arith
        | inr ((b, h1), q) ↦
            ground (arith, parse_notification_attribute-IsCounted text type rt h b h1 q c)
      ]
  step-IsCounted h pmin_timer c s = ground (arith, pmin_expired-IsCounted h c)
  step-IsCounted h pmax_timer c s = ground (arith, pmax_expired-IsCounted h c)

  run-IsCounted :
      (h : Handler F) (es : List (Event F)) {h' : Handler F}
      → IsCounted h
      → run h es ≡ some h'
      → IsCounted h'
  unfolding run
  run-IsCounted h [] c r = ground arith
  run-IsCounted h (e ∷ es) {h'} c r = elim (Option-cases (step h e)) [
    | inl fault ↦ ground arith
    | inr (h1, q) ↦ ground (arith, run-IsCounted h1 es {h' = h'} (step-IsCounted h e {h' = h1} c q))
  ]

  -- After any events from the start, the observation number is the number of observations that
  -- were sent, modulo 2 ^ 16.
  pub run-handler-IsCounted :
      (es : List (Event F)) {h : Handler F} → run (handler f) es ≡ some h → IsCounted h
  run-handler-IsCounted es r = run-IsCounted (handler f) es (unfold handler in refl) r

  -- A minimum period that runs, with no condition on the value.
  pub record IsQuiet (h : Handler F) : Type 0 where
    pub limited : h.attribute_state.pmin ≡ true
    pub running : h.pmin_exceeded ≡ false
    pub no_lt : h.attribute_state.lt ≡ false
    pub no_gt : h.attribute_state.gt ≡ false
    pub no_st : h.attribute_state.st ≡ false

  -- The application's own events.
  abbrev pub IsChange : Event F → Type 0
  IsChange (value v) = Unit {0}
  IsChange (trigger id) = Unit {0}
  IsChange (observe b) = ⊥
  IsChange (query text type rt) = ⊥
  IsChange pmin_timer = ⊥
  IsChange pmax_timer = ⊥

  step-IsQuiet :
      (h : Handler F) (e : Event F) {h' : Handler F}
      → IsChange e
      → IsQuiet h
      → step h e ≡ some h'
      → IsQuiet h'
        × (h'.calls ≡ h.calls)
        × (h'.attribute_state ≡ h.attribute_state)
        × (h'.pmin ≡ h.pmin)
  unfolding step set_value schedule_report check_threshold_values check_gt_lt_params
      set_notification_trigger
  step-IsQuiet h (value v) i q s = ground arith
  step-IsQuiet h (trigger id) i q s = ground arith
  step-IsQuiet h (observe b) i q s = absurd i
  step-IsQuiet h (query text type rt) i q s = absurd i
  step-IsQuiet h pmin_timer i q s = absurd i
  step-IsQuiet h pmax_timer i q s = absurd i

  -- While a minimum period runs with no condition on the value, changes of the value and triggers,
  -- however many, send nothing and touch no timer.
  pub run-IsQuiet :
      (h : Handler F) (es : List (Event F)) {h' : Handler F}
      → IsQuiet h
      → All IsChange es
      → run h es ≡ some h'
      → IsQuiet h' × (h'.calls ≡ h.calls)
  unfolding run
  run-IsQuiet h [] q i r = ground arith
  run-IsQuiet h (e ∷ es) {h'} q i r = elim (Option-cases (step h e)) [
    | inl fault ↦ ground arith
    | inr (h1, s) ↦
        let one = step-IsQuiet h e {h' = h1} i.0 q s in
        ground (arith, one, run-IsQuiet h1 es {h' = h'} one.0 i.1)
  ]

  -- What the timers are asked for after a report sends nothing.
  timers-silent :
      (h : Handler F)
      → (cs : List Call) × ((handle_timers f h).calls ≡ cs ++ h.calls)
        × (count_sent cs ≡ 0)
        × ((handle_timers f h).observation_number ≡ h.observation_number)
        × ((handle_timers f h).changed_instance_ids ≡ h.changed_instance_ids)
        × ((handle_timers f h).notify ≡ h.notify)
        × ((handle_timers f h).current_value ≡ h.current_value)
  unfolding handle_timers handle_pmin_timer handle_pmax_timer
  timers-silent h = elim (Bool-cases (h.attribute_state.pmin && not (int_eq h.pmin h.pmax))) [
    | inl starts ↦ elim (Bool-cases (h.attribute_state.pmax && int_lt (pos 0) h.pmax)) [
      | inl limited ↦ (
        start_pmax (milliseconds h.pmax) ∷ start_pmin (milliseconds h.pmin) ∷ [],
        ground arith,
        ground arith,
        ground arith,
        ground arith,
        ground arith,
        ground arith,
      )
      | inr unlimited ↦ (
        start_pmin (milliseconds h.pmin) ∷ [],
        ground arith,
        ground arith,
        ground arith,
        ground arith,
        ground arith,
        ground arith,
      )
    ]
    | inr no_start ↦ elim (Bool-cases (h.attribute_state.pmax && int_lt (pos 0) h.pmax)) [
      | inl limited ↦ (
        start_pmax (milliseconds h.pmax) ∷ [],
        ground arith,
        ground arith,
        ground arith,
        ground arith,
        ground arith,
        ground arith,
      )
      | inr unlimited ↦
          ([], ground arith, ground arith, ground arith, ground arith, ground arith, ground arith)
    ]
  ]

  -- A change that is pending when the minimum period ends is sent then, in one observation with all
  -- changed instances and the next number; after it nothing but timers is asked for, nothing stays
  -- pending, and the value counts as reported.
  pub pmin_expired_sends :
      (h : Handler F)
      → h.notify ≡ true
      → f.eqb h.current_value h.last_value ≡ false
      → let h' = pmin_expired f h in
        let number = next_number h.observation_number in
        ((cs : List Call) × (h'.calls
            ≡ cs ++ (stop_pmax ∷ send h.changed_instance_ids number false ∷ h.calls))
          × (count_sent cs ≡ 0))
        × (h'.observation_number ≡ number)
        × (h'.changed_instance_ids ≡ [])
        × (h'.notify ≡ false)
        × (h'.last_value ≡ h.current_value)
  unfolding pmin_expired report send_report
  pmin_expired_sends h pending changed =
      let (cs, calls, silent, number, ids, notify, current) = timers-silent (record h {
        pmin_exceeded = false;
        pmax_exceeded = false;
        notify = false;
        observation_number = next_number h.observation_number;
        changed_instance_ids = [];
        calls =
            stop_pmax
            ∷ send h.changed_instance_ids (next_number h.observation_number) false
            ∷ h.calls;
      }) in
      rw (pmin_expired, pending, changed) ((cs, calls, silent), number, ids, notify, current)
