-- ===== src/Report/Threshold.antt =====
-- Which values the report handler sends.
use mbed_client.Common.{
  suc, ◌≡◌, refl, Bool, true, false, not, ◌&&◌, ◌||◌, ◌⊎◌, [], ◌∷◌, if◌then◌else◌, arith,
}
use mbed_client.Report.{
  Float, Handler, stop_pmin, stop_pmax, no_flags, handler, set_value, set_under_observation,
  schedule_report, report, send_report, handle_timers, hold_back, stop_timers, set_default_values,
  check_threshold_values, check_gt_lt_params,
}
use mbed_client.Report.Delivery.{count_sent}

module _ (f : Float) where
  open f use {F}

  -- What the attributes ask of a value, by their meaning: a step away from the last value, or
  -- outside the band of `lt` and `gt`; with neither, any value.
  abbrev pub outside : Handler F → F → Bool
  outside h v = (h.attribute_state.lt && f.ltb v h.lt) || (h.attribute_state.gt && f.ltb h.gt v)

  abbrev pub stepped : Handler F → F → Bool
  stepped h v = h.attribute_state.st && (f.leb h.high_step v || f.leb v h.low_step)

  abbrev pub unconditional : Handler F → Bool
  unconditional h = not h.attribute_state.lt && not h.attribute_state.gt && not h.attribute_state.st

  abbrev pub is_wanted : Handler F → F → Bool
  is_wanted h v = outside h v || stepped h v || unconditional h

  check_threshold_values-is_wanted :
      (h : Handler F) → check_threshold_values f h ≡ is_wanted h h.current_value
  unfolding check_threshold_values check_gt_lt_params
  check_threshold_values-is_wanted h = ground arith

  -- A value other than the last, with no minimum period that still runs, is sent at once, in one
  -- observation, if the attributes want it; otherwise nothing is sent, and nothing stays pending.
  -- Either way it counts as the last value.
  pub set_value-is_wanted :
      (h : Handler F) (v : F)
      → f.eqb v h.last_value ≡ false
      → (h.attribute_state.pmin ≡ false) ⊎ (h.pmin_exceeded ≡ true)
      → let h' = set_value f v h in
        (count_sent h'.calls
          ≡ (if is_wanted h v then suc (count_sent h.calls) else count_sent h.calls))
        × (h'.notify ≡ false)
        × (h'.last_value ≡ v)
  unfolding set_value schedule_report report send_report handle_timers hold_back
  set_value-is_wanted h v new free =
      ground (arith, check_threshold_values-is_wanted (record h { current_value = v }))

  -- Ending the observation forgets every attribute and stops both timers.
  pub set_under_observation_end :
      (h : Handler F)
      → let h' = set_under_observation f false h in
        (h'.attribute_state ≡ no_flags)
        × (h'.pmin ≡ (handler f).pmin)
        × (h'.pmax ≡ (handler f).pmax)
        × (h'.changed_instance_ids ≡ [])
        × (h'.calls ≡ stop_pmax ∷ stop_pmin ∷ h.calls)
  unfolding set_under_observation stop_timers set_default_values handler
  set_under_observation_end h = (refl, refl, refl, refl, refl)
