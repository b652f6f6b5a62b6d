-- ===== src/Report/Tests.antt =====
-- The theorems on the report handler at concrete inputs, with natural numbers for `float`.
use mbed_client.Common.{
  ℕ, ◌++◌, ◌+◌, ◌-◌, ◌*◌, ◌≡◌, ◌≢◌, ◌⊎◌, refl, inl, true, false, List, [], ◌∷◌, none, some, suc,
  ltb, leb, ◌==◌, if◌then◌else◌,
}
use mbed_client.Common.Int.{pos}
use mbed_client.Report.{
  Float, Handler, Call, stop_pmax, send, no_flags, handler, pmin_expired, set_value,
  set_under_observation, next_number,
}
use mbed_client.Report.Attributes.{
  set_notification_attribute, split_at, resource, check_attribute_validity,
}
use mbed_client.Text.{magnitude}
use mbed_client.Report.Parse.{options_of, set_attributes, parse_notification_attribute}
use mbed_client.Report.Delivery.{
  pmin_timer, observe, value, count_sent, step, run, IsCounted, IsQuiet, run-handler-IsCounted,
  run-IsQuiet, pmin_expired_sends,
}
use mbed_client.Report.Threshold.{is_wanted, set_value-is_wanted}
use mbed_client.Report.Rollback.{rounded, parse_notification_attribute_refused}
use mbed_client.Report.Bounds.{parse_notification_attribute-ne-none}
use mbed_client.Tlv.{integer}

abbrev to_number : ℕ → List ℕ → ℕ
to_number n [] = n
to_number n (c ∷ cs) = to_number (n * 10 + (c - 48)) cs

abbrev pub natural : Float
natural = record {
  F = ℕ;
  eqb = ◌==◌;
  ltb = ltb;
  leb = leb;
  add = ◌+◌;
  sub = ◌-◌;
  double = λ x. x + x;
  minus_one = 0;
  null = 0;
  one = 1;
  atof = to_number 0;
  atoi = λ s. pos (to_number 0 s);
  of_int = magnitude;
  to_int = pos;
}

-- An observed handler.
abbrev pub observed : Handler ℕ
observed = record {
  is_under_observation = true;
  observation_level = 0;
  attribute_state = no_flags;
  token = some (1 ∷ []);
  notify = false;
  pmin_exceeded = true;
  pmax_exceeded = false;
  observation_number = 4;
  pmax = pos 60;
  pmin = pos 1;
  current_value = 20;
  gt = 0;
  lt = 0;
  st = 0;
  high_step = 0;
  low_step = 0;
  last_value = 20;
  changed_instance_ids = [];
  calls = [];
}

-- Its minimum period runs, with a change that waits for its end.
abbrev quiet : Handler ℕ
quiet = record observed {
  attribute_state = record no_flags { pmin = true };
  pmin_exceeded = false;
  notify = true;
  current_value = 22;
}

-- The same with a changed instance.
abbrev pending : Handler ℕ
pending = record quiet { changed_instance_ids = 7 ∷ [] }

run-handler-IsCounted_example : IsCounted natural (
    pmin_expired natural
      (set_value natural 3 (set_under_observation natural true (handler natural))))
unfolding run step
run-handler-IsCounted_example =
    run-handler-IsCounted natural (observe true ∷ value 3 ∷ pmin_timer ∷ []) refl

run-IsQuiet_example :
    IsQuiet natural (set_value natural 25 quiet) × ((set_value natural 25 quiet).calls ≡ [])
unfolding run step
run-IsQuiet_example =
    run-IsQuiet natural quiet (value 25 ∷ [])
      (record { limited = refl; running = refl; no_lt = refl; no_gt = refl; no_st = refl }) (tt, tt)
      refl

pmin_expired_sends_example :
    ((cs : List Call) × ((pmin_expired natural pending).calls
        ≡ cs ++ (stop_pmax ∷ send (7 ∷ []) 5 false ∷ []))
      × (count_sent cs ≡ 0))
    × ((pmin_expired natural pending).observation_number ≡ 5)
    × ((pmin_expired natural pending).changed_instance_ids ≡ [])
    × ((pmin_expired natural pending).notify ≡ false)
    × ((pmin_expired natural pending).last_value ≡ 22)
unfolding next_number
pmin_expired_sends_example = pmin_expired_sends natural pending refl refl

set_value-is_wanted_example :
    (count_sent (set_value natural 23 observed).calls ≡ (
      if is_wanted natural observed 23
      then suc (count_sent observed.calls)
      else count_sent observed.calls))
    × ((set_value natural 23 observed).notify ≡ false)
    × ((set_value natural 23 observed).last_value ≡ 23)
set_value-is_wanted_example = set_value-is_wanted natural observed 23 refl (inl refl)

-- `gt=9&ab=1`
abbrev two_options : List ℕ
two_options = b'g' ∷ b't' ∷ b'=' ∷ b'9' ∷ b'&' ∷ b'a' ∷ b'b' ∷ b'=' ∷ b'1' ∷ []

-- `gt=9`
abbrev one_option : List ℕ
one_option = b'g' ∷ b't' ∷ b'=' ∷ b'9' ∷ []

abbrev two_parts : List ℕ × List ℕ
two_parts = (b'g' ∷ b't' ∷ b'=' ∷ b'9' ∷ [], b'a' ∷ b'b' ∷ b'=' ∷ b'1' ∷ [])

parse_notification_attribute_refused_example :
    (observed ≡ rounded natural observed)
    ⊎ ((options : List (List ℕ)) × (options_of two_options ≡ some options)
        × (set_attributes natural options resource integer false observed ≡ some (true, observed))
        × (check_attribute_validity natural observed ≡ false))
unfolding parse_notification_attribute split_at set_notification_attribute magnitude
parse_notification_attribute_refused_example =
    parse_notification_attribute_refused natural observed two_options resource integer two_parts
      {h' = observed} refl refl

parse_notification_attribute-ne-none_example :
    parse_notification_attribute natural two_options resource integer observed ≢ none
unfolding split_at
parse_notification_attribute-ne-none_example =
    parse_notification_attribute-ne-none natural observed two_options resource integer two_parts
      refl

-- Twenty digits behind `gt=`.
abbrev digits : List ℕ
digits =
    b'1' ∷ b'2' ∷ b'3' ∷ b'4' ∷ b'5' ∷ b'6' ∷ b'7' ∷ b'8' ∷ b'9' ∷ b'0' ∷ b'1' ∷ b'2' ∷ b'3' ∷ b'4'
    ∷ b'5' ∷ b'6' ∷ b'7' ∷ b'8' ∷ b'9' ∷ b'0' ∷ []
