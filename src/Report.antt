-- ===== src/Report.antt =====
-- source/m2mreporthandler.cpp: when a change of a value is reported to an observer. `float` and
-- its operations are a parameter, as are `atoi`, `atof` and the conversions between `float` and
-- `int32_t`. What the code asks of its two timers
-- and of its observer is recorded in `calls`, the latest first.
pub mod Attributes
pub mod Parse
pub mod Threshold
pub mod Delivery
pub mod Rollback
pub mod Bounds
pub mod Tests
use mbed_client.Common.{
  ℕ, ◌+◌, ◌-◌, ◌*◌, ◌%◌, ◌^◌, bit_and, bit_or, Bool, true, false, not, ◌&&◌, ◌||◌, List, [], ◌∷◌,
  ◌++◌, ltb, leb, ◌==◌, if◌then◌else◌, Option, none, some, take,
}
use mbed_client.Common.Int.{ℤ, pos, negsuc, int_eq, int_lt}

pub record Float : Type 1 where
  pub F : Type 0
  pub eqb : F → F → Bool
  pub ltb : F → F → Bool
  pub leb : F → F → Bool
  pub add : F → F → F
  pub sub : F → F → F
  pub double : F → F
  pub minus_one : F
  pub null : F
  pub one : F
  pub atof : List ℕ → F
  pub atoi : List ℕ → ℤ
  pub of_int : ℤ → F
  pub to_int : F → ℤ

pub data Call : Type 0 where
  start_pmin : ℕ → Call
  stop_pmin : Call
  start_pmax : ℕ → Call
  stop_pmax : Call
  send : List ℕ → ℕ → Bool → Call

-- The bits of `_attribute_state`.
pub record Flags : Type 0 where
  pub pmin : Bool
  pub pmax : Bool
  pub lt : Bool
  pub gt : Bool
  pub st : Bool

abbrev pub no_flags : Flags
no_flags = record { pmin = false; pmax = false; lt = false; gt = false; st = false }

pub record Handler (F : Type 0) : Type 0 where
  pub is_under_observation : Bool
  pub observation_level : ℕ
  pub attribute_state : Flags
  pub token : Option (List ℕ)
  pub notify : Bool
  pub pmin_exceeded : Bool
  pub pmax_exceeded : Bool
  pub observation_number : ℕ
  pub pmax : ℤ
  pub pmin : ℤ
  pub current_value : F
  pub gt : F
  pub lt : F
  pub st : F
  pub high_step : F
  pub low_step : F
  pub last_value : F
  pub changed_instance_ids : List ℕ
  pub calls : List Call

-- `attribute_flags`, with the bits of the enumeration in the header.
unfoldable pub attribute_flags : Flags → ℕ
attribute_flags a =
    (if a.pmin then 2 else 0)
    + (if a.pmax then 4 else 0)
    + (if a.lt then 8 else 0)
    + (if a.gt then 16 else 0)
    + (if a.st then 32 else 0)

-- `(uint64_t)seconds * 1000`
unfoldable pub milliseconds : ℤ → ℕ
milliseconds (pos n) = n * 1000 % 2 ^ 64
milliseconds (negsuc n) = (2 ^ 64 - 1 - n) * 1000 % 2 ^ 64

unfoldable pub next_number : ℕ → ℕ
next_number n = (n + 1) % 65536

unfoldable pub contains : ℕ → List ℕ → Bool
contains id [] = false
contains id (x ∷ xs) = x == id || contains id xs

module _ (f : Float) where
  open f use {F, add, sub, double, minus_one, null, one}

  unfoldable pub handler : Handler F
  handler = record {
    is_under_observation = false;
    observation_level = 0;
    attribute_state = no_flags;
    token = none;
    notify = false;
    pmin_exceeded = false;
    pmax_exceeded = false;
    observation_number = 0;
    pmax = negsuc 0;
    pmin = pos 1;
    current_value = null;
    gt = null;
    lt = null;
    st = null;
    high_step = null;
    low_step = null;
    last_value = minus_one;
    changed_instance_ids = [];
    calls = [];
  }

  abbrev pub log : Call → Handler F → Handler F
  log c h = record h { calls = c ∷ h.calls }

  unfoldable pub stop_timers : Handler F → Handler F
  stop_timers h = record h {
    pmin_exceeded = false;
    pmax_exceeded = false;
    calls = stop_pmax ∷ stop_pmin ∷ h.calls;
  }

  unfoldable pub set_default_values : Handler F → Handler F
  set_default_values h = record h {
    pmax = negsuc 0;
    pmin = pos 1;
    gt = null;
    lt = null;
    st = null;
    high_step = null;
    low_step = null;
    pmin_exceeded = false;
    pmax_exceeded = false;
    last_value = minus_one;
    attribute_state = no_flags;
    changed_instance_ids = [];
  }

  -- The first half of `handle_timers`.
  unfoldable pub handle_pmin_timer : Handler F → Handler F
  handle_pmin_timer h =
      if h.attribute_state.pmin
      then if int_eq h.pmin h.pmax
        then record h { pmin_exceeded = true }
        else record h { pmin_exceeded = false; calls = start_pmin (milliseconds h.pmin) ∷ h.calls }
      else h

  unfoldable pub handle_pmax_timer : Handler F → Handler F
  handle_pmax_timer h =
      if h.attribute_state.pmax && int_lt (pos 0) h.pmax
      then log (start_pmax (milliseconds h.pmax)) h
      else h

  unfoldable pub handle_timers : Handler F → Handler F
  unfolding handle_pmin_timer handle_pmax_timer
  handle_timers h = handle_pmax_timer (handle_pmin_timer h)

  -- The part of `report` before `handle_timers`.
  unfoldable pub send_report : Handler F → Handler F
  unfolding next_number
  send_report h =
      let number = next_number h.observation_number in
      if not (f.eqb h.current_value h.last_value) && h.notify
      then record h {
        pmin_exceeded = false;
        pmax_exceeded = false;
        notify = false;
        observation_number = number;
        changed_instance_ids = [];
        calls = stop_pmax ∷ send h.changed_instance_ids number false ∷ h.calls;
      }
      else if h.pmax_exceeded
      then record h {
        observation_number = number;
        changed_instance_ids = [];
        calls = send h.changed_instance_ids number true ∷ h.calls;
      }
      else h

  unfoldable pub report : Handler F → Handler F
  unfolding send_report handle_timers
  report h = let h' = handle_timers (send_report h) in record h' { last_value = h'.current_value }

  unfoldable pub schedule_report : Handler F → Handler F
  schedule_report h =
      let h' = record h { notify = true } in
      if not h'.attribute_state.pmin || h'.pmin_exceeded then report h' else h'

  unfoldable pub set_under_observation : Bool → Handler F → Handler F
  unfolding stop_timers handle_timers set_default_values
  set_under_observation observed h =
      let h' = stop_timers (record h { is_under_observation = observed }) in
      if observed then handle_timers h' else set_default_values h'

  unfoldable pub check_gt_lt_params : Handler F → Bool
  check_gt_lt_params h =
      if h.attribute_state.lt && h.attribute_state.gt
      then f.ltb h.gt h.current_value || f.ltb h.current_value h.lt
      else if h.attribute_state.lt
      then f.ltb h.current_value h.lt
      else if h.attribute_state.gt
      then f.ltb h.gt h.current_value
      else true

  unfoldable pub check_threshold_values : Handler F → Bool
  unfolding check_gt_lt_params
  check_threshold_values h =
      if h.attribute_state.st
      then if f.leb h.high_step h.current_value || f.leb h.current_value h.low_step
        then true
        else if h.attribute_state.lt || h.attribute_state.gt
        then check_gt_lt_params h
        else false
      else check_gt_lt_params h

  -- A value that is not to be sent. One that some attribute kept back ends the minimum period.
  unfoldable pub hold_back : Handler F → Handler F
  hold_back h =
      let h' = record h { notify = false; last_value = h.current_value } in
      let a = h.attribute_state in
      if a.lt || a.gt || a.st
      then record h' { pmin_exceeded = true; calls = stop_pmin ∷ h.calls }
      else h'

  unfoldable pub set_value : F → Handler F → Handler F
  unfolding hold_back
  set_value value h =
      let h' = record h { current_value = value } in
      let h'' = if check_threshold_values h' then schedule_report h' else hold_back h' in
      if not (f.eqb value h.last_value)
      then record h'' {
        high_step = add h''.current_value h''.st;
        low_step = sub h''.current_value h''.st;
      }
      else h'

  unfoldable pub set_notification_trigger : ℕ → Handler F → Handler F
  unfolding contains
  set_notification_trigger id h =
      let ids = h.changed_instance_ids in
      schedule_report (record h {
        changed_instance_ids = if contains id ids then ids else ids ++ (id ∷ []);
        current_value = null;
        last_value = one;
      })

  -- `timer_expired` of the minimum and of the maximum period.
  unfoldable pub pmin_expired : Handler F → Handler F
  pmin_expired h =
      let h' = record h { pmin_exceeded = true } in
      if h'.notify || (int_lt (pos 0) h'.pmin && not h'.attribute_state.pmax) then report h' else h'

  unfoldable pub pmax_expired : Handler F → Handler F
  pmax_expired h =
      let h' = record h { pmax_exceeded = true } in
      if h'.pmin_exceeded || not h'.attribute_state.pmin then report h' else h'

  -- `set_observation_token`; a copy needs a byte more than the token.
  unfoldable pub set_observation_token : (ℕ → Bool) → List ℕ → ℕ → Handler F → Handler F
  set_observation_token malloc token size h = record h {
    token = if ltb 0 size && malloc (size + 1) then some (take size token) else none;
  }

  unfoldable pub add_observation_level : ℕ → Handler F → Handler F
  add_observation_level level h = record h {
    observation_level = bit_or h.observation_level level % 16;
  }

  -- `_observation_level & ~obs_level`
  unfoldable pub remove_observation_level : ℕ → Handler F → Handler F
  remove_observation_level level h = record h {
    observation_level = (h.observation_level - bit_and h.observation_level level) % 16;
  }
