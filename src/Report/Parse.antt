-- ===== src/Report/Parse.antt =====
-- `parse_notification_attribute` of source/m2mreporthandler.cpp.
use mbed_client.Common.{
  ℕ, zero, suc, ◌+◌, Bool, true, false, ◌&&◌, List, [], ◌∷◌, length, take, ltb, Option, none, some,
  ◌>>=◌, if◌then◌else◌,
}
use mbed_client.Report.{Float, Handler}
use mbed_client.Report.Attributes.{
  BaseType, split_at, set_notification_attribute, check_attribute_validity,
}
use mbed_client.Tlv.{ResourceType}

-- A copy into the row of that number of `char query_options[5][20]`; `none` stands for a row behind
-- the array, or for one that is left without its NUL.
unfoldable pub write_row : ℕ → List ℕ → Option (List ℕ)
write_row row option = if ltb row 5 && ltb (length option) 20 then some option else none

-- The rows of a query from the number `num_options` on, each cut to 19 characters. The fuel is more
-- than the characters of the rest; without fuel the result is `none` too.
unfoldable pub query_options : ℕ → ℕ → List ℕ → Option (List (List ℕ))
unfolding write_row
query_options zero num_options rest = none
query_options (suc fuel) num_options rest = elim (split_at b'&' rest) [
  | none ↦
      if ltb num_options 5 && ltb 0 (length rest)
      then (do row ← write_row num_options (take 19 rest); some (row ∷ []))
      else some []
  | some (option, rest') ↦
      let later = query_options fuel (num_options + 1) rest' in
      if ltb num_options 5
      then (do row ← write_row num_options (take 19 option); rows ← later; some (row ∷ rows))
      else some []
]

abbrev pub options_of : List ℕ → Option (List (List ℕ))
options_of query = query_options (suc (length query)) 0 query

module _ (f : Float) where
  open f use {F, of_int, to_int}

  -- The loop over the options, which stops at the first that is refused. With no option it is not
  -- entered, and `success` is still false.
  unfoldable pub set_attributes :
      List (List ℕ) → BaseType → ResourceType → Bool → Handler F → Option (Bool × Handler F)
  set_attributes [] type resource_type success h = some (success, h)
  set_attributes (option ∷ options) type resource_type success h = do
    (done, h') ← set_notification_attribute f option type resource_type h
    if done then set_attributes options type resource_type true h' else some (false, h')

  -- What the failure branch puts back. The periods were saved in variables of type `float`.
  unfoldable pub restore : Handler F → Handler F → Handler F
  restore saved h = record h {
    pmin = to_int (of_int saved.pmin);
    pmax = to_int (of_int saved.pmax);
    st = saved.st;
    lt = saved.lt;
    gt = saved.gt;
    high_step = saved.high_step;
    low_step = saved.low_step;
    attribute_state = saved.attribute_state;
  }

  unfoldable pub parse_notification_attribute :
      List ℕ → BaseType → ResourceType → Handler F → Option (Bool × Handler F)
  unfolding query_options set_attributes restore
  parse_notification_attribute query type resource_type h = elim (split_at b'&' query) [
    | none ↦ (do
      (success, h') ← set_notification_attribute f query type resource_type h
      some (success && check_attribute_validity f h', h'))
    | some separated ↦ (do
      options ← options_of query
      (success, h') ← set_attributes options type resource_type false h
      some (if success then (check_attribute_validity f h', h') else (false, restore h h')))
  ]
