-- ===== src/Report/Attributes.antt =====
-- `set_notification_attribute` and `check_attribute_validity` of source/m2mreporthandler.cpp. A
-- text is its characters before the NUL. `none` stands for a write or a read behind one of the
-- two arrays of 20 characters on the stack.
use mbed_client.Common.{
  ℕ, Bool, true, false, not, ◌&&◌, ◌||◌, List, [], ◌∷◌, length, ltb, ◌==◌, same_text, Option, none,
  some, ◌>>=◌, if◌then◌else◌,
}
use mbed_client.Common.Int.{negsuc, int_lt}
use mbed_client.Report.{Float, Handler}
use mbed_client.Tlv.{ResourceType, string, integer, float, boolean, opaque, time, objlink}

-- `M2MBase::BaseType`
pub data BaseType : Type 0 where
  object object_instance resource resource_instance object_directory : BaseType

abbrev pub pmin_text : List ℕ
pmin_text = b'p' ∷ b'm' ∷ b'i' ∷ b'n' ∷ []

abbrev pub pmax_text : List ℕ
pmax_text = b'p' ∷ b'm' ∷ b'a' ∷ b'x' ∷ []

abbrev pub gt_text : List ℕ
gt_text = b'g' ∷ b't' ∷ []

abbrev pub lt_text : List ℕ
lt_text = b'l' ∷ b't' ∷ []

abbrev pub st_text : List ℕ
st_text = b's' ∷ b't' ∷ []

abbrev pub stp_text : List ℕ
stp_text = b's' ∷ b't' ∷ b'p' ∷ []

-- The text before the first `c` and the text behind it, if there is one (`strchr`, `strstr`).
unfoldable pub split_at : ℕ → List ℕ → Option (List ℕ × List ℕ)
split_at c [] = none
split_at c (x ∷ xs) =
    let rest = split_at c xs in
    if x == c then some ([], xs) else (do (front, back) ← rest; some (x ∷ front, back))

-- The attribute and the value of an option, in 20 characters each. An attribute before `=` may fill
-- its array: it is compared with shorter texts alone. A value is read up to its NUL.
unfoldable pub read_option : List ℕ → Option (List ℕ × List ℕ)
unfolding split_at
read_option option = elim (split_at b'=' option) [
  | none ↦ if ltb (length option) 20 then some (option, []) else none
  | some (attribute, value) ↦
      if ltb (length attribute) 21 && ltb (length value) 20 then some (attribute, value) else none
]

abbrev pub is_resource_type : BaseType → Bool
is_resource_type resource = true
is_resource_type object = false
is_resource_type object_instance = false
is_resource_type resource_instance = false
is_resource_type object_directory = false

abbrev pub is_numerical : ResourceType → Bool
is_numerical integer = true
is_numerical float = true
is_numerical string = false
is_numerical boolean = false
is_numerical opaque = false
is_numerical time = false
is_numerical objlink = false

module _ (f : Float) where
  open f use {F, add, sub, double, atof, atoi}

  -- The chain of comparisons: whether the attribute is known, and the handler with it set.
  unfoldable pub assign : List ℕ → List ℕ → BaseType → Handler F → Bool × Handler F
  assign attribute value type h =
      let a = h.attribute_state in
      if same_text attribute pmin_text
      then (true, record h { pmin = atoi value; attribute_state = record a { pmin = true } })
      else if same_text attribute pmax_text
      then (true, record h { pmax = atoi value; attribute_state = record a { pmax = true } })
      else if same_text attribute gt_text && is_resource_type type
      then (true, record h { gt = atof value; attribute_state = record a { gt = true } })
      else if same_text attribute lt_text && is_resource_type type
      then (true, record h { lt = atof value; attribute_state = record a { lt = true } })
      else if (same_text attribute st_text || same_text attribute stp_text) && is_resource_type type
      then (
        true,
        record h {
          st = atof value;
          high_step = add h.current_value (atof value);
          low_step = sub h.current_value (atof value);
          attribute_state = record a { st = true };
        },
      )
      else (false, h)

  unfoldable pub set_notification_attribute :
      List ℕ → BaseType → ResourceType → Handler F → Option (Bool × Handler F)
  unfolding assign read_option
  set_notification_attribute option type resource_type h = do
    (attribute, value) ← read_option option
    let (success, h') = assign attribute value type h
    let a = h'.attribute_state
    some (
        if ltb 0 (length value)
        then (success && not (not (is_numerical resource_type) && (a.gt || a.lt || a.st)), h')
        else (false, h))

  unfoldable pub check_attribute_validity : Handler F → Bool
  check_attribute_validity h =
      not (h.attribute_state.pmax && not (int_lt h.pmax (negsuc 0)) && int_lt h.pmax h.pmin)
      && not (h.attribute_state.gt && f.leb h.gt (add h.lt (double h.st)))
