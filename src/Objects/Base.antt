-- ===== src/Objects/Base.antt =====
-- `M2MBase` of source/m2mbase.cpp on one node. Where the code asserts that a node has a name or a
-- number, the other kind has none.
use mbed_client.Common.{
  ℕ, ◌+◌, Bool, true, false, not, ◌&&◌, List, [], length, same_text, leb, ltb, ◌==◌, Option, none,
  some, ◌>>=◌, if◌then◌else◌,
}
use mbed_client.Report
use mbed_client.Report.{Float, Handler, handler}
use mbed_client.Report.Attributes.{
  BaseType, object, object_instance, resource, resource_instance, object_directory,
}
use mbed_client.Report.Parse.{parse_notification_attribute}
use mbed_client.Tlv.{ResourceType, get_allowed}
use mbed_client.Objects.{Mode, static, dynamic, directory, by_name, by_id, Node}

abbrev pub is_static : Mode → Bool
is_static static = true
is_static dynamic = false
is_static directory = false

abbrev pub is_dynamic : Mode → Bool
is_dynamic static = false
is_dynamic dynamic = true
is_dynamic directory = false

abbrev pub is_leaf_type : BaseType → Bool
is_leaf_type resource_instance = true
is_leaf_type object = false
is_leaf_type object_instance = false
is_leaf_type resource = false
is_leaf_type object_directory = false

-- The bits of `M2MBase::Observation`
abbrev pub r_attribute : ℕ
r_attribute = 0x01

abbrev pub oi_attribute : ℕ
oi_attribute = 0x02

abbrev pub o_attribute : ℕ
o_attribute = 0x04

unfoldable pub set_instance_id : {F : Type 0} → ℕ → Node F → Node F
set_instance_id id n = record n { identifier = by_id id }

unfoldable pub has_name : {F : Type 0} → List ℕ → Node F → Bool
has_name s n = elim n.identifier [ by_name t ↦ same_text t s | by_id id ↦ false ]

unfoldable pub has_number : {F : Type 0} → ℕ → Node F → Bool
has_number i n = elim n.identifier [ by_name t ↦ false | by_id id ↦ id == i ]

-- `validate_string_length(string, min_length, max_length)`
unfoldable pub validate_length : List ℕ → ℕ → ℕ → Bool
validate_length s min_length max_length = leb min_length (length s) && leb (length s) max_length

-- A static node only ever allows GET.
unfoldable pub set_operation : {F : Type 0} → ℕ → Node F → Node F
set_operation opr n = record n { access = if is_static n.mode then get_allowed else opr }

unfoldable pub set_coap_content_type : {F : Type 0} → ℕ → Node F → Node F
set_coap_content_type type n = record n { coap_content_type = type }

unfoldable pub set_observable : {F : Type 0} → Bool → Node F → Node F
set_observable observable n = record n { observable = observable }

unfoldable pub set_register_uri : {F : Type 0} → Bool → Node F → Node F
set_register_uri register_uri n = record n { publish_uri = register_uri }

unfoldable pub set_max_age : {F : Type 0} → ℕ → Node F → Node F
set_max_age max_age n = record n { max_age = max_age }

-- `M2MBase(resource_name, mode, resource_type, path, …)`; the number of a node without name is 0.
unfoldable pub base :
    {F : Type 0} → List ℕ → Mode → List ℕ → Bool → ResourceType → BaseType → Node F
base resource_name mode path multiple_instance type base_type = record {
  identifier = if ltb 0 (length resource_name) then by_name resource_name else by_id 0;
  base_type = base_type;
  data_type = type;
  multiple_instance = multiple_instance;
  max_age = 0;
  path = path;
  mode = mode;
  access = 0;
  coap_content_type = 0;
  observable = false;
  publish_uri = true;
  resource = none;
  report_handler = none;
}

abbrev pub text_of : Option (List ℕ) → List ℕ
text_of none = []
text_of (some s) = s

-- `is_value_changed`, where NULL has length 0.
unfoldable pub is_value_changed : {F : Type 0} → Option (List ℕ) → Node F → Bool
is_value_changed value n =
    if not (length (text_of value) == length (text_of n.resource)) then true else elim value [
      | none ↦ elim n.resource [ none ↦ false | some old ↦ true ]
      | some v ↦ elim n.resource [ none ↦ true | some old ↦ not (same_text v old) ]
    ]

-- `get_value`: a copy of the value, and NULL if there is none or the copy fails.
unfoldable pub get_value : {F : Type 0} → (ℕ → Bool) → Node F → Option (List ℕ)
get_value malloc n = elim n.resource [
  | none ↦ none
  | some v ↦ if ltb 0 (length v) && malloc (length v + 1) then some v else none
]

module _ (f : Float) where
  open f use {F}

  -- A call of the report handler, if there is one.
  abbrev pub with_handler : (Handler F → Handler F) → Node F → Node F
  with_handler op n = record n {
    report_handler = elim n.report_handler [ none ↦ none | some h ↦ some (op h) ];
  }

  unfoldable pub observation_level : Node F → ℕ
  observation_level n = elim n.report_handler [ none ↦ 0 | some h ↦ h.observation_level ]

  unfoldable pub observation_number : Node F → ℕ
  observation_number n = elim n.report_handler [ none ↦ 0 | some h ↦ h.observation_number ]

  unfoldable pub is_under_observation : Node F → Bool
  is_under_observation n = elim n.report_handler [ none ↦ false | some h ↦ h.is_under_observation ]

  unfoldable pub add_observation_level : ℕ → Node F → Node F
  add_observation_level level n = with_handler (Report.add_observation_level f level) n

  unfoldable pub remove_observation_level : ℕ → Node F → Node F
  remove_observation_level level n = with_handler (Report.remove_observation_level f level) n

  unfoldable pub set_observation_token : (ℕ → Bool) → List ℕ → Node F → Node F
  set_observation_token malloc token n =
      with_handler (Report.set_observation_token f malloc token (length token)) n

  unfoldable pub create_report_handler : Node F → Node F
  create_report_handler n = elim n.report_handler [
    | none ↦ record n { report_handler = some (handler f) }
    | some h ↦ n
  ]

  -- `set_under_observation(observed, handler)` but for `set_observation_handler`.
  unfoldable pub set_under_observation : Bool → Bool → Node F → Node F
  unfolding create_report_handler
  set_under_observation observed has_handler n =
      let n1 = with_handler (Report.set_under_observation f observed) n in
      if has_handler
      then if not (is_leaf_type n.base_type)
        then with_handler (Report.set_under_observation f observed)
            (if observed then create_report_handler n1 else n1)
        else n1
      else record n1 { report_handler = none }

  -- `handle_observation_attribute`; a query that overruns an array has no result. `type` is what
  -- the parser is told of the resource, for `M2MBase` the default.
  unfoldable pub handle_observation_attribute :
      ResourceType → List ℕ → Node F → Option (Bool × Node F)
  unfolding create_report_handler
  handle_observation_attribute type query n =
      let h : Handler F = elim n.report_handler [ none ↦ handler f | some h ↦ h ] in
      do
        (success, h') ← parse_notification_attribute f query n.base_type type h
        some (
          success,
          record n {
            report_handler = some (
                if success
                then (if h'.is_under_observation
                    then Report.set_under_observation f true h'
                    else h')
                else Report.set_default_values f h');
          },
        )
