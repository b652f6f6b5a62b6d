-- ===== src/Objects/Line.antt =====
-- A value below an object, and what a change of it reports: `M2MResourceBase` of
-- source/m2mresourcebase.cpp, `notification_update` of source/m2mobject.cpp and
-- source/m2mobjectinstance.cpp, `observation_to_be_sent` of source/m2mbase.cpp. `malloc` is a
-- parameter, and so are the operations on `float`.
use mbed_client.Common.{
  ℕ, ◌+◌, bit_and, bit_or, Bool, true, false, not, ◌&&◌, ◌||◌, List, [], ◌∷◌, ◌++◌, length, ltb,
  ◌==◌, Option, none, some, if◌then◌else◌,
}
use mbed_client.Report
use mbed_client.Report.{Float, Handler, Call, start_pmin, stop_pmin, start_pmax, stop_pmax, send}
use mbed_client.Report.Attributes.{BaseType}
use mbed_client.Tlv.{ResourceType, string, integer, float, boolean, opaque, time, objlink}
use mbed_client.Objects.{Node, by_name, by_id}
use mbed_client.Objects.Base.{
  is_static, is_dynamic, is_leaf_type, r_attribute, oi_attribute, o_attribute, is_value_changed,
  observation_level, is_under_observation, text_of, set_under_observation,
}

-- What reaches the observation handler of the object.
pub data Message : Type 0 where
  observation_to_be_sent : BaseType → ℕ → List ℕ → Bool → Message
  value_updated : BaseType → Message

-- An object, one of its instances, one of its resources, and an instance of the resource if the
-- value is one's; whether the object has an observation handler; its messages, the latest first.
pub record Line (F : Type 0) : Type 0 where
  pub object : Node F
  pub object_instance : Node F
  pub resource : Node F
  pub leaf : Option (Node F)
  pub observation_handler : Bool
  pub messages : List Message

-- The number of an object instance.
abbrev pub id_of : {F : Type 0} → Node F → ℕ
id_of n = elim n.identifier [ by_name s ↦ 0 | by_id id ↦ id ]

abbrev pub is_string : ResourceType → Bool
is_string string = true
is_string integer = false
is_string float = false
is_string boolean = false
is_string opaque = false
is_string time = false
is_string objlink = false

-- The messages of a report handler's calls.
unfoldable pub messages_of : BaseType → List Call → List Message
messages_of type [] = []
messages_of type (send ids number again ∷ calls) =
    observation_to_be_sent type number ids again ∷ messages_of type calls
messages_of type (start_pmin n ∷ calls) = messages_of type calls
messages_of type (stop_pmin ∷ calls) = messages_of type calls
messages_of type (start_pmax n ∷ calls) = messages_of type calls
messages_of type (stop_pmax ∷ calls) = messages_of type calls

module _ {F : Type 0} where
  abbrev pub self : Line F → Node F
  self l = elim l.leaf [ none ↦ l.resource | some n ↦ n ]

  abbrev pub with_self : Node F → Line F → Line F
  with_self n l = elim l.leaf [
    | none ↦ record l { resource = n }
    | some m ↦ record l { leaf = some n }
  ]

  -- A call of a node's report handler: what it sends goes to the observation handler, if that is
  -- set, and is lost elsewhere.
  unfoldable pub drive : Bool → (Handler F → Handler F) → Node F → List Message × Node F
  unfolding messages_of
  drive has_handler op n = elim n.report_handler [
    | none ↦ ([], n)
    | some h ↦
        let h' = op (record h { calls = [] }) in
        (
          if has_handler then messages_of n.base_type h'.calls else [],
          record n { report_handler = some (record h' { calls = h'.calls ++ h.calls }) },
        )
  ]

  unfoldable pub drive_object : (Handler F → Handler F) → Line F → Line F
  unfolding drive
  drive_object op l =
      let (sent, n) = drive l.observation_handler op l.object in
      record l { object = n; messages = sent ++ l.messages }

  unfoldable pub drive_object_instance : (Handler F → Handler F) → Line F → Line F
  unfolding drive
  drive_object_instance op l =
      let (sent, n) = drive l.observation_handler op l.object_instance in
      record l { object_instance = n; messages = sent ++ l.messages }

  unfoldable pub drive_resource : (Handler F → Handler F) → Line F → Line F
  unfolding drive
  drive_resource op l =
      let (sent, n) = drive l.observation_handler op l.resource in
      record l { resource = n; messages = sent ++ l.messages }

  unfoldable pub drive_self : (Handler F → Handler F) → Line F → Line F
  unfolding drive
  drive_self op l =
      let (sent, n) = drive l.observation_handler op (self l) in
      with_self n (record l { messages = sent ++ l.messages })

module _ (f : Float) where
  open f use {F, atof, null}

  -- `M2MObject::notification_update`
  unfoldable pub object_update : Line F → Line F
  unfolding drive_object
  object_update l =
      if is_under_observation f l.object
      then drive_object (Report.set_notification_trigger f (id_of l.object_instance)) l
      else l

  -- `M2MObjectInstance::notification_update`
  unfoldable pub notification_update : ℕ → Line F → Line F
  unfolding object_update drive_object_instance
  notification_update level l =
      let l1 = if bit_and o_attribute level == o_attribute then object_update l else l in
      if bit_and oi_attribute level == oi_attribute && is_under_observation f l1.object_instance
      then drive_object_instance (Report.set_notification_trigger f 0) l1
      else l1

  -- The levels of the line, combined.
  unfoldable pub combined_level : Line F → ℕ
  unfolding observation_level
  combined_level l =
      bit_or
        (bit_or (bit_or (observation_level f l.object_instance) (observation_level f l.object))
          (observation_level f l.resource))
        (observation_level f (self l))

  -- The second half of `report`, for a dynamic resource whose level has the resource's bit.
  unfoldable pub report_resource : Line F → Line F
  unfolding drive_self drive_resource
  report_resource l =
      let n = self l in
      if not (is_string n.data_type) && not (observation_level f n == 0)
      then if n.observable
        then drive_self (Report.set_value f (elim n.resource [ none ↦ null | some v ↦ atof v ])) l
        else l
      else if is_leaf_type n.base_type && l.resource.observable
      then drive_resource (Report.set_notification_trigger f (id_of l.object_instance)) l
      else l

  unfoldable pub report : Line F → Line F
  unfolding combined_level notification_update report_resource
  report l =
      let level = combined_level l in
      let l1 =
        if bit_and o_attribute level == o_attribute || bit_and oi_attribute level == oi_attribute
        then notification_update level l
        else l in
      if is_dynamic (self l).mode && bit_and r_attribute level == r_attribute
      then report_resource l1
      else if is_static (self l).mode && l1.observation_handler
      then record l1 { messages = value_updated (self l).base_type ∷ l1.messages }
      else l1

  unfoldable pub clear_value : Line F → Line F
  unfolding report
  clear_value l = report (with_self (record (self l) { resource = none }) l)

  -- What follows in `set_value` on a value that was copied.
  unfoldable pub report_change : Line F → Line F
  unfolding report drive_self
  report_change l =
      if is_string (self l).data_type
      then if is_under_observation f (self l)
        then drive_self (Report.set_notification_trigger f 0) l
        else l
      else report l

  -- `set_value(value, value_length)`; a copy that fails leaves NULL behind, and the answer is true.
  unfoldable pub set_value : (ℕ → Bool) → Option (List ℕ) → Line F → Bool × Line F
  unfolding is_value_changed report_change
  set_value malloc value l =
      let changed = is_value_changed value (self l) in
      if not (ltb 0 (length (text_of value)))
      then (false, l)
      else if not (malloc (length (text_of value) + 1))
      then (true, with_self (record (self l) { resource = none }) l)
      else (
        true,
        let l' = with_self (record (self l) { resource = value }) l in
            if changed then report_change l' else l',
      )

  -- `set_under_observation(observed, handler)` on the node at the end of the line: the observation
  -- handler that it sets is that of the object.
  unfoldable pub observe_self : Bool → Bool → Line F → Line F
  unfolding set_under_observation
  observe_self observed has_handler l =
      with_self (set_under_observation f observed has_handler (self l))
        (record l { observation_handler = has_handler })
