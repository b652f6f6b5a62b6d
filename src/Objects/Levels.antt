-- ===== src/Objects/Levels.antt =====
-- Observation levels of a whole subtree, and the query of a resource: `add_observation_level`,
-- `remove_observation_level` and `handle_observation_attribute` as source/m2mobject.cpp,
-- source/m2mobjectinstance.cpp and source/m2mresource.cpp override them.
use mbed_client.Common.{
  ℕ, Bool, true, ◌&&◌, List, [], ◌∷◌, ◌++◌, map, Option, some, ◌>>=◌, if◌then◌else◌,
}
use mbed_client.Report
use mbed_client.Report.{Float, Handler}
use mbed_client.Objects.{Node, ResourceNode, InstanceNode, ObjectNode}
use mbed_client.Objects.Base.{
  add_observation_level, remove_observation_level, handle_observation_attribute,
  is_under_observation,
}
use mbed_client.Objects.Line.{Message, drive}

module _ {F : Type 0} (change : Node F → Node F) where
  -- A change of every node below a resource, an object instance or an object, itself included.
  unfoldable pub all_of_resource : ResourceNode F → ResourceNode F
  all_of_resource r = record r {
    node = change r.node;
    resource_instances = map change r.resource_instances;
  }

  unfoldable pub all_of_instance : InstanceNode F → InstanceNode F
  unfolding all_of_resource
  all_of_instance i = record i {
    node = change i.node;
    resource_list = map all_of_resource i.resource_list;
  }

  unfoldable pub all_of_object : ObjectNode F → ObjectNode F
  unfolding all_of_instance
  all_of_object o = record o {
    node = change o.node;
    instance_list = map all_of_instance o.instance_list;
  }

module _ (f : Float) where
  open f use {F}

  unfoldable pub resource_add_level : ℕ → ResourceNode F → ResourceNode F
  unfolding all_of_resource add_observation_level
  resource_add_level level = all_of_resource (add_observation_level f level)

  unfoldable pub resource_remove_level : ℕ → ResourceNode F → ResourceNode F
  unfolding all_of_resource remove_observation_level
  resource_remove_level level = all_of_resource (remove_observation_level f level)

  unfoldable pub instance_add_level : ℕ → InstanceNode F → InstanceNode F
  unfolding all_of_instance add_observation_level
  instance_add_level level = all_of_instance (add_observation_level f level)

  unfoldable pub instance_remove_level : ℕ → InstanceNode F → InstanceNode F
  unfolding all_of_instance remove_observation_level
  instance_remove_level level = all_of_instance (remove_observation_level f level)

  unfoldable pub object_add_level : ℕ → ObjectNode F → ObjectNode F
  unfolding all_of_object add_observation_level
  object_add_level level = all_of_object (add_observation_level f level)

  unfoldable pub object_remove_level : ℕ → ObjectNode F → ObjectNode F
  unfolding all_of_object remove_observation_level
  object_remove_level level = all_of_object (remove_observation_level f level)

  -- The instances of a resource are told that its attributes changed; what they send comes back.
  unfoldable pub trigger_instances : Bool → List (Node F) → List Message × List (Node F)
  unfolding drive
  trigger_instances has_handler [] = ([], [])
  trigger_instances has_handler (n ∷ ns) =
      let (sent, n') = drive has_handler (Report.set_notification_trigger f 0) n in
      let (more, ns') = trigger_instances has_handler ns in (more ++ sent, n' ∷ ns')

  -- `M2MResource::handle_observation_attribute`, for an object that has an observation handler or
  -- not.
  unfoldable pub resource_observation_attribute :
      Bool → List ℕ → ResourceNode F → Option (Bool × List Message × ResourceNode F)
  unfolding handle_observation_attribute trigger_instances is_under_observation
  resource_observation_attribute has_handler query r = do
    (success, n) ← handle_observation_attribute f r.node.data_type query r.node
    let r' : ResourceNode F = record r { node = n }
    some (
        if success && is_under_observation f n
        then (let (sent, ns) = trigger_instances has_handler r.resource_instances in
            (true, sent, record r' { resource_instances = ns }))
        else (success, [], r'))
