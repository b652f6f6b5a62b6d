-- ===== src/Objects/Make.antt =====
-- Making the parts of an object: source/m2mobject.cpp, source/m2mobjectinstance.cpp,
-- source/m2mresource.cpp, source/m2mresourceinstance.cpp. The allocation of an object succeeds;
-- that of a path is asked of `malloc`.
use mbed_client.Common.{
  ℕ, Bool, true, false, not, ◌&&◌, ◌||◌, List, [], ◌∷◌, ◌++◌, length, ltb, Option, none, some,
  if◌then◌else◌,
}
use mbed_client.Buffer.Paths.{
  create_resource_path, create_resource_instance_path, create_object_instance_path,
}
use mbed_client.Report.{Float}
use mbed_client.Report.Attributes.{object_instance, resource, resource_instance}
use mbed_client.Tlv.{ResourceType, objlink, get_allowed}
use mbed_client.Objects.{static, dynamic, Node, ResourceNode, InstanceNode, ObjectNode}
use mbed_client.Objects.Base.{
  base, text_of, validate_length, set_operation, set_observable, set_register_uri,
  set_coap_content_type, set_instance_id, add_observation_level, observation_level,
}
use mbed_client.Objects.Line.{id_of}
use mbed_client.Objects.Tree.{
  is_there, find_object_instance, find_resource_node, find_resource_instance, change_resource,
  add_resource_instance,
}

abbrev pub content_tlv : ℕ
content_tlv = 99

-- `MAX_ALLOWED_STRING_LENGTH`
abbrev pub max_string_length : ℕ
max_string_length = 64

-- What the constructor of `M2MResourceBase` makes of a value.
abbrev given : Option (List ℕ) → Option (List ℕ)
given value = if ltb 0 (length (text_of value)) then value else none

module _ {F : Type 0} where
  -- The constructors of `M2MResource`, static with a value and dynamic.
  abbrev pub resource_of : Node F → ResourceNode F
  resource_of n = record {
    node = n;
    resource_instances = [];
    block_message = none;
    delayed_response = false;
    delayed_token = none;
  }

  unfoldable pub new_static_resource :
      List ℕ → ResourceType → Option (List ℕ) → List ℕ → Bool → ResourceNode F
  unfolding base set_operation set_observable set_coap_content_type
  new_static_resource name type value path multiple_instance =
      let n : Node F = record (base name static path multiple_instance type resource) {
        resource = given value;
      } in
      let n1 = set_observable false (set_operation get_allowed n) in
      resource_of (if multiple_instance then set_coap_content_type content_tlv n1 else n1)

  unfoldable pub new_dynamic_resource :
      List ℕ → ResourceType → Bool → List ℕ → Bool → ResourceNode F
  unfolding base set_operation set_observable set_coap_content_type
  new_dynamic_resource name type observable path multiple_instance =
      let n = base name dynamic path multiple_instance type resource in
      let n1 = set_observable observable (set_operation 3 n) in
      resource_of (if multiple_instance then set_coap_content_type content_tlv n1 else n1)

module _ (f : Float) (malloc : ℕ → Bool) (object_name : List ℕ) where
  open f use {F}

  -- `create_path(*this, resource_name)` of an object instance.
  abbrev path_of : InstanceNode F → List ℕ → Option (List ℕ)
  path_of i resource_name = create_resource_path malloc object_name (id_of i.node) resource_name

  -- Where a resource is made: its name has 1 to 64 characters, there is none of that name, and its
  -- path is made.
  abbrev pub make_resource :
      (List ℕ → ResourceNode F) → List ℕ → InstanceNode F → Bool × InstanceNode F
  make_resource make resource_name i =
      if not (validate_length resource_name 1 max_string_length)
        || is_there (find_resource_node resource_name i)
      then (false, i)
      else elim (path_of i resource_name) [
        | none ↦ (false, i)
        | some path ↦
            let r = make path in
            let level = observation_level f i.node in
            let r' = record r { node = add_observation_level f level r.node } in
            (true, record i { resource_list = i.resource_list ++ (r' ∷ []) })
      ]

  unfoldable pub create_static_resource :
      List ℕ → ResourceType → Option (List ℕ) → Bool → InstanceNode F → Bool × InstanceNode F
  unfolding find_resource_node validate_length is_there new_static_resource add_observation_level
      observation_level
  create_static_resource resource_name type value multiple_instance i =
      make_resource (λ path. new_static_resource resource_name type value path multiple_instance)
        resource_name i

  unfoldable pub make_dynamic_resource :
      List ℕ → ResourceType → Bool → Bool → InstanceNode F → Bool × InstanceNode F
  unfolding find_resource_node validate_length is_there new_dynamic_resource add_observation_level
      observation_level
  make_dynamic_resource resource_name type observable multiple_instance i =
      make_resource
        (λ path. new_dynamic_resource resource_name type observable path multiple_instance)
        resource_name i

  -- `M2MResourceInstance` of a resource; it has a number and no name.
  unfoldable pub new_static_instance : ResourceType → Option (List ℕ) → List ℕ → ℕ → Node F
  unfolding base set_operation set_instance_id
  new_static_instance type value path instance_id = set_instance_id instance_id (
      set_operation get_allowed
        (record (base [] static path true type resource_instance) { resource = given value }))

  unfoldable pub new_dynamic_instance : ResourceType → Bool → List ℕ → ℕ → Node F
  unfolding base set_operation set_observable set_instance_id
  new_dynamic_instance type observable path instance_id = set_instance_id instance_id (
      set_observable observable
        (set_operation get_allowed (base [] dynamic path true type resource_instance)))

  -- The resource whose instance is made, if it has no such instance; `make` of its path.
  abbrev pub make_instance :
      (List ℕ → ResourceNode F)
      → (List ℕ → Node F)
      → List ℕ
      → ℕ
      → InstanceNode F
      → Bool × InstanceNode F
  make_instance make make_leaf resource_name instance_id i =
      if not (validate_length resource_name 1 max_string_length)
      then (false, i)
      else (let i1 : InstanceNode F =
            if is_there (find_resource_node resource_name i)
            then i
            else elim (path_of i resource_name) [
              | none ↦ i
              | some path ↦ record i { resource_list = i.resource_list ++ (make path ∷ []) }
            ] in
          elim (find_resource_node resource_name i1) [
            | none ↦ (false, i1)
            | some r ↦
                if r.node.multiple_instance && not (is_there (find_resource_instance instance_id r))
                then elim (create_resource_instance_path malloc object_name (id_of i.node)
                    resource_name instance_id) [
                      | none ↦ (false, i1)
                      | some path ↦ (
                        true,
                        record i1 {
                          resource_list =
                              change_resource resource_name (add_resource_instance (make_leaf path))
                                i1.resource_list;
                        },
                      )
                    ]
                else (false, i1)
          ])

  unfoldable pub create_static_resource_instance :
      List ℕ → ResourceType → Option (List ℕ) → ℕ → InstanceNode F → Bool × InstanceNode F
  unfolding find_resource_node find_resource_instance validate_length is_there new_static_resource
      new_static_instance change_resource add_resource_instance set_register_uri
  create_static_resource_instance resource_name type value instance_id i =
      make_instance
        (λ path.
          let r = new_static_resource resource_name type value path true in
          record r {
            node = set_register_uri false (set_observable false (set_operation get_allowed r.node));
          })
        (λ path. new_static_instance type value path instance_id) resource_name instance_id i

  unfoldable pub make_dynamic_instance :
      List ℕ → ResourceType → Bool → ℕ → InstanceNode F → Bool × InstanceNode F
  unfolding find_resource_node find_resource_instance validate_length is_there new_dynamic_resource
      new_dynamic_instance change_resource add_resource_instance set_register_uri
  make_dynamic_instance resource_name type observable instance_id i =
      make_instance
        (λ path.
          let r = new_dynamic_resource resource_name type false path true in
          record r { node = set_operation get_allowed (set_register_uri false r.node) })
        (λ path. new_dynamic_instance type observable path instance_id) resource_name instance_id i

  -- `M2MObjectInstance`, made by `M2MObject::create_object_instance`.
  unfoldable pub new_object_instance : Node F → ℕ → List ℕ → InstanceNode F
  unfolding base set_coap_content_type set_instance_id add_observation_level observation_level
  new_object_instance parent instance_id path = record {
    node = set_instance_id instance_id (
        add_observation_level f (observation_level f parent)
          (set_coap_content_type content_tlv (base [] dynamic path false objlink object_instance)));
    resource_list = [];
  }

  -- `M2MObject::create_object_instance`; the content type is that of TLV by the constructor already.
  unfoldable pub create_object_instance : ℕ → ObjectNode F → Option (InstanceNode F) × ObjectNode F
  unfolding find_object_instance is_there new_object_instance create_object_instance_path
  create_object_instance instance_id o =
      if is_there (find_object_instance instance_id o)
      then (none, o)
      else elim (create_object_instance_path malloc object_name instance_id) [
        | none ↦ (none, o)
        | some path ↦
            let i = new_object_instance o.node instance_id path in
            (some i, record o { instance_list = o.instance_list ++ (i ∷ []) })
      ]
