-- ===== src/Objects/Tree.antt =====
-- Looking up, counting and removing the parts of an object: source/m2mobject.cpp,
-- source/m2mobjectinstance.cpp, source/m2mresource.cpp.
use mbed_client.Common.{
  ℕ, ◌+◌, ◌%◌, Bool, true, false, List, [], ◌∷◌, ◌++◌, length, ◌==◌, Option, none, some,
  if◌then◌else◌,
}
use mbed_client.Objects.{Node, ResourceNode, InstanceNode, ObjectNode}
use mbed_client.Objects.Base.{has_name, has_number}

-- The first element that a test accepts, and the list without it.
unfoldable pub first {ℓ} : {A : Type ℓ} → (A → Bool) → List A → Option A
first test [] = none
first test (x ∷ xs) = let rest = first test xs in if test x then some x else rest

unfoldable pub without {ℓ} : {A : Type ℓ} → (A → Bool) → List A → Bool × List A
without test [] = (false, [])
without test (x ∷ xs) =
    let (found, rest) = without test xs in if test x then (true, xs) else (found, x ∷ rest)

unfoldable pub is_there {ℓ} : {A : Type ℓ} → Option A → Bool
is_there none = false
is_there (some a) = true

module _ {F : Type 0} where
  -- `M2MObject::object_instance` and `remove_object_instance`
  unfoldable pub find_object_instance : ℕ → ObjectNode F → Option (InstanceNode F)
  unfolding first has_number
  find_object_instance inst_id o = first (λ i. has_number inst_id i.node) o.instance_list

  unfoldable pub remove_object_instance : ℕ → ObjectNode F → Bool × ObjectNode F
  unfolding without has_number
  remove_object_instance inst_id o =
      let (found, rest) = without (λ i. has_number inst_id i.node) o.instance_list in
      (found, record o { instance_list = rest })

  unfoldable pub instance_count : ObjectNode F → ℕ
  instance_count o = length o.instance_list % 65536

  -- `M2MObjectInstance::resource` and `remove_resource`
  unfoldable pub find_resource_node : List ℕ → InstanceNode F → Option (ResourceNode F)
  unfolding first has_name
  find_resource_node resource_name i = first (λ r. has_name resource_name r.node) i.resource_list

  unfoldable pub remove_resource : List ℕ → InstanceNode F → Bool × InstanceNode F
  unfolding without has_name
  remove_resource resource_name i =
      let (found, rest) = without (λ r. has_name resource_name r.node) i.resource_list in
      (found, record i { resource_list = rest })

  -- `M2MResource::resource_instance`, `remove_resource_instance` and `resource_instance_count`
  unfoldable pub find_resource_instance : ℕ → ResourceNode F → Option (Node F)
  unfolding first has_number
  find_resource_instance inst_id r = first (has_number inst_id) r.resource_instances

  unfoldable pub drop_resource_instance : ℕ → ResourceNode F → Bool × ResourceNode F
  unfolding without has_number
  drop_resource_instance inst_id r =
      let (found, rest) = without (has_number inst_id) r.resource_instances in
      (found, record r { resource_instances = rest })

  unfoldable pub resource_instance_count : ResourceNode F → ℕ
  resource_instance_count r = length r.resource_instances % 65536

  -- `M2MResource::add_resource_instance`
  unfoldable pub add_resource_instance : Node F → ResourceNode F → ResourceNode F
  add_resource_instance n r = record r { resource_instances = r.resource_instances ++ (n ∷ []) }

  -- A change of the first resource of a name.
  unfoldable pub change_resource :
      List ℕ → (ResourceNode F → ResourceNode F) → List (ResourceNode F) → List (ResourceNode F)
  unfolding has_name
  change_resource resource_name change [] = []
  change_resource resource_name change (r ∷ rs) =
      let rest = change_resource resource_name change rs in
      if has_name resource_name r.node then change r ∷ rs else r ∷ rest

  -- `M2MObjectInstance::remove_resource_instance`: a resource that lost its last instance goes too.
  unfoldable pub remove_resource_instance : List ℕ → ℕ → InstanceNode F → Bool × InstanceNode F
  unfolding find_resource_node find_resource_instance drop_resource_instance resource_instance_count
      change_resource remove_resource is_there
  remove_resource_instance resource_name inst_id i = elim (find_resource_node resource_name i) [
    | none ↦ (false, i)
    | some r ↦
        if is_there (find_resource_instance inst_id r)
        then (let (success, r') = drop_resource_instance inst_id r in
            let i' = record i {
              resource_list = change_resource resource_name (λ x. r') i.resource_list;
            } in
            (
              success,
              if resource_instance_count r' == 0 then (remove_resource resource_name i').1 else i',
            ))
        else (false, i)
  ]

  -- `M2MObjectInstance::resource_count`, of all resources and of those of a name.
  unfoldable pub count_of : ResourceNode F → ℕ
  unfolding resource_instance_count
  count_of r = if r.node.multiple_instance then resource_instance_count r else 1

  unfoldable pub count_resources : ℕ → List (ResourceNode F) → ℕ
  unfolding count_of
  count_resources count [] = count
  count_resources count (r ∷ rs) = count_resources ((count + count_of r) % 65536) rs

  unfoldable pub resource_count : InstanceNode F → ℕ
  unfolding count_resources
  resource_count i = count_resources 0 i.resource_list

  unfoldable pub count_named : List ℕ → ℕ → List (ResourceNode F) → ℕ
  unfolding count_of has_name
  count_named resource_name count [] = count
  count_named resource_name count (r ∷ rs) =
      count_named resource_name
        (if has_name resource_name r.node then (count + count_of r) % 65536 else count) rs
