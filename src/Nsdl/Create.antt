-- ===== src/Nsdl/Create.antt =====
-- What source/m2mnsdlinterface.cpp makes known to nsdl-c: an object with all that is below it. The
-- argument `put_resource` is the answer of `sn_nsdl_put_resource`, by what it got before.
use mbed_client.Common.{ℕ, Bool, true, false, not, ◌||◌, List, [], ◌∷◌, ◌==◌, if◌then◌else◌}
use mbed_client.Common.Int.{ℤ, pos, negsuc, int_eq}
use mbed_client.Objects.{Node, ResourceNode, InstanceNode, ObjectNode}

-- Whether the object has an observation handler, and the paths that nsdl-c got, the latest first.
pub record Known : Type 0 where
  pub observation_handler : Bool
  pub paths : List (List ℕ)

module _ {F : Type 0} (put_resource : List (List ℕ) → Node F → ℤ) where
  -- A resource that exists already is a success too. A node sets the handler of its object.
  unfoldable pub create_nsdl_resource : Node F → Known → Bool × Known
  create_nsdl_resource n k =
      let result = put_resource k.paths n in
      (
        int_eq result (pos 0) || int_eq result (negsuc 1),
        record { observation_handler = true; paths = n.path ∷ k.paths },
      )

  -- The loop over the instances of a resource ends at the first failure.
  unfoldable pub create_instances : List (Node F) → Known → Bool × Known
  unfolding create_nsdl_resource
  create_instances [] k = (true, k)
  create_instances (n ∷ ns) k =
      let (success, k') = create_nsdl_resource n k in
      let rest = create_instances ns k' in if success then rest else (false, k')

  -- A resource that supports several instances and has none is left out.
  unfoldable pub create_nsdl_resource_structure : ResourceNode F → Known → Bool × Known
  unfolding create_instances create_nsdl_resource
  create_nsdl_resource_structure r k =
      if r.node.multiple_instance
      then elim r.resource_instances [
        | [] ↦ (false, k)
        | n ∷ ns ↦
            let (success, k') = create_instances (n ∷ ns) k in
            if success then create_nsdl_resource r.node k' else (false, k')
      ]
      else create_nsdl_resource r.node k

  -- The loop over the resources: its answer is that of the last one.
  unfoldable pub create_resources : Bool → List (ResourceNode F) → Known → Bool × Known
  unfolding create_nsdl_resource_structure
  create_resources success [] k = (success, k)
  create_resources success (r ∷ rs) k =
      let (success', k') = create_nsdl_resource_structure r k in create_resources success' rs k'

  unfoldable pub create_nsdl_object_instance_structure : InstanceNode F → Known → Bool × Known
  unfolding create_resources create_nsdl_resource
  create_nsdl_object_instance_structure i k =
      let (success, k') = create_resources false i.resource_list k in
      if not (i.node.access == 0) then create_nsdl_resource i.node k' else (success, k')

  unfoldable pub create_object_instances : Bool → List (InstanceNode F) → Known → Bool × Known
  unfolding create_nsdl_object_instance_structure
  create_object_instances success [] k = (success, k)
  create_object_instances success (i ∷ is) k =
      let (success', k') = create_nsdl_object_instance_structure i k in
      create_object_instances success' is k'

  unfoldable pub create_nsdl_object_structure : ObjectNode F → Known → Bool × Known
  unfolding create_object_instances create_nsdl_resource
  create_nsdl_object_structure o k =
      let (success, k') = create_object_instances false o.instance_list k in
      if not (o.node.access == 0) then create_nsdl_resource o.node k' else (success, k')
