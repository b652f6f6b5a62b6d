-- ===== src/Nsdl/Announced.antt =====
-- What nsdl-c gets of an object, and what the answer says of it.
use mbed_client.Common.{
  ℕ, ◌≡◌, refl, sym, ap, ◌∙◌, Bool, true, false, not, ◌||◌, List, [], ◌∷◌, ◌++◌, ◌==◌,
  if◌then◌else◌,
}
use mbed_client.Common.Int.{ℤ, pos, negsuc, int_eq}
use mbed_client.Objects.{Node, ResourceNode, InstanceNode, ObjectNode}
use mbed_client.Nsdl.Order.{with_below}
use mbed_client.Nsdl.Create.{
  Known, create_nsdl_resource, create_instances, create_nsdl_resource_structure, create_resources,
  create_nsdl_object_instance_structure, create_object_instances, create_nsdl_object_structure,
}

-- The elements of a list in front of another, the last one first.
abbrev pub rev_onto {ℓ} : {A : Type ℓ} → List A → List A → List A
rev_onto [] ys = ys
rev_onto (x ∷ xs) ys = rev_onto xs (x ∷ ys)

rev_onto-append {ℓ} :
    {A : Type ℓ} (xs ys zs : List A) → rev_onto (xs ++ ys) zs ≡ rev_onto ys (rev_onto xs zs)
rev_onto-append [] ys zs = refl
rev_onto-append (x ∷ xs) ys zs = rev_onto-append xs ys (x ∷ zs)

-- An answer of nsdl-c that counts as a success.
abbrev pub is_success : ℤ → Bool
is_success result = int_eq result (pos 0) || int_eq result (negsuc 1)

module _ {F : Type 0} where
  abbrev pub paths_of : List (Node F) → List (List ℕ)
  paths_of [] = []
  paths_of (n ∷ ns) = n.path ∷ paths_of ns

  -- What is to be made known, in its order: below a node first, then the node.
  abbrev pub allowed_path : Node F → List (List ℕ)
  allowed_path n = if not (n.access == 0) then n.path ∷ [] else []

  abbrev pub known_of_resource : ResourceNode F → List (List ℕ)
  known_of_resource r =
      if r.node.multiple_instance
      then elim r.resource_instances [ [] ↦ [] | n ∷ ns ↦ paths_of (n ∷ ns) ++ (r.node.path ∷ []) ]
      else r.node.path ∷ []

  abbrev pub known_of_instance : InstanceNode F → List (List ℕ)
  known_of_instance i = with_below known_of_resource i.resource_list ++ allowed_path i.node

  abbrev pub known_of_object : ObjectNode F → List (List ℕ)
  known_of_object o = with_below known_of_instance o.instance_list ++ allowed_path o.node

module _ {F : Type 0} (put_resource : List (List ℕ) → Node F → ℤ) where
  -- If the object allows any operation, the answer for it is that for its own node alone: it is true
  -- even if nsdl-c refuses everything below the object.
  pub create_nsdl_object_structure-success :
      (o : ObjectNode F) (k : Known)
      → (o.node.access == 0) ≡ false
      → ((ps : List (List ℕ)) → is_success (put_resource ps o.node) ≡ true)
      → (create_nsdl_object_structure put_resource o k).0 ≡ true
  unfolding create_nsdl_object_structure create_nsdl_resource
  create_nsdl_object_structure-success o k allowed accepted =
      rw allowed (accepted (create_object_instances put_resource false o.instance_list k).1.paths)

  module _
      (accepted : (ps : List (List ℕ)) (n : Node F) → is_success (put_resource ps n) ≡ true) where
    create_instances-known :
        (ns : List (Node F)) (k : Known)
        → ((create_instances put_resource ns k).0 ≡ true)
          × ((create_instances put_resource ns k).1.paths ≡ rev_onto (paths_of ns) k.paths)
    unfolding create_instances create_nsdl_resource
    create_instances-known [] k = (refl, refl)
    create_instances-known (n ∷ ns) k =
        rw (accepted k.paths n)
          (create_instances-known ns (create_nsdl_resource put_resource n k).1)

    several_known :
        (several : Bool) (r : Node F) (ns : List (Node F)) (k : Known)
        → (if several
            then elim ns as (λ x. Bool × Known) [
              | [] ↦ (false, k)
              | n ∷ ns' ↦
                  let (success, k') = create_instances put_resource (n ∷ ns') k in
                  if success then create_nsdl_resource put_resource r k' else (false, k')
            ]
            else create_nsdl_resource put_resource r k).1.paths
          ≡ rev_onto
              (if several
                then elim ns as (λ x. List (List ℕ)) [
                  | [] ↦ []
                  | n ∷ ns' ↦ paths_of (n ∷ ns') ++ (r.path ∷ [])
                ]
                else r.path ∷ [])
              k.paths
    unfolding create_nsdl_resource
    several_known true r [] k = refl
    several_known true r (n ∷ ns) k =
        let (done, all) = create_instances-known (n ∷ ns) k in
        rw done
          (ap (◌∷◌ r.path) all ∙ sym (rev_onto-append (paths_of (n ∷ ns)) (r.path ∷ []) k.paths))
    several_known false r ns k = refl

    create_resources-known :
        (rs : List (ResourceNode F)) (success : Bool) (k : Known)
        → (create_resources put_resource success rs k).1.paths
          ≡ rev_onto (with_below known_of_resource rs) k.paths
    unfolding create_resources create_nsdl_resource_structure
    create_resources-known [] success k = refl
    create_resources-known (r ∷ rs) success k =
        let (success', k') = create_nsdl_resource_structure put_resource r k in
        create_resources-known rs success' k'
        ∙ ap (rev_onto (with_below known_of_resource rs))
            (several_known r.node.multiple_instance r.node r.resource_instances k)
        ∙ sym (rev_onto-append (known_of_resource r) (with_below known_of_resource rs) k.paths)

    -- The node itself, after what is below it.
    allowed_known :
        (allowed success : Bool) (n : Node F) (below : List (List ℕ)) (k k' : Known)
        → k'.paths ≡ rev_onto below k.paths
        → (if allowed then create_nsdl_resource put_resource n k' else (success, k')).1.paths
          ≡ rev_onto (below ++ (if allowed then n.path ∷ [] else [])) k.paths
    unfolding create_nsdl_resource
    allowed_known true success n below k k' h =
        ap (◌∷◌ n.path) h ∙ sym (rev_onto-append below (n.path ∷ []) k.paths)
    allowed_known false success n below k k' h = h ∙ sym (rev_onto-append below [] k.paths)

    create_object_instances-known :
        (is : List (InstanceNode F)) (success : Bool) (k : Known)
        → (create_object_instances put_resource success is k).1.paths
          ≡ rev_onto (with_below known_of_instance is) k.paths
    unfolding create_object_instances create_nsdl_object_instance_structure
    create_object_instances-known [] success k = refl
    create_object_instances-known (i ∷ is) success k =
        let (success', k') = create_nsdl_object_instance_structure put_resource i k in
        let (s1, k1) = create_resources put_resource false i.resource_list k in
        create_object_instances-known is success' k'
        ∙ ap (rev_onto (with_below known_of_instance is)) (
            allowed_known (not (i.node.access == 0)) s1 i.node
              (with_below known_of_resource i.resource_list) k k1
              (create_resources-known i.resource_list false k))
        ∙ sym (rev_onto-append (known_of_instance i) (with_below known_of_instance is) k.paths)

    -- Where nsdl-c takes everything, it gets the paths below an object and then the object's, in this
    -- order: of each object instance the resources, each after its own instances, and then the object
    -- instance itself. An object or an object instance that allows no operation is left out, and so
    -- is a resource that supports several instances and has none.
    pub create_nsdl_object_structure-known :
        (o : ObjectNode F) (k : Known)
        → (create_nsdl_object_structure put_resource o k).1.paths
          ≡ rev_onto (known_of_object o) k.paths
    unfolding create_nsdl_object_structure
    create_nsdl_object_structure-known o k =
        let (s1, k1) = create_object_instances put_resource false o.instance_list k in
        allowed_known (not (o.node.access == 0)) s1 o.node
          (with_below known_of_instance o.instance_list) k k1
          (create_object_instances-known o.instance_list false k)
