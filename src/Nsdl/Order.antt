-- ===== src/Nsdl/Order.antt =====
-- What the search finds, by the order of the nodes.
use mbed_client.Common.{
  ℕ, ◌<◌, ◌≡◌, refl, sym, ap, ◌∙◌, Bool, true, false, List, [], ◌∷◌, ◌++◌, length, ◌==◌, Option,
  none, some, if◌then◌else◌, arith, Bool-cases, inl, inr,
}
use mbed_client.Objects.{Node, ResourceNode, InstanceNode, ObjectNode}
use mbed_client.Objects.Tree.{first}
use mbed_client.Nsdl.Find.{
  has_token, has_path, find_in_resource, find_in_resources, find_in_instances, find_in_objects,
}

-- The elements of a list, each with what is below it.
abbrev pub with_below {ℓ κ} : {A : Type ℓ} {B : Type κ} → (A → List B) → List A → List B
with_below nodes [] = []
with_below nodes (x ∷ xs) = nodes x ++ with_below nodes xs

module _ {F : Type 0} where
  -- All nodes from the objects down: a node is before those below it, and those of an element before
  -- those of the next.
  abbrev pub nodes_of_resource : ResourceNode F → List (Node F)
  nodes_of_resource r = r.node ∷ (if r.node.multiple_instance then r.resource_instances else [])

  abbrev pub nodes_of_instance : InstanceNode F → List (Node F)
  nodes_of_instance i = i.node ∷ with_below nodes_of_resource i.resource_list

  abbrev pub nodes_of_object : ObjectNode F → List (Node F)
  nodes_of_object o = o.node ∷ with_below nodes_of_instance o.instance_list

  -- The same without the instances of resources.
  abbrev pub upper_of_instance : InstanceNode F → List (Node F)
  upper_of_instance i = i.node ∷ with_below (λ r. r.node ∷ []) i.resource_list

  abbrev pub upper_of_object : ObjectNode F → List (Node F)
  upper_of_object o = o.node ∷ with_below upper_of_instance o.instance_list

abbrev or_later {ℓ} : {A : Type ℓ} → Option A → Option A → Option A
or_later none later = later
or_later (some a) later = some a

first-append {ℓ} :
    {A : Type ℓ} (test : A → Bool) (xs ys : List A)
    → first test (xs ++ ys) ≡ or_later (first test xs) (first test ys)
unfolding first
first-append test [] ys = refl
first-append test (x ∷ xs) ys = elim (Bool-cases (test x)) [
  | inl hit ↦ rw hit refl
  | inr miss ↦ rw miss (first-append test xs ys)
]

-- One turn of a search: the node itself, what is below it, and the rest.
turn_lem {ℓ} :
    {A : Type ℓ} (test : A → Bool) (is_it : Bool) (x : A) (found rest : Option A)
    (below more : List A)
    → found ≡ first test below
    → rest ≡ first test more
    → (if is_it then some x else elim found [ none ↦ rest | some n ↦ some n ])
      ≡ (if is_it then some x else first test (below ++ more))
turn_lem test true x found rest below more h1 h2 = refl
turn_lem test false x none rest below more h1 h2 =
    h2 ∙ ap (λ r. or_later r (first test more)) h1 ∙ sym (first-append test below more)
turn_lem test false x (some n) rest below more h1 h2 =
    ap (λ r. or_later r (first test more)) h1 ∙ sym (first-append test below more)

-- The turn of a resource, where `several` says that it supports several instances.
several_lem {ℓ} :
    {A : Type ℓ} (test : A → Bool) (is_it several : Bool) (x : A) (rest : Option A)
    (below more : List A)
    → rest ≡ first test more
    → (if is_it
        then some x
        else if several
        then elim (if several then first test below else none) [ none ↦ rest | some n ↦ some n ]
        else rest)
      ≡ (if is_it then some x else first test ((if several then below else []) ++ more))
several_lem test is_it true x rest below more h =
    turn_lem test is_it x (first test below) rest below more refl h
several_lem test true false x rest below more h = refl
several_lem test false false x rest below more h = h

module _ {F : Type 0} (path : List ℕ) where
  find_in_resources-path :
      (rs : List (ResourceNode F))
      → find_in_resources path none rs ≡ first (has_path path) (with_below nodes_of_resource rs)
  unfolding find_in_resources find_in_resource first
  find_in_resources-path [] = refl
  find_in_resources-path (r ∷ rs) =
      several_lem (has_path path) (has_path path r.node) r.node.multiple_instance r.node
        (find_in_resources path none rs) r.resource_instances (with_below nodes_of_resource rs)
        (find_in_resources-path rs)

  find_in_instances-path :
      (is : List (InstanceNode F))
      → find_in_instances path none is ≡ first (has_path path) (with_below nodes_of_instance is)
  unfolding find_in_instances first
  find_in_instances-path [] = refl
  find_in_instances-path (i ∷ is) =
      turn_lem (has_path path) (has_path path i.node) i.node
        (find_in_resources path none i.resource_list) (find_in_instances path none is)
        (with_below nodes_of_resource i.resource_list) (with_below nodes_of_instance is)
        (find_in_resources-path i.resource_list) (find_in_instances-path is)

  -- A request's path finds the first node with that path, in the order from the objects down: of
  -- objects, their instances, the resources of these, and the instances of a resource that supports
  -- several.
  pub find_in_objects-path :
      (os : List (ObjectNode F))
      → find_in_objects path none os ≡ first (has_path path) (with_below nodes_of_object os)
  unfolding find_in_objects first
  find_in_objects-path [] = refl
  find_in_objects-path (o ∷ os) =
      turn_lem (has_path path) (has_path path o.node) o.node
        (find_in_instances path none o.instance_list) (find_in_objects path none os)
        (with_below nodes_of_instance o.instance_list) (with_below nodes_of_object os)
        (find_in_instances-path o.instance_list) (find_in_objects-path os)

module _ {F : Type 0} (path token : List ℕ) where
  find_in_resources-token :
      (rs : List (ResourceNode F))
      → find_in_resources path (some token) rs
        ≡ first (has_token token) (with_below (λ r. r.node ∷ []) rs)
  unfolding find_in_resources first
  find_in_resources-token [] = refl
  find_in_resources-token (r ∷ rs) =
      ap (λ later. if has_token token r.node then some r.node else later)
        (find_in_resources-token rs)

  find_in_instances-token :
      (is : List (InstanceNode F))
      → find_in_instances path (some token) is
        ≡ first (has_token token) (with_below upper_of_instance is)
  unfolding find_in_instances first
  find_in_instances-token [] = refl
  find_in_instances-token (i ∷ is) =
      turn_lem (has_token token) (has_token token i.node) i.node
        (find_in_resources path (some token) i.resource_list)
        (find_in_instances path (some token) is) (with_below (λ r. r.node ∷ []) i.resource_list)
        (with_below upper_of_instance is) (find_in_resources-token i.resource_list)
        (find_in_instances-token is)

  -- A token that is not empty finds the first node that is observed with it, in the order from the
  -- objects down to the resources: an instance of a resource is not found by its token.
  pub find_in_objects-token :
      (os : List (ObjectNode F))
      → 0 < length token
      → find_in_objects path (some token) os
        ≡ first (has_token token) (with_below upper_of_object os)
  unfolding find_in_objects first
  find_in_objects-token [] long = refl
  find_in_objects-token (o ∷ os) long =
      let given : (length token == 0) ≡ false = ground arith in
      rw given (
        turn_lem (has_token token) (has_token token o.node) o.node
          (find_in_instances path (some token) o.instance_list)
          (find_in_objects path (some token) os) (with_below upper_of_instance o.instance_list)
          (with_below upper_of_object os) (find_in_instances-token o.instance_list)
          (find_in_objects-token os long))
