-- ===== src/Nsdl/Find.antt =====
-- The search for the node that a request or a token is for, of source/m2mnsdlinterface.cpp. A token
-- is `none` for NULL.
use mbed_client.Common.{
  ℕ, Bool, false, ◌&&◌, List, [], ◌∷◌, length, ◌==◌, Option, none, some, same_text, if◌then◌else◌,
}
use mbed_client.Objects.{Node, ResourceNode, InstanceNode, ObjectNode}
use mbed_client.Objects.Tree.{first}

-- The length of a token; NULL has none.
abbrev pub token_length : Option (List ℕ) → ℕ
token_length none = 0
token_length (some token) = length token

module _ {F : Type 0} where
  -- `get_observation_token` of a node.
  abbrev pub token_of : Node F → Option (List ℕ)
  token_of n = elim n.report_handler [ none ↦ none | some h ↦ h.token ]

  unfoldable pub has_token : List ℕ → Node F → Bool
  has_token token n = elim (token_of n) [
    | none ↦ false
    | some stored ↦ length stored == length token && same_text token stored
  ]

  abbrev pub has_path : List ℕ → Node F → Bool
  has_path path n = same_text n.path path

  -- The instances of a resource, by the path alone.
  unfoldable pub find_in_resource : List ℕ → ResourceNode F → Option (Node F)
  unfolding first
  find_in_resource path r =
      if r.node.multiple_instance then first (has_path path) r.resource_instances else none

  unfoldable pub find_in_resources :
      List ℕ → Option (List ℕ) → List (ResourceNode F) → Option (Node F)
  unfolding find_in_resource has_token
  find_in_resources path token [] = none
  find_in_resources path token (r ∷ rs) =
      let rest = find_in_resources path token rs in
      elim token [
        | none ↦
            if has_path path r.node
            then some r.node
            else if r.node.multiple_instance
            then elim (find_in_resource path r) [ none ↦ rest | some n ↦ some n ]
            else rest
        | some t ↦ if has_token t r.node then some r.node else rest
      ]

  unfoldable pub find_in_instances :
      List ℕ → Option (List ℕ) → List (InstanceNode F) → Option (Node F)
  unfolding find_in_resources has_token
  find_in_instances path token [] = none
  find_in_instances path token (i ∷ is) =
      let rest = find_in_instances path token is in
      let is_it : Bool = elim token [ none ↦ has_path path i.node | some t ↦ has_token t i.node ] in
      if is_it
      then some i.node
      else elim (find_in_resources path token i.resource_list) [ none ↦ rest | some n ↦ some n ]

  -- Of the objects themselves the length of the token decides, of all below whether it is NULL.
  unfoldable pub find_in_objects : List ℕ → Option (List ℕ) → List (ObjectNode F) → Option (Node F)
  unfolding find_in_instances has_token
  find_in_objects path token [] = none
  find_in_objects path token (o ∷ os) =
      let rest = find_in_objects path token os in
      let is_it : Bool =
        if token_length token == 0
        then has_path path o.node
        else elim token [ none ↦ false | some t ↦ has_token t o.node ] in
      if is_it
      then some o.node
      else elim (find_in_instances path token o.instance_list) [ none ↦ rest | some n ↦ some n ]
