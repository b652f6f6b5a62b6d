-- ===== src/Tlv/Create.antt =====
-- `create_dynamic_resource` and `create_dynamic_resource_instance` of source/m2mobjectinstance.cpp,
-- as the TLV deserialiser calls them: of type INTEGER, and followed by `set_operation`.
use mbed_client.Common.{
  same_text, ℕ, ◌+◌, Bool, true, false, not, ◌&&◌, ◌||◌, List, [], ◌∷◌, ◌++◌, length, leb, ◌==◌,
  get_elem?, set, Option, none, some, if◌then◌else◌,
}
use mbed_client.Common.Int.{pos}
use mbed_client.Text.{itoa_c}
use mbed_client.Tlv.{
  Platform, Resource, ResourceInstance, ObjectInstance, integer, get_allowed,
  get_put_post_delete_allowed,
}

-- `validate_string_length(name, 1, MAX_ALLOWED_STRING_LENGTH)`
unfoldable pub validate_string_length : List ℕ → Bool
validate_string_length name = leb 1 (length name) && leb (length name) 64

-- `resource(name)`, as the position of the first resource of that name.
unfoldable pub find_resource : List ℕ → List Resource → Option ℕ
find_resource name [] = none
find_resource name (r ∷ rs) =
    let rest = find_resource name rs in
    if same_text r.name name then some 0 else elim rest [ none ↦ none | some i ↦ some (i + 1) ]

-- The resource of identifier `id` that `deserialize_resources` creates.
unfoldable pub new_resource : ℕ → Resource
new_resource id = record {
  name = itoa_c (pos id);
  name_id = pos id;
  supports_multiple_instances = false;
  kind = integer;
  operation = get_put_post_delete_allowed;
  value = [];
  resource_instances = [];
}

unfoldable pub create_dynamic_resource : Platform → ℕ → ObjectInstance → ObjectInstance
create_dynamic_resource p id o =
    let name = itoa_c (pos id) in
    if not (validate_string_length name) then o else elim (find_resource name o.resources) [
      | some i ↦ o
      | none ↦
          if p.create_path name
          then record o { resources = o.resources ++ (new_resource id ∷ []) }
          else o
    ]

unfoldable pub has_instance : ℕ → List ResourceInstance → Bool
has_instance id [] = false
has_instance id (r ∷ rs) = id == r.instance_id || has_instance id rs

unfoldable pub new_instance : ℕ → ResourceInstance
new_instance id = record {
  instance_id = id;
  kind = integer;
  operation = get_put_post_delete_allowed;
  value = [];
}

-- The second half of `create_dynamic_resource_instance`, on the resource that was found or made.
unfoldable pub add_instance : Platform → List ℕ → ℕ → Resource → Resource
add_instance p name id r =
    if r.supports_multiple_instances
      && not (has_instance id r.resource_instances)
      && p.create_instance_path name id
    then record r { resource_instances = r.resource_instances ++ (new_instance id ∷ []) }
    else r

unfoldable pub multiple_resource : List ℕ → Resource → Resource
multiple_resource name like = record like {
  name = name;
  supports_multiple_instances = true;
  kind = integer;
  operation = get_allowed;
  value = [];
  resource_instances = [];
}

-- `like` is the resource whose name is asked for.
unfoldable pub create_dynamic_resource_instance :
    Platform → Resource → ℕ → ObjectInstance → ObjectInstance
create_dynamic_resource_instance p like id o =
    if not (validate_string_length like.name)
    then o
    else elim (find_resource like.name o.resources) [
      | some i ↦ elim (get_elem? o.resources i) [
        | none ↦ o
        | some r ↦ record o { resources = set o.resources i (add_instance p like.name id r) }
      ]
      | none ↦
          if p.create_path like.name
          then record o {
            resources =
                o.resources
                ++ (add_instance p like.name id (multiple_resource like.name like) ∷ []);
          }
          else o
    ]
