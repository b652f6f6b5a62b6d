-- ===== src/Tlv/Deserializer/Instances.antt =====
-- `deserialize_resource_instances` of source/m2mtlvdeserializer.cpp, in its three forms.
use mbed_client.Common.{
  ℕ, zero, suc, ◌+◌, bit_and, Bool, true, false, not, ◌&&◌, ◌||◌, List, length, ltb, ◌==◌,
  get_elem?, set, none, some, if◌then◌else◌,
}
use mbed_client.Tlv.{
  Platform, Resource, ObjectInstance, type_multiple_resource, type_resource_instance,
}
use mbed_client.Tlv.Header.{TypeIdLength, read_til, is_multiple_resource}
use mbed_client.Tlv.Create.{create_dynamic_resource_instance}
use mbed_client.Tlv.Deserializer.{
  Error, ok, not_found, not_allowed, not_valid, Operation, put, post, Outcome, done, out_of_fuel,
  ◌>>=◌, bounded, is_ok, visit_instances, has_id,
}

-- What an identifier that is not there means where nothing is created.
abbrev pub missing_instance : Operation → Error
missing_instance post = not_allowed
missing_instance put = not_found

-- `deserialize_resource_instances(tlv, tlv_size, offset, resource, operation, update_value)`
unfoldable pub resource_instances_loop :
    ℕ → Platform → List ℕ → ℕ → ℕ → Resource → Operation → Bool → Outcome (Error × Resource)
resource_instances_loop zero p tlv tlv_size offset r op update_value = out_of_fuel
resource_instances_loop (suc fuel) p tlv tlv_size offset r op update_value = do
  til ← bounded (read_til tlv offset)
  let more = λ (r' : Resource).
      resource_instances_loop fuel p tlv tlv_size (til.offset + til.length) r' op update_value
  if not (type_resource_instance == til.type) then done (not_valid, r) else (do
    (found, e, rs) ← visit_instances p tlv til update_value r.resource_instances
    let r' = record r { resource_instances = rs }
    let e' = if found then e else missing_instance op
    if ltb (til.offset + til.length) tlv_size then more r' else done (e', r'))

-- The same with an object instance, in which a missing instance is created on POST. The resource
-- is the one at position `i` of the object instance.
unfoldable pub instance_step :
    Platform
    → List ℕ
    → TypeIdLength
    → ℕ
    → Resource
    → ObjectInstance
    → Operation
    → Bool
    → Outcome (Error × ObjectInstance)
instance_step p tlv til i r o op update_value = do
  (found, e, rs) ← visit_instances p tlv til update_value r.resource_instances
  let r' = record r { resource_instances = rs }
  let o' = record o { resources = set o.resources i r' }
  done (
      if found then (e, o') else elim op [
        | post ↦ (ok, create_dynamic_resource_instance p r' til.id o')
        | put ↦ (not_found, o')
      ])

unfoldable pub instances_loop :
    ℕ
    → Platform
    → List ℕ
    → ℕ
    → ℕ
    → ℕ
    → ObjectInstance
    → Operation
    → Bool
    → Outcome (Error × ObjectInstance)
instances_loop zero p tlv tlv_size offset i o op update_value = out_of_fuel
instances_loop (suc fuel) p tlv tlv_size offset i o op update_value = do
  til ← bounded (read_til tlv offset)
  let more = λ (o' : ObjectInstance).
      instances_loop fuel p tlv tlv_size (til.offset + til.length) i o' op update_value
  if not (type_multiple_resource == til.type || type_resource_instance == til.type)
      then done (not_valid, o)
      else elim (get_elem? o.resources i) [
        | none ↦ done (ok, o)
        | some r ↦ (do
          (e, o') ← instance_step p tlv til i r o op update_value
          if ltb (til.offset + til.length) tlv_size then more o' else done (e, o'))
      ]

-- The loop over the resources of a TLV of type "multiple resource", from position `i` on. It adds
-- no resource, so the count of the resources is taken before it.
unfoldable pub multiple_loop :
    (ℕ → ObjectInstance → Outcome (Error × ObjectInstance))
    → ℕ
    → ℕ
    → ℕ
    → Error
    → ObjectInstance
    → Outcome (Error × ObjectInstance)
multiple_loop call id zero i e o = done (e, o)
multiple_loop call id (suc count) i e o =
    let more = λ (e' : Error) (o' : ObjectInstance). multiple_loop call id count (i + 1) e' o' in
    elim (get_elem? o.resources i) [
      | none ↦ done (e, o)
      | some r ↦
          if r.supports_multiple_instances && has_id r.name_id id
          then (do (e', o') ← call i o; more e' o')
          else more e o
    ]

-- `deserialize_resource_instances(tlv, tlv_size, resource, operation)`
unfoldable pub header_size : ℕ → ℕ
header_size b =
    2
    + (if bit_and b 0x20 == 0 then 0 else 1)
    + (if bit_and b 0x18 == 0x08
        then 1
        else if bit_and b 0x18 == 0x10
        then 2
        else if bit_and b 0x18 == 0x18
        then 3
        else 0)

unfoldable pub deserialize_resource_instances :
    Platform → List ℕ → ℕ → Resource → Operation → Outcome (Error × Resource)
deserialize_resource_instances p tlv tlv_size r op = do
  multiple ← bounded (is_multiple_resource tlv)
  if not multiple then done (not_valid, r) else (do
    b ← bounded (get_elem? tlv 0)
    let run = λ (r' : Resource) (update_value : Bool).
        resource_instances_loop (suc (length tlv)) p tlv tlv_size (header_size b) r' op update_value
    (e, r') ← run r false
    if is_ok e then run r' true else done (e, r'))
