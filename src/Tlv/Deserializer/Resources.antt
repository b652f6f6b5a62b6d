-- ===== src/Tlv/Deserializer/Resources.antt =====
-- `deserialize_resources` and `deserialise_object_instances` of source/m2mtlvdeserializer.cpp.
use mbed_client.Common.{
  ℕ, zero, suc, ◌+◌, Bool, true, false, not, ◌&&◌, ◌||◌, List, [], ◌∷◌, length, ltb, ◌==◌, Option,
  none, some, if◌then◌else◌,
}
use mbed_client.Tlv.{
  Platform, ObjectInstance, type_resource, type_multiple_resource, type_resource_instance,
  type_object_instance,
}
use mbed_client.Tlv.Header.{
  TypeIdLength, read_til, is_object_instance, is_resource, is_multiple_resource,
}
use mbed_client.Tlv.Create.{create_dynamic_resource}
use mbed_client.Tlv.Deserializer.{
  Error, ok, not_found, not_valid, Operation, put, post, Outcome, done, out_of_fuel, ◌>>=◌, bounded,
  is_ok, visit_resources,
}
use mbed_client.Tlv.Deserializer.Instances.{multiple_loop, instances_loop}

-- A TLV of type "resource" or "resource instance" in `deserialize_resources`.
unfoldable pub resource_step :
    Platform
    → List ℕ
    → TypeIdLength
    → ObjectInstance
    → Operation
    → Bool
    → Outcome (Error × ObjectInstance)
resource_step p tlv til o op update_value = do
  (found, e, rs) ← visit_resources p tlv til update_value o.resources
  let o' = record o { resources = rs }
  done (
      if found
      then (e, o')
      else elim op [ post ↦ (ok, create_dynamic_resource p til.id o') | put ↦ (not_found, o') ])

-- The body of `deserialize_resources` up to the next TLV; `none` is its early return.
unfoldable pub resources_step :
    ℕ
    → Platform
    → List ℕ
    → ℕ
    → TypeIdLength
    → ObjectInstance
    → Operation
    → Bool
    → Outcome (Option (Error × ObjectInstance))
resources_step fuel p tlv tlv_size til o op update_value =
    if type_resource == til.type || type_resource_instance == til.type
    then (do r ← resource_step p tlv til o op update_value; done (some r))
    else if type_multiple_resource == til.type
    then (do
      r ←
          multiple_loop (λ i o'. instances_loop fuel p tlv tlv_size til.offset i o' op update_value)
            til.id (length o.resources) 0 ok o
      done (some r))
    else done none

-- `deserialize_resources(tlv, tlv_size, offset, object_instance, operation, update_value)`
unfoldable pub resources_loop :
    ℕ
    → Platform
    → List ℕ
    → ℕ
    → ℕ
    → ObjectInstance
    → Operation
    → Bool
    → Outcome (Error × ObjectInstance)
resources_loop zero p tlv tlv_size offset o op update_value = out_of_fuel
resources_loop (suc fuel) p tlv tlv_size offset o op update_value = do
  til ← bounded (read_til tlv offset)
  let more = λ (o' : ObjectInstance).
      resources_loop fuel p tlv tlv_size (til.offset + til.length) o' op update_value
  stepped ← resources_step (suc fuel) p tlv tlv_size til o op update_value
  elim stepped [
    | none ↦ done (not_valid, o)
    | some (e, o') ↦ if ltb (til.offset + til.length) tlv_size then more o' else done (e, o')
  ]

-- The two passes: the first checks, the second writes if the first found no error.
unfoldable pub deserialize_resources :
    Platform → List ℕ → ℕ → ObjectInstance → Operation → Outcome (Error × ObjectInstance)
deserialize_resources p tlv tlv_size o op = do
  resource ← bounded (is_resource tlv)
  multiple ← bounded (is_multiple_resource tlv)
  if not resource && not multiple then done (not_valid, o) else (do
    (e, o') ← resources_loop (suc (length tlv)) p tlv tlv_size 0 o op false
    if is_ok e then resources_loop (suc (length tlv)) p tlv tlv_size 0 o' op true else done (e, o'))

-- The loop over the instances of the object whose identifier is that of the TLV.
unfoldable pub matching_instances :
    (ObjectInstance → Outcome (Error × ObjectInstance))
    → ℕ
    → Error
    → List ObjectInstance
    → Outcome (Error × List ObjectInstance)
matching_instances call id e [] = done (e, [])
matching_instances call id e (o ∷ os) =
    let more = λ (e' : Error). matching_instances call id e' os in
    if o.instance_id == id
    then (do (e', o') ← call o; (e'', os') ← more e'; done (e'', o' ∷ os'))
    else (do (e'', os') ← more e; done (e'', o ∷ os'))

-- `deserialize_object_instances(tlv, tlv_size, offset, object, operation, update_value)`
unfoldable pub object_instances_loop :
    ℕ
    → Platform
    → List ℕ
    → ℕ
    → ℕ
    → List ObjectInstance
    → Operation
    → Bool
    → Outcome (Error × List ObjectInstance)
object_instances_loop zero p tlv tlv_size offset os op update_value = out_of_fuel
object_instances_loop (suc fuel) p tlv tlv_size offset os op update_value = do
  til ← bounded (read_til tlv offset)
  let more = λ (os' : List ObjectInstance).
      object_instances_loop fuel p tlv tlv_size (til.offset + til.length) os' op update_value
  if not (type_object_instance == til.type) then done (ok, os) else (do
    (e, os') ←
        matching_instances
          (λ o. resources_loop (suc fuel) p tlv tlv_size til.offset o op update_value) til.id ok os
    if ltb (til.offset + til.length) tlv_size then more os' else done (e, os'))

unfoldable pub deserialise_object_instances :
    Platform → List ℕ → ℕ → List ObjectInstance → Operation → Outcome (Error × List ObjectInstance)
deserialise_object_instances p tlv tlv_size os op = do
  instance_first ← bounded (is_object_instance tlv)
  if not instance_first then done (not_valid, os) else (do
    (e, os') ← object_instances_loop (suc (length tlv)) p tlv tlv_size 0 os op false
    if is_ok e
        then object_instances_loop (suc (length tlv)) p tlv tlv_size 0 os' op true
        else done (e, os'))
