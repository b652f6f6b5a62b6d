-- ===== src/Tlv/Deserializer.antt =====
-- source/m2mtlvdeserializer.cpp. The objects come back changed, beside the error code. Offsets do
-- not wrap: see `Deserializer` in the header of the library.
pub mod Instances
pub mod Resources
use mbed_client.Common.{
  ℕ, zero, suc, ◌+◌, bit_and, Bool, true, false, not, ◌&&◌, ◌||◌, List, [], ◌∷◌, length, take, drop,
  leb, ltb, ◌==◌, get_elem?, set, Option, none, some, if◌then◌else◌,
}
use mbed_client.Common.Int.{ℤ, pos, negsuc}
use mbed_client.Tlv.{
  Platform, Resource, ResourceInstance, ObjectInstance, type_resource, type_multiple_resource,
  type_resource_instance, type_object_instance, put_allowed,
}
use mbed_client.Tlv.Header.{
  TypeIdLength, read_til, is_object_instance, is_resource, is_multiple_resource,
}
use mbed_client.Tlv.Create.{create_dynamic_resource, create_dynamic_resource_instance}

pub data Error : Type 0 where
  ok not_found not_allowed not_valid : Error

pub data Operation : Type 0 where
  put post : Operation

-- A read behind the end of the array has no result; nor has a loop that used up its fuel.
pub data Outcome (A : Type 0) : Type 0 where
  done : A → Outcome A
  out_of_bounds : Outcome A
  out_of_fuel : Outcome A

infixl 5 ◌>>=◌
abbrev pub ◌>>=◌ : {A B : Type 0} → Outcome A → (A → Outcome B) → Outcome B
done a >>= f = f a
out_of_bounds >>= f = out_of_bounds
out_of_fuel >>= f = out_of_fuel

abbrev pub bounded : {A : Type 0} → Option A → Outcome A
bounded none = out_of_bounds
bounded (some a) = done a

abbrev pub is_ok : Error → Bool
is_ok ok = true
is_ok not_found = false
is_ok not_allowed = false
is_ok not_valid = false

-- The bytes that `set_value(tlv + offset, length)` copies.
unfoldable pub slice : List ℕ → ℕ → ℕ → Option (List ℕ)
slice tlv offset n = if leb (offset + n) (length tlv) then some (take n (drop offset tlv)) else none

-- `set_value` or `clear_value`: the new value. `set_value` loses the value if its copy fails.
unfoldable pub new_value : Platform → List ℕ → TypeIdLength → Outcome (List ℕ)
new_value p tlv til =
    if ltb 0 til.length
    then (do
      bytes ← bounded (slice tlv til.offset til.length)
      done (if p.malloc (til.length + 1) then bytes else []))
    else done []

-- The loop over resources or resource instances: whether one was found, the error, the list.
module _ {A : Type 0} (is_hit : A → Bool) (operation : A → ℕ) (write : A → Outcome A) where
  unfoldable pub visit : Bool → List A → Outcome (Bool × Error × List A)
  visit update_value [] = done (false, ok, [])
  visit update_value (x ∷ xs) =
      let rest = visit update_value xs in
      if not (is_hit x)
      then (do (found, e, ys) ← rest; done (found, e, x ∷ ys))
      else if update_value
      then (do y ← write x; done (true, ok, y ∷ xs))
      else if bit_and (operation x) put_allowed == 0
      then done (true, not_allowed, x ∷ xs)
      else (do (found, e, ys) ← rest; done (true, e, x ∷ ys))

unfoldable pub visit_instances :
    Platform
    → List ℕ
    → TypeIdLength
    → Bool
    → List ResourceInstance
    → Outcome (Bool × Error × List ResourceInstance)
unfolding visit
visit_instances p tlv til =
    visit (λ r. r.instance_id == til.id && type_resource_instance == til.type) (λ r. r.operation)
      (λ r. do v ← new_value p tlv til; done (record r { value = v }))

abbrev pub has_id : ℤ → ℕ → Bool
has_id (pos n) id = n == id
has_id (negsuc n) id = false

unfoldable pub visit_resources :
    Platform → List ℕ → TypeIdLength → Bool → List Resource → Outcome (Bool × Error × List Resource)
unfolding visit
visit_resources p tlv til =
    visit (λ r. has_id r.name_id til.id) (λ r. r.operation)
      (λ r. do v ← new_value p tlv til; done (record r { value = v }))
