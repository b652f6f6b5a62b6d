-- ===== src/Tlv/Store.antt =====
-- The deserialiser of resources as a sequence of writes: what a TLV of plain resources does to an
-- object instance that knows them all.
pub mod Steps
pub mod Loop
use mbed_client.Common.{
  ℕ, zero, suc, ◌+◌, ◌*◌, ◌%◌, ◌^◌, ◌≤◌, ◌<◌, ◌≡◌, refl, sym, ap, ◌∙◌, bit_and, Bool, true, false,
  not, ◌&&◌, ◌||◌, List, [], ◌∷◌, ◌++◌, length, All, take, drop, take-append, drop-append,
  length-append, append_assoc, append-nil, leb, ltb, ◌==◌, Option, some, none, if◌then◌else◌,
  Bool-cases, inl, inr, arith,
}
use mathlib.Core.Path.{subst₂, ap₂}
use mbed_client.Common.Bits.{mask_c0}
use mbed_client.Tlv.{Platform, IsAmple, Resource, ObjectInstance, type_resource, put_allowed}
use mbed_client.Tlv.Serializer.{serialize_id, serialize_length, tlv_type}
use mbed_client.Tlv.Header.{TypeIdLength, read_til, is_resource, is_multiple_resource}
use mbed_client.Tlv.Encoding.{tilv, length-tilv, length-tilv_bounds}
use mbed_client.Tlv.RoundTrip.{read_til-tilv}
use mbed_client.Tlv.Deserializer.{
  Error, ok, not_allowed, Operation, put, post, Outcome, done, ◌>>=◌, bounded, slice, new_value,
  visit, visit_resources, has_id, is_ok,
}
use mbed_client.Tlv.Deserializer.Resources.{
  resource_step, resources_step, resources_loop, deserialize_resources,
}

-- A TLV of plain resources: identifiers with their values.
abbrev pub Entry : Type 0
Entry = ℕ × List ℕ

unfoldable pub encode : List Entry → List ℕ
encode [] = []
encode ((id, value) ∷ es) = tilv type_resource id value ++ encode es

unfoldable pub knows : ℕ → List Resource → Bool
knows id [] = false
knows id (r ∷ rs) = has_id r.name_id id || knows id rs

-- Every resource of the identifier may be written.
unfoldable pub may_put : ℕ → List Resource → Bool
may_put id [] = true
may_put id (r ∷ rs) =
    (not (has_id r.name_id id) || not (bit_and r.operation put_allowed == 0)) && may_put id rs

-- The abstract write: the first resource of the identifier gets the value.
unfoldable pub store : ℕ → List ℕ → List Resource → List Resource
store id value [] = []
store id value (r ∷ rs) =
    if has_id r.name_id id then record r { value = value } ∷ rs else r ∷ store id value rs

unfoldable pub store_all : List Entry → List Resource → List Resource
store_all [] rs = rs
store_all ((id, value) ∷ es) rs = store_all es (store id value rs)

-- The error for a known identifier: a write never fails, a check asks for the permission.
abbrev pub verdict : Bool → ℕ → List Resource → Error
verdict update_value id rs = if update_value || may_put id rs then ok else not_allowed

-- The entry fits a TLV, and the resources have its identifier.
abbrev pub Fits : List Resource → Entry → Type 0
Fits rs (id, value) = (id < 65536) × (length value < 2 ^ 24) × (knows id rs ≡ true)

unfoldable pub last_id : ℕ → List Entry → ℕ
last_id id [] = id
last_id id ((i, v) ∷ es) = last_id i es
