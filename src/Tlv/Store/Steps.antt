-- ===== src/Tlv/Store/Steps.antt =====
-- One TLV of a plain resource, wherever it stands in the array.
use mbed_client.Common.{
  ℕ, suc, ◌+◌, ◌%◌, ◌^◌, ◌<◌, ◌≡◌, refl, Bool, true, false, List, [], ◌∷◌, ◌++◌, length,
  take-append, drop-append, length-append, append_assoc, ltb, some, if◌then◌else◌, arith,
}
use mbed_client.Tlv.{Platform, IsAmple, Resource, ObjectInstance, type_resource}
use mbed_client.Tlv.Serializer.{serialize_id, serialize_length, tlv_type}
use mbed_client.Tlv.Header.{TypeIdLength, read_til}
use mbed_client.Tlv.Encoding.{tilv, length-tilv}
use mbed_client.Tlv.RoundTrip.{read_til-tilv}
use mbed_client.Tlv.Deserializer.{ok, Operation, done, slice, new_value, visit, visit_resources}
use mbed_client.Tlv.Deserializer.Resources.{resource_step, resources_step, resources_loop}
use mbed_client.Tlv.Store.{knows, may_put, store, verdict}

pub knows-store :
    (i id : ℕ) (value : List ℕ) (rs : List Resource) → knows i (store id value rs) ≡ knows i rs
unfolding knows store
knows-store i id value [] = refl
knows-store i id value (r ∷ rs) = ground (arith, knows-store i id value rs)

pub may_put-store :
    (i id : ℕ) (value : List ℕ) (rs : List Resource) → may_put i (store id value rs) ≡ may_put i rs
unfolding may_put store
may_put-store i id value [] = refl
may_put-store i id value (r ∷ rs) = ground (arith, may_put-store i id value rs)

module _ (p : Platform) (tlv : List ℕ) (til : TypeIdLength) where
  visit_resources-check :
      (rs : List Resource)
      → visit_resources p tlv til false rs ≡ done (knows til.id rs, verdict false til.id rs, rs)
  unfolding visit_resources visit knows may_put
  visit_resources-check [] = refl
  visit_resources-check (r ∷ rs) = ground (arith, visit_resources-check rs)

  visit_resources-write :
      (value : List ℕ) (rs : List Resource)
      → new_value p tlv til ≡ done value
      → visit_resources p tlv til true rs ≡ done (knows til.id rs, ok, store til.id value rs)
  unfolding visit_resources visit knows store
  visit_resources-write value [] h = refl
  visit_resources-write value (r ∷ rs) h = ground (arith, visit_resources-write value rs h)

slice-append :
    (before value rest : List ℕ) (o : ℕ)
    → o ≡ length before
    → slice (before ++ (value ++ rest)) o (length value) ≡ some value
unfolding slice
slice-append before value rest o e = ground (
  arith,
  length-append before (value ++ rest),
  length-append value rest,
  drop-append before (value ++ rest),
  take-append value rest,
)

-- Where the value of a TLV stands that itself stands behind `before`.
abbrev pub value_offset : List ℕ → ℕ → List ℕ → ℕ
value_offset before id value =
    length before + 1 + length (serialize_id id) + length (serialize_length (length value))

abbrev pub til_of : List ℕ → ℕ → List ℕ → TypeIdLength
til_of before id value = record {
  offset = value_offset before id value;
  type = type_resource;
  id = id;
  length = length value;
}

read_til-resource :
    (before rest : List ℕ) (id : ℕ) (value : List ℕ)
    → id < 65536
    → length value < 2 ^ 24
    → read_til (before ++ (tilv type_resource id value ++ rest)) (length before)
      ≡ some (til_of before id value)
read_til-resource before rest id value hid hv =
    let e : length value % 2 ^ 24 ≡ length value = omega arith in
    rw e at (read_til-tilv before rest 3 id value (omega arith) hid)

slice-tilv :
    (before rest : List ℕ) (id : ℕ) (value : List ℕ)
    → slice
        (before ++ (tilv type_resource id value ++ rest))
        (value_offset before id value)
        (length value)
      ≡ some value
unfolding tilv
slice-tilv before rest id value =
    let b = tlv_type type_resource id (length value) in
    let i = serialize_id id in
    let n = serialize_length (length value) in
    let front = before ++ (b ∷ (i ++ n)) in
    let e : front ++ (value ++ rest) ≡ before ++ ((b ∷ (i ++ (n ++ value))) ++ rest) =
      simp append_assoc in
    rw (← e) (
      slice-append front value rest (value_offset before id value)
        (omega (arith, length-append before (b ∷ (i ++ n)), length-append i n)))

new_value-tilv :
    (p : Platform) (before rest : List ℕ) (id : ℕ) (value : List ℕ)
    → IsAmple p
    → new_value p (before ++ (tilv type_resource id value ++ rest)) (til_of before id value)
      ≡ done value
unfolding new_value
new_value-tilv p before rest id [] a = refl
new_value-tilv p before rest id (b ∷ bs) a =
    rw (slice-tilv before rest id (b ∷ bs), a.room (length (b ∷ bs) + 1)) (ground arith)

abbrev pub written : Bool → ℕ → List ℕ → ObjectInstance → ObjectInstance
written u id value o = if u then record o { resources = store id value o.resources } else o

resource_step-tilv :
    (p : Platform) (before rest : List ℕ) (id : ℕ) (value : List ℕ) (o : ObjectInstance)
    (op : Operation) (u : Bool)
    → IsAmple p
    → knows id o.resources ≡ true
    → resource_step p
        (before ++ (tilv type_resource id value ++ rest))
        (til_of before id value)
        o
        op
        u
      ≡ done (verdict u id o.resources, written u id value o)
unfolding resource_step
resource_step-tilv p before rest id value o op false a k =
    let tlv = before ++ (tilv type_resource id value ++ rest) in
    rw (visit_resources-check p tlv (til_of before id value) o.resources, k)
resource_step-tilv p before rest id value o op true a k =
    let tlv = before ++ (tilv type_resource id value ++ rest) in
    rw (
      visit_resources-write p tlv (til_of before id value) value o.resources
          (new_value-tilv p before rest id value a),
      k,
    )

pub resources_loop-tilv :
    (fuel : ℕ) (p : Platform) (before rest : List ℕ) (n id : ℕ) (value : List ℕ)
    (o : ObjectInstance) (op : Operation) (u : Bool)
    → IsAmple p
    → id < 65536
    → length value < 2 ^ 24
    → knows id o.resources ≡ true
    → let tlv = before ++ (tilv type_resource id value ++ rest) in
      let next = length before + length (tilv type_resource id value) in
      resources_loop (suc fuel) p tlv n (length before) o op u ≡ (
        if ltb next n
        then resources_loop fuel p tlv n next (written u id value o) op u
        else done (verdict u id o.resources, written u id value o))
unfolding resources_loop resources_step
resources_loop-tilv fuel p before rest n id value o op u a hid hv k =
    let e : value_offset before id value + length value
        ≡ length before + length (tilv type_resource id value) =
      omega (arith, length-tilv type_resource id value) in
    rw
      (
        read_til-resource before rest id value hid hv,
        resource_step-tilv p before rest id value o op u a k,
        e,
      )
      refl
