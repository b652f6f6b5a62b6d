-- ===== src/Tlv/Plain.antt =====
-- The serialiser on resources without instances, and the way back through the deserialiser.
use mbed_client.Common.{
  ℕ, ◌+◌, ◌%◌, ◌^◌, ◌<◌, ◌≡◌, refl, sym, ap, ◌∙◌, true, false, ◌||◌, List, [], ◌∷◌, ◌++◌, map,
  length, All, length-append, append_assoc, append-nil, if◌then◌else◌, arith,
}
use mbed_client.Common.Int.{pos}
use mbed_client.Tlv.{Platform, IsAmple, Resource, ObjectInstance, type_resource}
use mbed_client.Tlv.Serializer.{
  Out, nothing, to_u16, is_binary_int, is_boolean, get_value_int, serialize_tlv_binary_int,
  serialize_resource, serialize, has_invalid_id, serialize_resource_list, serialize_resources,
}
use mbed_client.Tlv.Encoding.{tilv, put, serialize_tilv_ok}
use mbed_client.Tlv.Deserializer.{Operation, ok, done, has_id}
use mbed_client.Tlv.Deserializer.Resources.{deserialize_resources}
use mbed_client.Tlv.Store.{Entry, encode, knows, may_put, store, store_all, Fits, last_id}
use mbed_client.Tlv.Store.Loop.{deserialize_resources-encode}

-- The bytes that stand for the value of a resource: eight for a number, one for a Boolean.
unfoldable pub payload : Platform → Resource → List ℕ
payload p r =
    if is_binary_int r.kind
    then if is_boolean r.kind
      then get_value_int p r.value % 256 ∷ []
      else p.write_64_bit (get_value_int p r.value)
    else r.value

abbrev pub entry_of : Platform → Resource → Entry
entry_of p r = (to_u16 r.name_id, payload p r)

-- A resource without instances, whose name is a number up to 65535.
abbrev pub IsPlain : Resource → Type 0
IsPlain r = (r.supports_multiple_instances ≡ false) × ((n : ℕ) × (r.name_id ≡ pos n) × (n < 65536))

-- Room for the bytes: the size does not wrap.
serialize_plain :
    (p : Platform) (r : Resource) (out : Out)
    → IsAmple p
    → IsPlain r
    → out.size + length (tilv type_resource (to_u16 r.name_id) (payload p r)) < 2 ^ 32
    → serialize p r out ≡ (true, put (tilv type_resource (to_u16 r.name_id) (payload p r)) out)
unfolding serialize serialize_resource serialize_tlv_binary_int payload
serialize_plain p r out a (single, (n, e, h)) fits = ground (
  arith,
  a.eight (get_value_int p r.value),
  serialize_tilv_ok p type_resource (to_u16 r.name_id) (payload p r) out a.room fits,
)

put-append : (xs ys : List ℕ) (out : Out) → put ys (put xs out) ≡ put (xs ++ ys) out
put-append xs ys out = ground (arith, length-append xs ys, append_assoc out.bytes xs ys)

put-nil : (out : Out) → out ≡ put [] out
put-nil out = ground (arith, append-nil out.bytes)

serialize_resource_list-encode :
    (p : Platform) (rs : List Resource) (out : Out)
    → IsAmple p
    → All IsPlain rs
    → out.size + length (encode (map (entry_of p) rs)) < 2 ^ 32
    → serialize_resource_list p rs out ≡ (true, put (encode (map (entry_of p) rs)) out)
unfolding serialize_resource_list encode
serialize_resource_list-encode p [] out a h fits = ap (λ x. (true, x)) (put-nil out)
serialize_resource_list-encode p (r ∷ rs) out a h fits =
    let t = tilv type_resource (to_u16 r.name_id) (payload p r) in
    let es = encode (map (entry_of p) rs) in
    rw (serialize_plain p r out a h.0 (omega (arith, length-append t es))) (
      serialize_resource_list-encode p rs (put t out) a h.1 (omega (arith, length-append t es))
      ∙ ap (λ x. (true, x)) (put-append t es out))

has_invalid_id-plain : (rs : List Resource) → All IsPlain rs → has_invalid_id rs ≡ false
unfolding has_invalid_id
has_invalid_id-plain [] h = refl
has_invalid_id-plain (r ∷ rs) ((single, (n, e, b)), h) = ground (arith, has_invalid_id-plain rs h)

-- For resources without instances whose names are numbers up to 65535, with no allocation failing
-- and less than 4 GiB to write, `serialize_resources` succeeds: its bytes are the TLVs of the
-- resources in their order, and its size is their number.
pub serialize_resources-encode :
    (p : Platform) (rs : List Resource)
    → IsAmple p
    → All IsPlain rs
    → length (encode (map (entry_of p) rs)) < 2 ^ 32
    → serialize_resources p rs 0 ≡ (
      true,
      record { bytes = encode (map (entry_of p) rs); size = length (encode (map (entry_of p) rs)) },
    )
unfolding serialize_resources
serialize_resources-encode p rs a h fits = rw (has_invalid_id-plain rs h) (
    serialize_resource_list-encode p rs nothing a h (omega arith)
    ∙ ap (λ x. (true, x)) (ground arith))

-- No two resources have the same number.
abbrev pub AreDistinct : List Resource → Type 0
AreDistinct [] = Unit {0}
AreDistinct (r ∷ rs) = (knows (to_u16 r.name_id) rs ≡ false) × AreDistinct rs

-- A resource after its own TLV was read.
abbrev pub refreshed : Platform → Resource → Resource
refreshed p r = record r { value = payload p r }

store-append :
    (id : ℕ) (value : List ℕ) (xs ys : List Resource)
    → knows id xs ≡ false
    → store id value (xs ++ ys) ≡ xs ++ store id value ys
unfolding knows store
store-append id value [] ys h = refl
store-append id value (x ∷ xs) ys h = ground (arith, store-append id value xs ys)

knows-append : (id : ℕ) (xs ys : List Resource) → knows id (xs ++ ys) ≡ (knows id xs || knows id ys)
unfolding knows
knows-append id [] ys = refl
knows-append id (x ∷ xs) ys = ground (arith, knows-append id xs ys)

store_head :
    (p : Platform) (r : Resource) (rs : List Resource)
    → IsPlain r
    → store (to_u16 r.name_id) (payload p r) (r ∷ rs) ≡ refreshed p r ∷ rs
unfolding store
store_head p r rs (single, (n, e, h)) = ground arith

-- None of the resources `xs` has a number of the resources `ys`.
abbrev Apart : List Resource → List Resource → Type 0
Apart xs = All (λ y. knows (to_u16 y.name_id) xs ≡ false)

Apart-snoc :
    (p : Platform) (xs : List Resource) (r : Resource) (ys : List Resource)
    → IsPlain r
    → All IsPlain ys
    → knows (to_u16 r.name_id) ys ≡ false
    → Apart xs ys
    → Apart (xs ++ (refreshed p r ∷ [])) ys
unfolding knows
Apart-snoc p xs r [] h hs k q = tt
Apart-snoc p xs r (y ∷ ys) (s, (n, e, b)) ((s', (n', e', b')), hs) k q = (
  ground (arith, knows-append (to_u16 y.name_id) xs (refreshed p r ∷ [])),
  Apart-snoc p xs r ys (s, (n, e, b)) hs (ground arith) q.1,
)

store_all-refreshed :
    (p : Platform) (xs rs : List Resource)
    → All IsPlain rs
    → AreDistinct rs
    → Apart xs rs
    → store_all (map (entry_of p) rs) (xs ++ rs) ≡ xs ++ map (refreshed p) rs
unfolding store_all
store_all-refreshed p xs [] h d q = refl
store_all-refreshed p xs (r ∷ rs) h d q =
    let r' = refreshed p r in
    ap (store_all (map (entry_of p) rs)) (
      store-append (to_u16 r.name_id) (payload p r) xs (r ∷ rs) q.0
      ∙ ap (◌++◌ xs) (store_head p r rs h.0)
      ∙ sym (append_assoc xs (r' ∷ []) rs))
    ∙ store_all-refreshed p (xs ++ (r' ∷ [])) rs h.1 d.1 (Apart-snoc p xs r rs h.0 h.1 d.0 q.1)
    ∙ append_assoc xs (r' ∷ []) (map (refreshed p) rs)

-- Every value fits the three bytes of a TLV's length.
abbrev pub IsShort : Platform → Resource → Type 0
IsShort p r = length (payload p r) < 2 ^ 24

to_u16_plain : (r : Resource) → IsPlain r → has_id r.name_id (to_u16 r.name_id) ≡ true
to_u16_plain r (s, (n, e, h)) = ground arith

knows_later :
    (id : ℕ) (r : Resource) (rs : List Resource) → knows id rs ≡ true → knows id (r ∷ rs) ≡ true
unfolding knows
knows_later id r rs h = ground arith

Fits-later :
    (r : Resource) (rs : List Resource) (es : List Entry)
    → All (Fits rs) es
    → All (Fits (r ∷ rs)) es
Fits-later r rs [] h = tt
Fits-later r rs ((i, v) ∷ es) ((a, b, k), h) = ((a, b, knows_later i r rs k), Fits-later r rs es h)

Fits-own :
    (p : Platform) (rs : List Resource)
    → All IsPlain rs
    → All (IsShort p) rs
    → All (Fits rs) (map (entry_of p) rs)
unfolding knows
Fits-own p [] h s = tt
Fits-own p (r ∷ rs) ((single, (n, e, b)), h) s = (
  (ground arith, s.0, ground (arith, to_u16_plain r (single, (n, e, b)))),
  Fits-later r rs (map (entry_of p) rs) (Fits-own p rs h s.1),
)

Apart-nil : (rs : List Resource) → Apart [] rs
unfolding knows
Apart-nil [] = tt
Apart-nil (r ∷ rs) = (refl, Apart-nil rs)

-- Serialise, then deserialise: for resources without instances, whose names are different numbers
-- up to 65535 and whose values are short, with no allocation failing and less than 4 GiB to write,
-- reading the serialiser's bytes back by PUT or POST into the object instance that they came from
-- gives no error if its last resource may be written, and leaves each resource with the bytes of
-- its TLV for a value.
pub deserialize_resources-serialize_resources :
    (p : Platform) (i : ℕ) (r : Resource) (rs : List Resource) (op : Operation)
    → IsAmple p
    → All IsPlain (r ∷ rs)
    → All (IsShort p) (r ∷ rs)
    → AreDistinct (r ∷ rs)
    → may_put (last_id (to_u16 r.name_id) (map (entry_of p) rs)) (r ∷ rs) ≡ true
    → length (encode (map (entry_of p) (r ∷ rs))) < 2 ^ 32
    → let out = (serialize_resources p (r ∷ rs) 0).1 in
      deserialize_resources p out.bytes out.size (record { instance_id = i; resources = r ∷ rs }) op
      ≡ done (ok, record { instance_id = i; resources = map (refreshed p) (r ∷ rs) })
deserialize_resources-serialize_resources p i r rs op a h s d w fits =
    let es = map (entry_of p) rs in
    let o : ObjectInstance = record { instance_id = i; resources = r ∷ rs } in
    rw (serialize_resources-encode p (r ∷ rs) a h fits) (
      rw w at (
        deserialize_resources-encode p (to_u16 r.name_id) (payload p r) es o op a
          (Fits-own p (r ∷ rs) h s))
      ∙ ap (λ x. done (ok, record o { resources = x }))
          (store_all-refreshed p [] (r ∷ rs) h d (Apart-nil (r ∷ rs))))
