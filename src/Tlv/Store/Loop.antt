-- ===== src/Tlv/Store/Loop.antt =====
-- The TLVs of plain resources in a row, and the two passes over them.
use mbed_client.Common.{
  ℕ, zero, suc, ◌+◌, ◌≤◌, ◌<◌, ◌≡◌, refl, ap, ◌∙◌, Bool, true, false, List, [], ◌∷◌, ◌++◌, length,
  All, length-append, append_assoc, ltb, some, if◌then◌else◌, Bool-cases, inl, inr, arith,
}
use mathlib.Core.Path.{subst₂, ap₂}
use mbed_client.Common.Bits.{mask_c0}
use mbed_client.Tlv.{Platform, IsAmple, Resource, ObjectInstance, type_resource}
use mbed_client.Tlv.Serializer.{tlv_type}
use mbed_client.Tlv.Header.{is_resource, is_multiple_resource}
use mbed_client.Tlv.Encoding.{tilv, length-tilv_bounds}
use mbed_client.Tlv.Deserializer.{ok, not_allowed, Operation, done}
use mbed_client.Tlv.Deserializer.Resources.{resources_loop, deserialize_resources}
use mbed_client.Tlv.Store.{Entry, encode, may_put, store, store_all, verdict, Fits, last_id}
use mbed_client.Tlv.Store.Steps.{knows-store, written, resources_loop-tilv}

abbrev written_all : Bool → List Entry → ObjectInstance → ObjectInstance
written_all u es o = if u then record o { resources = store_all es o.resources } else o

Fits-store :
    (id : ℕ) (value : List ℕ) (rs : List Resource) (es : List Entry)
    → All (Fits rs) es
    → All (Fits (store id value rs)) es
Fits-store id value rs [] h = tt
Fits-store id value rs ((i, v) ∷ es) ((a, b, k), h) =
    ((a, b, rw (knows-store i id value rs) k), Fits-store id value rs es h)

Fits-written :
    (u : Bool) (id : ℕ) (value : List ℕ) (o : ObjectInstance) (es : List Entry)
    → All (Fits o.resources) es
    → All (Fits (written u id value o).resources) es
Fits-written true id value o es h = Fits-store id value o.resources es h
Fits-written false id value o es h = h

verdict-written :
    (u : Bool) (i id : ℕ) (value : List ℕ) (o : ObjectInstance)
    → verdict u i (written u id value o).resources ≡ verdict u i o.resources
verdict-written true i id value o = refl
verdict-written false i id value o = refl

written_all-cons :
    (u : Bool) (id : ℕ) (value : List ℕ) (es : List Entry) (o : ObjectInstance)
    → written_all u es (written u id value o) ≡ written_all u ((id, value) ∷ es) o
unfolding store_all
written_all-cons true id value es o = refl
written_all-cons false id value es o = refl

written_all_one :
    (u : Bool) (id : ℕ) (value : List ℕ) (o : ObjectInstance)
    → written u id value o ≡ written_all u ((id, value) ∷ []) o
unfolding store_all
written_all_one true id value o = refl
written_all_one false id value o = refl

resources_loop-encode :
    (es : List Entry) (fuel : ℕ) (p : Platform) (before : List ℕ) (id : ℕ) (value : List ℕ)
    (o : ObjectInstance) (op : Operation) (u : Bool)
    → IsAmple p
    → length es < fuel
    → All (Fits o.resources) ((id, value) ∷ es)
    → let tlv = before ++ encode ((id, value) ∷ es) in
      resources_loop fuel p tlv (length tlv) (length before) o op u
      ≡ done (verdict u (last_id id es) o.resources, written_all u ((id, value) ∷ es) o)
unfolding encode last_id
resources_loop-encode es zero p before id value o op u a f h = absurd (omega arith)
resources_loop-encode [] (suc fuel) p before id value o op u a f ((hid, hv, k), h) =
    let t = tilv type_resource id value in
    let last : ltb (length before + length t) (length (before ++ (t ++ []))) ≡ false =
      ground (arith, length-append before (t ++ []), length-append t []) in
    rw
      (resources_loop-tilv fuel p before [] (length (before ++ (t ++ []))) id value o op u a hid hv
        k)
      (rw last (ap (λ x. done (verdict u id o.resources, x)) (written_all_one u id value o)))
resources_loop-encode ((i, v) ∷ es) (suc fuel) p before id value o op u a f ((hid, hv, k), h) =
    let t = tilv type_resource id value in
    let tlv = before ++ (t ++ encode ((i, v) ∷ es)) in
    let e : (before ++ t) ++ encode ((i, v) ∷ es) ≡ tlv = append_assoc before t _ in
    let l : length (before ++ t) ≡ length before + length t = length-append before t in
    let more : ltb (length before + length t) (length tlv) ≡ true = ground (
      arith,
      length-append before (t ++ encode ((i, v) ∷ es)),
      length-append t (encode ((i, v) ∷ es)),
      length-append (tilv type_resource i v) (encode es),
      length-tilv_bounds type_resource i v,
    ) in
    let w' = written u id value o in
    let ih =
      resources_loop-encode es fuel p (before ++ t) i v w' op u a (omega arith)
        (Fits-written u id value o ((i, v) ∷ es) h) in
    rw
      (resources_loop-tilv fuel p before (encode ((i, v) ∷ es)) (length tlv) id value o op u a hid
        hv k)
      (rw more (
        subst₂
          (λ x y.
            resources_loop fuel p x (length x) y w' op u
            ≡ done (verdict u (last_id i es) w'.resources, written_all u ((i, v) ∷ es) w'))
          e l ih
        ∙ ap₂ (λ e x. done (e, x)) (verdict-written u (last_id i es) id value o)
            (written_all-cons u id value ((i, v) ∷ es) o)))

length-encode : (es : List Entry) → length es ≤ length (encode es)
unfolding encode
length-encode [] = omega arith
length-encode ((i, v) ∷ es) = omega (
  arith,
  length-encode es,
  length-append (tilv type_resource i v) (encode es),
  length-tilv_bounds type_resource i v,
)

is_resource-encode :
    (id : ℕ) (value : List ℕ) (es : List Entry)
    → is_resource (encode ((id, value) ∷ es)) ≡ some true
unfolding is_resource encode tilv tlv_type
is_resource-encode id value es = ground (arith, mask_c0 (tlv_type type_resource id (length value)))

is_multiple_resource-encode :
    (id : ℕ) (value : List ℕ) (es : List Entry)
    → is_multiple_resource (encode ((id, value) ∷ es)) ≡ some false
unfolding is_multiple_resource encode tilv tlv_type
is_multiple_resource-encode id value es =
    ground (arith, mask_c0 (tlv_type type_resource id (length value)))

-- If allocations succeed, every entry fits a TLV, and the object instance has each identifier,
-- then reading the entries' TLVs, by PUT or by POST, turns on the last entry alone: if that one may
-- be written, there is no error, and the instance changes as the writes of all entries in their
-- order do, and in nothing else; if not, the error is `not_allowed` and nothing changes.
pub deserialize_resources-encode :
    (p : Platform) (id : ℕ) (value : List ℕ) (es : List Entry) (o : ObjectInstance) (op : Operation)
    → IsAmple p
    → All (Fits o.resources) ((id, value) ∷ es)
    → let tlv = encode ((id, value) ∷ es) in
      deserialize_resources p tlv (length tlv) o op
      ≡ done (
          if may_put (last_id id es) o.resources
          then (ok, record o { resources = store_all ((id, value) ∷ es) o.resources })
          else (not_allowed, o))
unfolding deserialize_resources
deserialize_resources-encode p id value es o op a h =
    let tlv = encode ((id, value) ∷ es) in
    let f : length es < suc (length tlv) = omega (arith, length-encode ((id, value) ∷ es)) in
    rw
      (
        is_resource-encode id value es,
        is_multiple_resource-encode id value es,
        resources_loop-encode es (suc (length tlv)) p [] id value o op false a f h,
      )
      (elim (Bool-cases (may_put (last_id id es) o.resources)) [
        | inl allowed ↦
            rw allowed (resources_loop-encode es (suc (length tlv)) p [] id value o op true a f h)
        | inr refused ↦ rw refused refl
      ])
