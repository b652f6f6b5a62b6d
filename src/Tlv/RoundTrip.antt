-- ===== src/Tlv/RoundTrip.antt =====
-- Reading back the header of a TLV that the serialiser wrote, wherever it stands in the array.
use mbed_client.Common.{
  ℕ, suc, ◌+◌, ◌*◌, ◌/◌, ◌%◌, ◌^◌, ◌<◌, ◌≡◌, refl, bit_and, List, [], ◌∷◌, ◌++◌, length, get_elem?,
  ltb, ◌==◌, if◌then◌else◌, some, length-append, arith, append_assoc,
}
use mathlib.Core.Path.{subst₂}
use mbed_client.Common.Bits.{mask_7, mask_ff, mask_ff00, mask_ff0000, mask_18, mask_20, mask_c0}
use mbed_client.Tlv.Serializer.{serialize_id, serialize_length, tlv_type}
use mbed_client.Tlv.Header.{
  TypeIdLength, deserialise_id, deserialise_length, first_length, shift_in, read_til, deserialize,
  type_id_length,
}
use mbed_client.Tlv.Encoding.{tilv}

-- The bytes stand in the array from the offset on.
abbrev Stands : List ℕ → ℕ → List ℕ → Type 0
Stands tlv o [] = Unit {0}
Stands tlv o (b ∷ bs) = (get_elem? tlv o ≡ some b) × Stands tlv (o + 1) bs

get_elem?-append_here :
    (before rest : List ℕ) (b : ℕ) → get_elem? (before ++ (b ∷ rest)) (length before) ≡ some b
get_elem?-append_here [] rest b = refl
get_elem?-append_here (x ∷ xs) rest b = get_elem?-append_here xs rest b

pub Stands-append : (before bs rest : List ℕ) → Stands (before ++ (bs ++ rest)) (length before) bs
Stands-append before [] rest = tt
Stands-append before (b ∷ bs) rest = (
  get_elem?-append_here before (bs ++ rest) b,
  subst₂ (λ tlv o. Stands tlv o bs) moved one_more (Stands-append (before ++ (b ∷ [])) bs rest),
)
  where
    one_more : length (before ++ (b ∷ [])) ≡ length before + 1
    one_more = length-append before (b ∷ [])

    moved : (before ++ (b ∷ [])) ++ (bs ++ rest) ≡ before ++ ((b ∷ bs) ++ rest)
    moved = rw append_assoc

Stands-split :
    (tlv : List ℕ) (o : ℕ) (xs ys : List ℕ)
    → Stands tlv o (xs ++ ys)
    → Stands tlv o xs × Stands tlv (o + length xs) ys
Stands-split tlv o [] ys h = (tt, rw (let e : o + 0 ≡ o = omega arith in e) h)
Stands-split tlv o (x ∷ xs) ys h =
    let (front, back) = Stands-split tlv (o + 1) xs ys h.1 in
    ((h.0, front), rw (let e : o + suc (length xs) ≡ o + 1 + length xs = omega arith in e) back)

abbrev id_flag : ℕ → ℕ
id_flag id = if ltb id 256 then 0 else 32

abbrev length_flag : ℕ → ℕ
length_flag n = if ltb n 8 then 0 else if ltb n 256 then 8 else if ltb n 65536 then 16 else 24

deserialise_id_serialize :
    (tlv : List ℕ) (id : ℕ) (t : TypeIdLength)
    → id < 65536
    → Stands tlv t.offset (serialize_id id)
    → deserialise_id tlv (id_flag id) t
      ≡ some (record t { id = id; offset = t.offset + length (serialize_id id) })
unfolding deserialise_id serialize_id
deserialise_id_serialize tlv id t h s =
    ground
      (arith, mask_ff id, mask_ff00 id, mask_ff (bit_and id 255), mask_ff (bit_and id 0xff00 / 256))

deserialise_length_serialize :
    (tlv : List ℕ) (n : ℕ) (t : TypeIdLength)
    → (n < 8 → t.length ≡ n)
    → Stands tlv t.offset (serialize_length n)
    → deserialise_length tlv (length_flag n) t
      ≡ some (record t { length = n % 2 ^ 24; offset = t.offset + length (serialize_length n) })
unfolding deserialise_length first_length shift_in serialize_length
deserialise_length_serialize tlv n t small s = ground (
  arith,
  mask_ff n,
  mask_ff00 n,
  mask_ff0000 n,
  mask_ff (bit_and n 255),
  mask_ff (bit_and n 0xff00 / 256),
  mask_ff (bit_and n 0xff0000 / 65536),
)

tlv_type_fields :
    (t id n : ℕ)
    → t < 4
    → (bit_and (tlv_type (t * 64) id n) 0xc0 ≡ t * 64)
      × (bit_and (tlv_type (t * 64) id n) 0x20 ≡ id_flag id)
      × (bit_and (tlv_type (t * 64) id n) 0x18 ≡ length_flag n)
      × (n < 8 → bit_and (tlv_type (t * 64) id n) 7 ≡ n)
unfolding tlv_type
tlv_type_fields t id n h = ground (
  arith,
  mask_c0 (tlv_type (t * 64) id n),
  mask_20 (tlv_type (t * 64) id n),
  mask_18 (tlv_type (t * 64) id n),
  mask_7 (tlv_type (t * 64) id n),
)

read_til-Stands :
    (tlv : List ℕ) (o t id n : ℕ)
    → t < 4
    → id < 65536
    → get_elem? tlv o ≡ some (tlv_type (t * 64) id n)
    → Stands tlv (o + 1) (serialize_id id)
    → Stands tlv (o + 1 + length (serialize_id id)) (serialize_length n)
    → read_til tlv o
      ≡ some (record {
        offset = o + 1 + length (serialize_id id) + length (serialize_length n);
        type = t * 64;
        id = id;
        length = n % 2 ^ 24;
      })
unfolding read_til type_id_length deserialize
read_til-Stands tlv o t id n ht hid head ids lengths =
    let (is_type, is_id, is_length, small) = tlv_type_fields t id n ht in
    let first : ℕ = if 0 == length_flag n then bit_and (tlv_type (t * 64) id n) 7 else 0 in
    let start : TypeIdLength = record { offset = o + 1; type = t * 64; id = 0; length = first } in
    let short : n < 8 → first ≡ n = λ h. ground (arith, small h) in
    rw (head, head, is_type, is_id, is_length)
      (rw (deserialise_id_serialize tlv id start hid ids) (
        deserialise_length_serialize tlv n
          (record start { id = id; offset = o + 1 + length (serialize_id id) }) short lengths))

-- Wherever the TLV of an identifier below 2 ^ 16 stands in the array, `TypeIdLength` reads its type
-- and identifier, the length of its value modulo 2 ^ 24, and the offset of its value.
pub read_til-tilv :
    (before rest : List ℕ) (t id : ℕ) (value : List ℕ)
    → t < 4
    → id < 65536
    → read_til (before ++ (tilv (t * 64) id value ++ rest)) (length before)
      ≡ some (record {
        offset =
            length before + 1 + length (serialize_id id) + length (serialize_length (length value));
        type = t * 64;
        id = id;
        length = length value % 2 ^ 24;
      })
unfolding tilv
read_til-tilv before rest t id value ht hid =
    let sid = serialize_id id in
    let slen = serialize_length (length value) in
    let all = Stands-append before (tilv (t * 64) id value) rest in
    let tlv = before ++ (tilv (t * 64) id value ++ rest) in
    let (ids, more) = Stands-split tlv (length before + 1) sid (slen ++ value) all.1 in
    let (lengths, values) = Stands-split tlv (length before + 1 + length sid) slen value more in
    read_til-Stands tlv (length before) t id (length value) ht hid all.0 ids lengths
