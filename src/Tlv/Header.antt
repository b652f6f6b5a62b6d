-- ===== src/Tlv/Header.antt =====
-- `TypeIdLength` and the type tests of source/m2mtlvdeserializer.cpp. The code reads without
-- looking at the size of the array: `none` stands for a read behind its end.
use mbed_client.Common.{
  ℕ, ◌+◌, ◌*◌, ◌%◌, ◌^◌, bit_and, Bool, List, Option, some, ◌>>=◌, get_elem?, ltb, ◌==◌,
  if◌then◌else◌,
}
use mbed_client.Tlv.{
  type_resource, type_multiple_resource, type_resource_instance, type_object_instance, id16,
  length8, length16, length24,
}

pub record TypeIdLength : Type 0 where
  pub offset : ℕ
  pub type : ℕ
  pub id : ℕ
  pub length : ℕ

-- The constructor.
unfoldable pub type_id_length : List ℕ → ℕ → Option TypeIdLength
type_id_length tlv offset = do
  b ← get_elem? tlv offset
  some (record { offset = offset; type = bit_and b 0xc0; id = 0; length = 0 })

unfoldable pub deserialise_id : List ℕ → ℕ → TypeIdLength → Option TypeIdLength
deserialise_id tlv id_length t = do
  b ← get_elem? tlv t.offset
  let t' = record t { id = bit_and b 0xff; offset = t.offset + 1 }
  if id_length == id16
      then (do
        c ← get_elem? tlv t'.offset
        some (record t' { id = (t'.id * 256 + bit_and c 0xff) % 2 ^ 16; offset = t'.offset + 1 }))
      else some t'

-- `_length = (_length << 8) + (_tlv[_offset++] & 0xFF)` under a condition.
unfoldable pub shift_in : Bool → List ℕ → TypeIdLength → Option TypeIdLength
shift_in more tlv t =
    if more
    then (do
      b ← get_elem? tlv t.offset
      some
          (record t { length = (t.length * 256 + bit_and b 0xff) % 2 ^ 32; offset = t.offset + 1 }))
    else some t

unfoldable pub first_length : Bool → List ℕ → TypeIdLength → Option TypeIdLength
first_length more tlv t =
    if more
    then (do
      b ← get_elem? tlv t.offset
      some (record t { length = bit_and b 0xff; offset = t.offset + 1 }))
    else some t

unfoldable pub deserialise_length : List ℕ → ℕ → TypeIdLength → Option TypeIdLength
unfolding first_length shift_in
deserialise_length tlv length_type t = do
  t1 ← first_length (ltb 0 length_type) tlv t
  t2 ← shift_in (ltb length8 length_type) tlv t1
  shift_in (ltb length16 length_type) tlv t2

unfoldable pub deserialize : List ℕ → TypeIdLength → Option TypeIdLength
unfolding deserialise_id deserialise_length
deserialize tlv t = do
  b ← get_elem? tlv t.offset
  let id_length = bit_and b id16
  let length_type = bit_and b length24
  let t' = record t { length = if 0 == length_type then bit_and b 0x07 else t.length }
  t'' ← deserialise_id tlv id_length (record t' { offset = t'.offset + 1 })
  deserialise_length tlv length_type t''

-- `TypeIdLength til(tlv, offset); til.deserialize();`
unfoldable pub read_til : List ℕ → ℕ → Option TypeIdLength
unfolding type_id_length deserialize
read_til tlv offset = do t ← type_id_length tlv offset; deserialize tlv t

-- The tests, at offset 0 of an array that is not NULL.
abbrev has_type : ℕ → List ℕ → Option Bool
has_type type tlv = do b ← get_elem? tlv 0; some (type == bit_and b type_resource)

unfoldable pub is_object_instance : List ℕ → Option Bool
is_object_instance = has_type type_object_instance

unfoldable pub is_resource : List ℕ → Option Bool
is_resource = has_type type_resource

unfoldable pub is_multiple_resource : List ℕ → Option Bool
is_multiple_resource = has_type type_multiple_resource

unfoldable pub is_resource_instance : List ℕ → Option Bool
is_resource_instance = has_type type_resource_instance

unfoldable pub instance_id : List ℕ → Option ℕ
unfolding read_til
instance_id tlv = do t ← read_til tlv 0; some t.id
