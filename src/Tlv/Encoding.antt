-- ===== src/Tlv/Encoding.antt =====
-- What the serialiser writes, as functions of the resources alone.
use mbed_client.Common.{
  ℕ, ◌+◌, ◌%◌, ◌^◌, ◌≤◌, ◌<◌, ◌≡◌, true, List, ◌∷◌, ◌++◌, length, length-append, arith,
}
use mbed_client.Tlv.{Platform}
use mbed_client.Tlv.Serializer.{Out, serialize_id, serialize_length, tlv_type, serialize_tilv}

-- One TLV: type, identifier, length, value.
unfoldable pub tilv : ℕ → ℕ → List ℕ → List ℕ
tilv type id value =
    tlv_type type id (length value)
    ∷ (serialize_id id ++ (serialize_length (length value) ++ value))

abbrev pub put : List ℕ → Out → Out
put bs out = record { bytes = out.bytes ++ bs; size = out.size + length bs }

pub length-tilv :
    (type id : ℕ) (value : List ℕ)
    → length (tilv type id value)
      ≡ 1 + length (serialize_id id) + length (serialize_length (length value)) + length value
unfolding tilv
length-tilv type id value = omega (
  arith,
  length-append (serialize_id id) (serialize_length (length value) ++ value),
  length-append (serialize_length (length value)) value,
)

-- A TLV is two bytes longer than its value at least, and six at most.
pub length-tilv_bounds :
    (type id : ℕ) (value : List ℕ)
    → (length value + 2 ≤ length (tilv type id value))
      × (length (tilv type id value) ≤ length value + 6)
unfolding serialize_id serialize_length
length-tilv_bounds type id value = ground (arith, length-tilv type id value)

pub serialize_tilv_ok :
    (p : Platform) (type id : ℕ) (value : List ℕ) (out : Out)
    → ((n : ℕ) → p.malloc n ≡ true)
    → out.size + length (tilv type id value) < 2 ^ 32
    → serialize_tilv p type id value (length value) out ≡ (true, put (tilv type id value) out)
unfolding serialize_tilv tilv
serialize_tilv_ok p type id value out room fits = ground (
  arith,
  length-tilv type id value,
  room (
      (out.size
        + (1 + length (serialize_id id) + length (serialize_length (length value)) + length value))
      % 2 ^ 32),
)
