-- ===== src/Text/Integer.antt =====
-- `convert_integer_to_array` and `convert_array_to_integer` of source/m2mstring.cpp. An `int64_t`
-- is its bit pattern, below 2 ^ 64; the pattern of a negative number is 2 ^ 63 or more.
use mbed_client.Common.{
  ℕ, zero, suc, ◌+◌, ◌*◌, ◌/◌, ◌%◌, ◌^◌, ◌≤◌, ◌<◌, ◌≡◌, ◌≢◌, refl, Bool, true, ◌||◌, List, [], ◌∷◌,
  length, ltb, leb, if◌then◌else◌, arith, Option, none, some,
}

-- The loop over the bytes; `temp_64` wraps. The shift is defined for up to eight bytes.
unfoldable pub array_loop : ℕ → List ℕ → ℕ
array_loop temp_64 [] = temp_64
array_loop temp_64 (b ∷ bs) = array_loop ((temp_64 + b * 2 ^ (length bs * 8)) % 2 ^ 64) bs

unfoldable pub convert_array_to_integer : List ℕ → ℕ
unfolding array_loop
convert_array_to_integer value = array_loop 0 value

-- `value < bound`, of signed numbers.
abbrev pub below : ℕ → ℕ → Bool
below value bound = leb (2 ^ 63) value || ltb value bound

unfoldable pub array_size : ℕ → ℕ
array_size value =
    if below value 0xff
    then 1
    else if below value 0xffff
    then 2
    else if below value 0xffffff
    then 3
    else if below value 0xffffffff
    then 4
    else if below value 0xffffffffff
    then 5
    else if below value 0xffffffffffff
    then 6
    else if below value 0xffffffffffffff
    then 7
    else 8

-- `buffer[i] = (value >> ((size - i - 1) * 8))` for the bytes that are left; the low byte of the
-- shifted pattern is the same for an arithmetic shift, as no byte of the sign is reached.
unfoldable pub integer_bytes : ℕ → ℕ → List ℕ
integer_bytes zero value = []
integer_bytes (suc left) value = (value / 2 ^ (left * 8)) % 256 ∷ integer_bytes left value

-- The value is read from `array` if one is given. `none` stands for a failed allocation.
unfoldable pub convert_integer_to_array : (ℕ → Bool) → ℕ → Option (List ℕ) → Option (List ℕ)
unfolding array_size integer_bytes convert_array_to_integer
convert_integer_to_array malloc value array =
    let v : ℕ = elim array [ none ↦ value | some bytes ↦ convert_array_to_integer bytes ] in
    if malloc (array_size v) then some (integer_bytes (array_size v) v) else none

-- Reading back as many bytes.
read_back_1 : (v : ℕ) → array_loop 0 (integer_bytes 1 v) ≡ v % 256
unfolding array_loop integer_bytes
read_back_1 v = omega arith

read_back_2 : (v : ℕ) → v < 2 ^ 16 → array_loop 0 (integer_bytes 2 v) ≡ v
unfolding array_loop integer_bytes
read_back_2 v h = omega arith

read_back_3 : (v : ℕ) → v < 2 ^ 24 → array_loop 0 (integer_bytes 3 v) ≡ v
unfolding array_loop integer_bytes
read_back_3 v h = omega arith

read_back_4 : (v : ℕ) → v < 2 ^ 32 → array_loop 0 (integer_bytes 4 v) ≡ v
unfolding array_loop integer_bytes
read_back_4 v h = omega arith

read_back_5 : (v : ℕ) → v < 2 ^ 40 → array_loop 0 (integer_bytes 5 v) ≡ v
unfolding array_loop integer_bytes
read_back_5 v h = omega arith

read_back_6 : (v : ℕ) → v < 2 ^ 48 → array_loop 0 (integer_bytes 6 v) ≡ v
unfolding array_loop integer_bytes
read_back_6 v h = omega arith

read_back_7 : (v : ℕ) → v < 2 ^ 56 → array_loop 0 (integer_bytes 7 v) ≡ v
unfolding array_loop integer_bytes
read_back_7 v h = omega arith

read_back_8 : (v : ℕ) → v < 2 ^ 64 → array_loop 0 (integer_bytes 8 v) ≡ v
unfolding array_loop integer_bytes
read_back_8 v h = omega arith

read_back : (v : ℕ) → v < 2 ^ 63 → array_loop 0 (integer_bytes (array_size v) v) ≡ v
unfolding array_size
read_back v h = ground (
  arith,
  read_back_1 v,
  read_back_2 v,
  read_back_3 v,
  read_back_4 v,
  read_back_5 v,
  read_back_6 v,
  read_back_7 v,
  read_back_8 v,
)

array_size_negative : (v : ℕ) → 2 ^ 63 ≤ v → array_size v ≡ 1
unfolding array_size
array_size_negative v h = ground arith

-- If the allocation succeeds, an integer that is not negative is read back from its array.
pub convert_integer_to_array-convert_array_to_integer :
    (malloc : ℕ → Bool) (v : ℕ)
    → malloc (array_size v) ≡ true
    → v < 2 ^ 63
    → (bytes : List ℕ) × (convert_integer_to_array malloc v none ≡ some bytes)
      × (convert_array_to_integer bytes ≡ v)
unfolding convert_integer_to_array
convert_integer_to_array-convert_array_to_integer malloc v room h =
    (integer_bytes (array_size v) v, rw room refl, read_back v h)

-- If the allocation succeeds, the array of a negative integer is read back as its lowest byte
-- alone, which is not the integer.
pub convert_integer_to_array_negative :
    (malloc : ℕ → Bool) (v : ℕ)
    → malloc 1 ≡ true
    → 2 ^ 63 ≤ v
    → v < 2 ^ 64
    → (bytes : List ℕ) × (convert_integer_to_array malloc v none ≡ some bytes)
      × (convert_array_to_integer bytes ≡ v % 256)
      × (v % 256 ≢ v)
unfolding convert_integer_to_array
convert_integer_to_array_negative malloc v room h b =
    (integer_bytes 1 v, rw (array_size_negative v h, room) refl, read_back_1 v, λ e. omega arith)
