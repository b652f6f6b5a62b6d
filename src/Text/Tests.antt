-- ===== src/Text/Tests.antt =====
-- The theorems on the text functions at concrete inputs.
use mathlib.Core.List
use mbed_client.Common.{ℕ, ◌%◌, ◌^◌, ◌-◌, ◌≡◌, ◌≢◌, refl, true, List, [], ◌∷◌, some, none, arith}
use mbed_client.Common.Int.{negsuc}
use mbed_client.Text.{reverse, itoa_c, magnitude}
use mbed_client.Text.Reverse.{reverse-eq}
use mbed_client.Text.Decimal.{decimal_value, itoa_c-decimal_value}
use mbed_client.Text.Integer.{
  convert_array_to_integer, convert_integer_to_array,
  convert_integer_to_array-convert_array_to_integer, convert_integer_to_array_negative,
}

reverse-eq_example : reverse (1 ∷ 2 ∷ 3 ∷ []) ≡ List.reverse (1 ∷ 2 ∷ 3 ∷ [])
reverse-eq_example = reverse-eq (1 ∷ 2 ∷ 3 ∷ []) (omega arith) (omega arith)

itoa_c-decimal_value_example :
    (digits : List ℕ) × (itoa_c (negsuc 41) ≡ b'-' ∷ digits)
    × (decimal_value 0 digits ≡ magnitude (negsuc 41))
unfolding magnitude
itoa_c-decimal_value_example = itoa_c-decimal_value (negsuc 41) (omega arith)

convert_integer_to_array-convert_array_to_integer_example :
    (bytes : List ℕ) × (convert_integer_to_array (λ n. true) 70000 none ≡ some bytes)
    × (convert_array_to_integer bytes ≡ 70000)
convert_integer_to_array-convert_array_to_integer_example =
    convert_integer_to_array-convert_array_to_integer (λ n. true) 70000 refl (omega arith)

convert_integer_to_array_negative_example :
    (bytes : List ℕ) × (convert_integer_to_array (λ n. true) (2 ^ 64 - 1) none ≡ some bytes)
    × (convert_array_to_integer bytes ≡ (2 ^ 64 - 1) % 256)
    × ((2 ^ 64 - 1) % 256 ≢ 2 ^ 64 - 1)
convert_integer_to_array_negative_example =
    convert_integer_to_array_negative (λ n. true) (2 ^ 64 - 1) refl (omega arith) (omega arith)
