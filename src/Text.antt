-- ===== src/Text.antt =====
-- The number conversions of source/m2mstring.cpp. A character is its code, a string the list of
-- its characters without the terminating NUL.
pub mod Reverse
pub mod Decimal
pub mod Integer
pub mod Tests
use mbed_client.Common.{
  ℕ, zero, suc, ◌+◌, ◌-◌, ◌*◌, ◌/◌, ◌%◌, ◌^◌, Bool, true, false, List, [], ◌∷◌, ◌++◌, length, ltb,
  get_elem?, set, Option, none, some, if◌then◌else◌,
}
use mbed_client.Common.Int.{ℤ, pos, negsuc}

-- `c = s[i]; s[i] = s[j]; s[j] = c`, inside the array.
unfoldable pub exchange : List ℕ → ℕ → ℕ → List ℕ
exchange s i j = elim (get_elem? s i) [
  | none ↦ s
  | some c ↦ elim (get_elem? s j) [ none ↦ s | some d ↦ set (set s i d) j c ]
]

-- The loop of `reverse`, with fuel.
unfoldable pub reverse_loop : ℕ → List ℕ → ℕ → ℕ → List ℕ
reverse_loop zero s i j = s
reverse_loop (suc fuel) s i j =
    let next = reverse_loop fuel (exchange s i j) (i + 1) (j - 1) in if ltb i j then next else s

-- `j` starts at `length - 1`; for the empty array the code computes 2 ^ 32 - 1 there.
unfoldable pub reverse : List ℕ → List ℕ
reverse s = reverse_loop (length s) s 0 ((length s + 2 ^ 32 - 1) % 2 ^ 32)

-- The `do` loop of `itoa_c`, with fuel: an `int64_t` has 19 digits at most.
unfoldable pub digits_loop : ℕ → ℕ → List ℕ
digits_loop zero n = []
digits_loop (suc fuel) n =
    let more = digits_loop fuel (n / 10) in (n % 10 + 48) ∷ (if ltb 0 (n / 10) then more else [])

unfoldable pub magnitude : ℤ → ℕ
magnitude (pos n) = n
magnitude (negsuc n) = n + 1

unfoldable pub sign_text : ℤ → List ℕ
sign_text (pos n) = []
sign_text (negsuc n) = 45 ∷ []

unfoldable pub itoa_c : ℤ → List ℕ
unfolding magnitude sign_text
itoa_c n = reverse (digits_loop 19 (magnitude n) ++ sign_text n)
