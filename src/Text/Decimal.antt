-- ===== src/Text/Decimal.antt =====
-- `itoa_c` of source/m2mstring.cpp against the value of decimal digits.
use mathlib.Core.List
use mathlib.Core.List.{reverse-append, reverse-cons}
use mbed_client.Common.{
  if◌then◌else◌, ℕ, zero, suc, ◌+◌, ◌-◌, ◌*◌, ◌/◌, ◌%◌, ◌^◌, ◌≤◌, ◌<◌, ◌≡◌, refl, ap, ◌∙◌, List, [],
  ◌∷◌, ◌++◌, length, ltb, length-append, append-nil, arith, Bool-cases, inl, inr,
}
use native.Mathlib.Nat.{pow-suc}
use mbed_client.Common.Int.{ℤ, pos, negsuc, int_lt}
use mbed_client.Text.{digits_loop, magnitude, sign_text, itoa_c, reverse}
use mbed_client.Text.Reverse.{reverse-eq}

-- The value of decimal digits, most significant first, read on from `acc`.
unfoldable pub decimal_value : ℕ → List ℕ → ℕ
decimal_value acc [] = acc
decimal_value acc (c ∷ cs) = decimal_value (acc * 10 + (c - 48)) cs

decimal_value-append :
    (acc : ℕ) (xs ys : List ℕ)
    → decimal_value acc (xs ++ ys) ≡ decimal_value (decimal_value acc xs) ys
unfolding decimal_value
decimal_value-append acc [] ys = refl
decimal_value-append acc (x ∷ xs) ys = decimal_value-append (acc * 10 + (x - 48)) xs ys

decimal_value-digits :
    (fuel n : ℕ) → n < 10 ^ fuel → decimal_value 0 (List.reverse (digits_loop fuel n)) ≡ n
unfolding digits_loop decimal_value
decimal_value-digits zero n h = omega arith
decimal_value-digits (suc fuel) n h = elim (Bool-cases (ltb 0 (n / 10))) [
  | inl more ↦
      rw (more, reverse-cons (n % 10 + 48) (digits_loop fuel (n / 10)))
        (decimal_value-append 0 (List.reverse (digits_loop fuel (n / 10))) ((n % 10 + 48) ∷ [])
          ∙ omega (arith, decimal_value-digits fuel (n / 10) (omega (arith, pow-suc 10 fuel))))
  | inr last ↦ rw last (ground arith)
]

length-digits_loop : (fuel n : ℕ) → length (digits_loop fuel n) ≤ fuel
unfolding digits_loop
length-digits_loop zero n = omega arith
length-digits_loop (suc fuel) n = ground (arith, length-digits_loop fuel (n / 10))

digits_loop_some : (fuel n : ℕ) → 0 < length (digits_loop (suc fuel) n)
unfolding digits_loop
digits_loop_some fuel n = omega arith

sign_text-lem : (z : ℤ) → sign_text z ≡ (if int_lt z (pos 0) then b'-' ∷ [] else [])
unfolding sign_text
sign_text-lem (pos n) = ground arith
sign_text-lem (negsuc n) = refl

-- The text of an `int64_t` but the least is its sign and then characters whose decimal value is
-- its magnitude.
pub itoa_c-decimal_value :
    (z : ℤ)
    → magnitude z < 2 ^ 63
    → (digits : List ℕ) × (itoa_c z ≡ (if int_lt z (pos 0) then b'-' ∷ [] else []) ++ digits)
      × (decimal_value 0 digits ≡ magnitude z)
unfolding itoa_c
itoa_c-decimal_value (pos n) h =
    let ds = digits_loop 19 n in
    (
      List.reverse ds,
      ap reverse (append-nil ds)
          ∙ reverse-eq ds (digits_loop_some 18 n) (omega (arith, length-digits_loop 19 n))
          ∙ ap (λ s. s ++ List.reverse ds) (sign_text-lem (pos n)),
      decimal_value-digits 19 n (omega arith),
    )
itoa_c-decimal_value (negsuc n) h =
    let ds = digits_loop 19 (n + 1) in
    let size = length-append ds (45 ∷ []) in
    (
      List.reverse ds,
      reverse-eq (ds ++ (45 ∷ [])) (omega (arith, size))
            (omega (arith, size, length-digits_loop 19 (n + 1)))
          ∙ reverse-append ds (45 ∷ []),
      decimal_value-digits 19 (n + 1) (omega arith),
    )

length-reverse : (xs : List ℕ) → length (List.reverse xs) ≡ length xs
length-reverse [] = refl
length-reverse (x ∷ xs) =
    rw (reverse-cons x xs)
      (omega (arith, length-append (List.reverse xs) (x ∷ []), length-reverse xs))

digits_loop-le : (fuel k n : ℕ) → n < 10 ^ suc k → length (digits_loop fuel n) ≤ suc k
unfolding digits_loop
digits_loop-le zero k n h = omega arith
digits_loop-le (suc fuel) zero n h = ground (arith, digits_loop-le fuel zero (n / 10))
digits_loop-le (suc fuel) (suc k) n h =
    ground (arith, digits_loop-le fuel k (n / 10) (omega (arith, pow-suc 10 (suc k))))

positive : (k : ℕ) → 0 < 10 ^ k
positive zero = omega arith
positive (suc k) = omega (arith, pow-suc 10 k, positive k)

digits_loop-ge : (fuel k n : ℕ) → k < fuel → 10 ^ k ≤ n → suc k ≤ length (digits_loop fuel n)
unfolding digits_loop
digits_loop-ge zero k n f h = absurd (omega arith)
digits_loop-ge (suc fuel) zero n f h = omega arith
digits_loop-ge (suc fuel) (suc k) n f h =
    let smaller : 10 ^ k ≤ n / 10 = omega (arith, pow-suc 10 k) in
    ground (arith, digits_loop-ge fuel k (n / 10) (omega arith) smaller, positive k)

length-itoa_c : (n : ℕ) → length (itoa_c (pos n)) ≡ length (digits_loop 19 n)
unfolding itoa_c
length-itoa_c n =
    let ds = digits_loop 19 n in
    ap length (
      ap reverse (append-nil ds)
      ∙ reverse-eq ds (digits_loop_some 18 n) (omega (arith, length-digits_loop 19 n)))
    ∙ length-reverse ds

pub itoa_c_bound : (z : ℤ) → length (itoa_c z) ≤ 20
unfolding itoa_c
itoa_c_bound (pos n) = omega (arith, length-itoa_c n, length-digits_loop 19 n)
itoa_c_bound (negsuc n) =
    let ds = digits_loop 19 (n + 1) in
    let size = length-append ds (45 ∷ []) in
    let short = length-digits_loop 19 (n + 1) in
    let turned =
      ap length (reverse-eq (ds ++ (45 ∷ [])) (omega (arith, size)) (omega (arith, size, short)))
      ∙ length-reverse (ds ++ (45 ∷ [])) in
    omega (arith, turned, size, short)

-- A number of 16 bits has one to five digits, and five if it is 10000 or more.
pub itoa_c_size :
    (n : ℕ)
    → n < 65536
    → (length (itoa_c (pos n)) ≤ 5)
      × (1 ≤ length (itoa_c (pos n)))
      × (10000 ≤ n → 5 ≤ length (itoa_c (pos n)))
      × (n < 10000 → length (itoa_c (pos n)) ≤ 4)
itoa_c_size n h =
    let e = length-itoa_c n in
    (
      omega (arith, e, digits_loop-le 19 4 n (omega arith)),
      omega (arith, e, digits_loop_some 18 n),
      λ big. omega (arith, e, digits_loop-ge 19 4 n (omega arith) (omega arith)),
      λ small. omega (arith, e, digits_loop-le 19 3 n (omega arith)),
    )
