-- ===== src/Common/Bits.antt =====
-- Masks as arithmetic: on one byte by a table, on any number digit by digit.
use Prim.Native.Nat.{
  ℕ, zero, suc, ◌+◌, ◌*◌, ◌/◌, ◌%◌, ◌≤◌, min, max, bit_and, bit_or, digits, bit_and-bitwise,
  bit_or-bitwise,
}
use mathlib.Core.Path.{◌≡◌, refl, ◌∙◌}
use native.Mathlib.Omega.{arith}

-- The bound that `digits` recurs on does not matter once it reaches the first number.
digits_bound :
    (z : ℕ → ℕ) (f : ℕ → ℕ → ℕ) (k l a b : ℕ) → a ≤ k → a ≤ l → digits z f k a b ≡ digits z f l a b
digits_bound z f zero l (suc a) b h g = absurd (omega arith)
digits_bound z f (suc k) zero (suc a) b h g = absurd (omega arith)
digits_bound z f zero zero zero b h g = refl
digits_bound z f zero (suc l) zero b h g = refl
digits_bound z f (suc k) zero zero b h g = refl
digits_bound z f (suc k) (suc l) zero b h g = refl
digits_bound z f (suc k) (suc l) (suc a) b h g =
    omega (arith, digits_bound z f k l (suc a / 2) (b / 2) (omega arith) (omega arith))

-- The lowest binary digit of a mask.
mask_digit : (a m : ℕ) → bit_and a m ≡ bit_and (a / 2) (m / 2) * 2 + min (a % 2) (m % 2)
mask_digit zero m = omega (arith, bit_and-bitwise 0 m, bit_and-bitwise 0 (m / 2))
mask_digit (suc a) m = omega (
  arith,
  bit_and-bitwise (suc a) m,
  bit_and-bitwise (suc a / 2) (m / 2),
  digits_bound (λ x. zero) min a (suc a / 2) (suc a / 2) (m / 2) (omega arith) (omega arith),
)

mask_none_below : (k a : ℕ) → a ≤ k → bit_and a 0 ≡ 0
mask_none_below k zero h = refl
mask_none_below zero (suc a) h = absurd (omega arith)
mask_none_below (suc k) (suc a) h =
    omega (arith, mask_digit (suc a) 0, mask_none_below k (suc a / 2) (omega arith))

mask_1 : (a : ℕ) → bit_and a 1 ≡ a % 2
mask_1 a = omega (arith, mask_digit a 1, mask_none_below (a / 2) (a / 2) (omega arith))

mask_3 : (a : ℕ) → bit_and a 3 ≡ a % 4
mask_3 a = omega (arith, mask_digit a 3, mask_1 (a / 2))

pub mask_7 : (a : ℕ) → bit_and a 7 ≡ a % 8
mask_7 a = omega (arith, mask_digit a 7, mask_3 (a / 2))

mask_f : (a : ℕ) → bit_and a 0xf ≡ a % 16
mask_f a = omega (arith, mask_digit a 0xf, mask_7 (a / 2))

mask_1f : (a : ℕ) → bit_and a 0x1f ≡ a % 32
mask_1f a = omega (arith, mask_digit a 0x1f, mask_f (a / 2))

mask_3f : (a : ℕ) → bit_and a 0x3f ≡ a % 64
mask_3f a = omega (arith, mask_digit a 0x3f, mask_1f (a / 2))

mask_7f : (a : ℕ) → bit_and a 0x7f ≡ a % 128
mask_7f a = omega (arith, mask_digit a 0x7f, mask_3f (a / 2))

pub mask_ff : (a : ℕ) → bit_and a 0xff ≡ a % 256
mask_ff a = omega (arith, mask_digit a 0xff, mask_7f (a / 2))

-- An even mask skips a digit.
mask_even : (a m : ℕ) → bit_and a (m * 2) ≡ bit_and (a / 2) m * 2
mask_even a m = omega (arith, mask_digit a (m * 2), even_half)
  where
    even_half : bit_and (a / 2) (m * 2 / 2) ≡ bit_and (a / 2) m
    even_half = rw (let e : m * 2 / 2 ≡ m = omega arith in e)

mask_even_2 : (a m : ℕ) → bit_and a (m * 2 * 2) ≡ bit_and (a / 4) m * 4
mask_even_2 a m = mask_even a (m * 2) ∙ omega (arith, mask_even (a / 2) m, quarter)
  where
    quarter : bit_and (a / 2 / 2) m ≡ bit_and (a / 4) m
    quarter = rw (let e : a / 2 / 2 ≡ a / 4 = omega arith in e)

mask_even_4 : (a m : ℕ) → bit_and a (m * 2 * 2 * 2 * 2) ≡ bit_and (a / 16) m * 16
mask_even_4 a m = mask_even_2 a (m * 2 * 2) ∙ omega (arith, mask_even_2 (a / 4) m, sixteenth)
  where
    sixteenth : bit_and (a / 4 / 4) m ≡ bit_and (a / 16) m
    sixteenth = rw (let e : a / 4 / 4 ≡ a / 16 = omega arith in e)

mask_even_8 : (a m : ℕ) → bit_and a (m * 2 * 2 * 2 * 2 * 2 * 2 * 2 * 2) ≡ bit_and (a / 256) m * 256
mask_even_8 a m = mask_even_4 a (m * 2 * 2 * 2 * 2) ∙ omega (arith, mask_even_4 (a / 16) m, byte)
  where
    byte : bit_and (a / 16 / 16) m ≡ bit_and (a / 256) m
    byte = rw (let e : a / 16 / 16 ≡ a / 256 = omega arith in e)

pub mask_ff00 : (a : ℕ) → bit_and a 0xff00 / 256 ≡ a / 256 % 256
mask_ff00 a = omega (arith, mask_even_8 a 0xff, mask_ff (a / 256))

pub mask_ff0000 : (a : ℕ) → bit_and a 0xff0000 / 65536 ≡ a / 65536 % 256
mask_ff0000 a =
    omega (arith, mask_even_8 a 0xff00, mask_even_8 (a / 256) 0xff, mask_ff (a / 256 / 256))

pub mask_18 : (a : ℕ) → bit_and a 0x18 ≡ a / 8 % 4 * 8
mask_18 a = omega (arith, mask_even a 0xc, mask_even_2 (a / 2) 3, mask_3 (a / 2 / 4))

pub mask_20 : (a : ℕ) → bit_and a 0x20 ≡ a / 32 % 2 * 32
mask_20 a = omega (arith, mask_even_4 a 2, mask_even (a / 16) 1, mask_1 (a / 16 / 2))

pub mask_c0 : (a : ℕ) → bit_and a 0xc0 ≡ a / 64 % 4 * 64
mask_c0 a = omega (arith, mask_even_4 a 0xc, mask_even_2 (a / 16) 3, mask_3 (a / 16 / 4))

pub mask_8 : (a : ℕ) → bit_and a 8 ≡ a / 8 % 2 * 8
mask_8 a = omega (arith, mask_even a 4, mask_even_2 (a / 2) 1, mask_1 (a / 2 / 4))

-- The lowest binary digit of a union, and its digit of weight 4.
or_digit : (a b : ℕ) → bit_or a b ≡ bit_or (a / 2) (b / 2) * 2 + max (a % 2) (b % 2)
or_digit zero b = omega (arith, bit_or-bitwise 0 b, bit_or-bitwise 0 (b / 2))
or_digit (suc a) b = omega (
  arith,
  bit_or-bitwise (suc a) b,
  bit_or-bitwise (suc a / 2) (b / 2),
  digits_bound (λ x. x) max a (suc a / 2) (suc a / 2) (b / 2) (omega arith) (omega arith),
)

pub or_4 : (a b : ℕ) → bit_or a b / 4 % 2 ≡ max (a / 4 % 2) (b / 4 % 2)
or_4 a b = omega (arith, or_digit a b, or_digit (a / 2) (b / 2), or_digit (a / 2 / 2) (b / 2 / 2))

pub mask_4 : (a : ℕ) → bit_and 4 a ≡ a / 4 % 2 * 4
mask_4 a = omega (
  arith,
  mask_digit 4 a,
  mask_digit 2 (a / 2),
  mask_digit 1 (a / 2 / 2),
  mask_digit 0 (a / 2 / 2 / 2),
  bit_and-bitwise 0 (a / 2 / 2 / 2),
)
