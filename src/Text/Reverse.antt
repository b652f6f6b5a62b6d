-- ===== src/Text/Reverse.antt =====
-- The in-place `reverse` of source/m2mstring.cpp against the reversal of lists.
use mathlib.Core.List
use mathlib.Core.List.{reverse-append, reverse-cons}
use mbed_client.Common.{
  ℕ, zero, suc, ◌+◌, ◌-◌, ◌%◌, ◌^◌, ◌≤◌, ◌<◌, ◌≡◌, refl, sym, ap, ◌∙◌, ◌⊎◌, inl, inr, List, [], ◌∷◌,
  ◌++◌, length, set, get_elem?, some, length-append, append_assoc, append-nil, arith,
}
use mbed_client.Text.{exchange, reverse_loop, reverse}

get_elem?-append_here : (xs ys : List ℕ) (c : ℕ) → get_elem? (xs ++ (c ∷ ys)) (length xs) ≡ some c
get_elem?-append_here [] ys c = refl
get_elem?-append_here (x ∷ xs) ys c = get_elem?-append_here xs ys c

set-append_here : (xs ys : List ℕ) (c d : ℕ) → set (xs ++ (c ∷ ys)) (length xs) d ≡ xs ++ (d ∷ ys)
set-append_here [] ys c d = refl
set-append_here (x ∷ xs) ys c d = ap (◌∷◌ x) (set-append_here xs ys c d)

exchange_ends :
    (xs m ys : List ℕ) (c d j : ℕ)
    → j ≡ length xs + 1 + length m
    → exchange (xs ++ (c ∷ (m ++ (d ∷ ys)))) (length xs) j ≡ xs ++ (d ∷ (m ++ (c ∷ ys)))
unfolding exchange
exchange_ends xs m ys c d j e =
    rw
      (
        exchange,
        get_elem?-append_here xs (m ++ (d ∷ ys)) c,
        at_j,
        set-append_here xs (m ++ (d ∷ ys)) c d,
      )
      after
  where
    place : (b : ℕ) → length (xs ++ (b ∷ m)) ≡ j
    place b = omega (arith, length-append xs (b ∷ m))

    at_j : get_elem? (xs ++ (c ∷ (m ++ (d ∷ ys)))) j ≡ some d
    at_j =
        rw (← place c, ← append_assoc xs (c ∷ m) (d ∷ ys))
          (get_elem?-append_here (xs ++ (c ∷ m)) ys d)

    after : set (xs ++ (d ∷ (m ++ (d ∷ ys)))) j c ≡ xs ++ (d ∷ (m ++ (c ∷ ys)))
    after =
        rw (← place d, ← append_assoc xs (d ∷ m) (d ∷ ys), ← append_assoc xs (d ∷ m) (c ∷ ys))
          (set-append_here (xs ++ (d ∷ m)) ys d c)

last_apart : (xs : List ℕ) → (xs ≡ []) ⊎ ((m : List ℕ) × (d : ℕ) × (xs ≡ m ++ (d ∷ [])))
last_apart [] = inl refl
last_apart (x ∷ xs) = elim (last_apart xs) [
  | inl e ↦ inr ([], x, ap (◌∷◌ x) e)
  | inr (m, d, e) ↦ inr (x ∷ m, d, ap (◌∷◌ x) e)
]

reverse_loop_stops : (fuel : ℕ) (s : List ℕ) (i j : ℕ) → j ≤ i → reverse_loop fuel s i j ≡ s
unfolding reverse_loop
reverse_loop_stops zero s i j h = refl
reverse_loop_stops (suc fuel) s i j h = ground arith

reverse_loop_round :
    (fuel : ℕ) (s : List ℕ) (i j : ℕ)
    → i < j
    → reverse_loop (suc fuel) s i j ≡ reverse_loop fuel (exchange s i j) (i + 1) (j - 1)
unfolding reverse_loop
reverse_loop_round fuel s i j h = ground arith

reverse_ends :
    (c d : ℕ) (m : List ℕ) → List.reverse (c ∷ (m ++ (d ∷ []))) ≡ d ∷ (List.reverse m ++ (c ∷ []))
reverse_ends c d m =
    reverse-cons c (m ++ (d ∷ [])) ∙ ap (λ x. x ++ (c ∷ [])) (reverse-append m (d ∷ []))

-- `mid` is what is still to be reversed.
reverse_loop-eq :
    (fuel : ℕ) (xs mid ys : List ℕ) (j : ℕ)
    → length mid ≤ fuel + 1
    → length xs + length mid ≡ j + 1
    → reverse_loop fuel (xs ++ (mid ++ ys)) (length xs) j ≡ xs ++ (List.reverse mid ++ ys)
reverse_loop-eq fuel xs [] ys j f e = reverse_loop_stops fuel (xs ++ ys) (length xs) j (omega arith)
reverse_loop-eq zero xs (c ∷ []) ys j f e =
    reverse_loop_stops zero (xs ++ (c ∷ ys)) (length xs) j (omega arith)
reverse_loop-eq zero xs (c ∷ b ∷ rest) ys j f e = absurd (omega arith)
reverse_loop-eq (suc fuel) xs (c ∷ mid) ys j f e = elim (last_apart mid) [
  | inl empty ↦ rw empty (
      reverse_loop_stops (suc fuel) (xs ++ (c ∷ ys)) (length xs) j (omega (arith, ap length empty)))
  | inr (m, d, ends) ↦
      let size = length-append m (d ∷ []) in
      let sized = ap length ends in
      let regroup : m ++ (d ∷ []) ++ ys ≡ m ++ (d ∷ ys) = append_assoc m (d ∷ []) ys in
      let swapped = exchange_ends xs m ys c d j (omega (arith, size, sized)) in
      let one_more = length-append xs (d ∷ []) in
      let round =
        reverse_loop_round fuel (xs ++ (c ∷ (m ++ (d ∷ ys)))) (length xs) j
          (omega (arith, size, sized)) in
      let ih =
        reverse_loop-eq fuel (xs ++ (d ∷ [])) m (c ∷ ys) (j - 1) (omega (arith, size, sized))
          (omega (arith, size, sized, one_more)) in
      rw (ends, reverse_ends c d m, regroup, round, swapped, ← one_more)
        (ap (λ x. reverse_loop fuel x (length (xs ++ (d ∷ []))) (j - 1))
            (sym (append_assoc xs (d ∷ []) (m ++ (c ∷ ys))))
          ∙ ih
          ∙ append_assoc xs (d ∷ []) (List.reverse m ++ (c ∷ ys))
          ∙ ap (λ x. xs ++ (d ∷ x)) (sym (append_assoc (List.reverse m) (c ∷ []) ys)))
]

-- On an array of 1 to 2 ^ 32 - 1 characters the swaps in place reverse it.
pub reverse-eq : (s : List ℕ) → 0 < length s → length s < 2 ^ 32 → reverse s ≡ List.reverse s
unfolding reverse
reverse-eq s h b =
    let last : (length s + 2 ^ 32 - 1) % 2 ^ 32 ≡ length s - 1 = omega arith in
    let loop = reverse_loop-eq (length s) [] s [] (length s - 1) (omega arith) (omega arith) in
    rw last (rw (append-nil, append-nil) at loop)
