-- ===== src/Vector/Contents.antt =====
-- What the operations of the vector do to the elements it contains.
use mbed_client.Common.{
  ℕ, zero, suc, ◌+◌, ◌-◌, ◌*◌, ◌≤◌, ◌<◌, ◌≡◌, refl, sym, ap, ◌∙◌, true, false, List, [], ◌∷◌, ◌++◌,
  length, get_elem?, set, take, ltb, ◌==◌, arith, Bool-cases, Option-cases, inl, inr,
}
use mbed_client.Vector.{
  Vector, contents, copy_elements, shift, erase, new_array, reserve, push_back,
}

-- The list without its element at a position.
abbrev pub remove_at : {A : Type 0} → ℕ → List A → List A
remove_at i [] = []
remove_at zero (x ∷ xs) = xs
remove_at (suc i) (x ∷ xs) = x ∷ remove_at i xs

-- The size is within the capacity, and the capacity is what is allocated.
abbrev pub IsVector : {A : Type 0} → Vector A → Type 0
IsVector v = (v.size ≤ v.capacity) × (length v.object_template ≡ v.capacity)

module _ {A : Type 0} where
  length-set : (xs : List A) (k : ℕ) (x : A) → length (set xs k x) ≡ length xs
  length-set [] k x = refl
  length-set (y ∷ xs) zero x = refl
  length-set (y ∷ xs) (suc k) x = ap suc (length-set xs k x)

  take-set :
      (xs : List A) (k : ℕ) (x : A)
      → k < length xs
      → take (suc k) (set xs k x) ≡ take k xs ++ (x ∷ [])
  take-set [] k x h = absurd (omega arith)
  take-set (y ∷ xs) zero x h = refl
  take-set (y ∷ xs) (suc k) x h = ap (◌∷◌ y) (take-set xs k x (omega arith))

  length-copy_elements : (n : ℕ) (old new : List A) → length (copy_elements n old new) ≡ length new
  unfolding copy_elements
  length-copy_elements zero old new = refl
  length-copy_elements (suc n) [] new = refl
  length-copy_elements (suc n) (x ∷ old) [] = refl
  length-copy_elements (suc n) (x ∷ old) (y ∷ new) = ap suc (length-copy_elements n old new)

  take-copy_elements :
      (n : ℕ) (old new : List A)
      → n ≤ length old
      → n ≤ length new
      → take n (copy_elements n old new) ≡ take n old
  unfolding copy_elements
  take-copy_elements zero old new h g = refl
  take-copy_elements (suc n) [] new h g = absurd (omega arith)
  take-copy_elements (suc n) (x ∷ old) [] h g = absurd (omega arith)
  take-copy_elements (suc n) (x ∷ old) (y ∷ new) h g =
      ap (◌∷◌ x) (take-copy_elements n old new (omega arith) (omega arith))

  shift-suc : (n k : ℕ) (x : A) (xs : List A) → shift n (suc k) (x ∷ xs) ≡ x ∷ shift n k xs
  unfolding shift
  shift-suc zero k x xs = refl
  shift-suc (suc n) k x xs = elim (Option-cases (get_elem? xs (suc k))) [
    | inl missing ↦ rw (missing, shift) refl
    | inr (y, e) ↦ rw (e, shift) (shift-suc n (suc k) x (set xs k y))
  ]

  take-shift_front :
      (n : ℕ) (x : A) (xs : List A) → n ≤ length xs → take n (shift n 0 (x ∷ xs)) ≡ take n xs
  unfolding shift
  take-shift_front zero x xs h = refl
  take-shift_front (suc n) x [] h = absurd (omega arith)
  take-shift_front (suc n) x (y ∷ xs) h =
      ap (take (suc n)) (shift-suc n 0 y (y ∷ xs))
      ∙ ap (◌∷◌ y) (take-shift_front n y xs (omega arith))

  take-shift :
      (n k : ℕ) (xs : List A)
      → n + k < length xs
      → take (n + k) (shift n k xs) ≡ remove_at k (take (suc (n + k)) xs)
  take-shift n k [] h = absurd (omega arith)
  take-shift n zero (x ∷ xs) h =
      rw (let e : n + 0 ≡ n = omega arith in e) (take-shift_front n x xs (omega arith))
  take-shift n (suc k) (x ∷ xs) h =
      rw (let e : n + suc k ≡ suc (n + k) = omega arith in e, shift-suc n k x xs)
        (ap (◌∷◌ x) (take-shift n k xs (omega arith)))

  length-shift : (n k : ℕ) (xs : List A) → length (shift n k xs) ≡ length xs
  unfolding shift
  length-shift zero k xs = refl
  length-shift (suc n) k xs = elim (Option-cases (get_elem? xs (suc k))) [
    | inl missing ↦ rw (missing, shift) refl
    | inr (y, e) ↦ rw (e, shift) (length-shift n (suc k) (set xs k y) ∙ length-set xs k y)
  ]

  length-new_array : (fresh : A) (n : ℕ) → length (new_array fresh n) ≡ n
  unfolding new_array
  length-new_array fresh zero = refl
  length-new_array fresh (suc n) = ap suc (length-new_array fresh n)

  -- A list with room: what `push_back` writes into.
  reserve-contents :
      (fresh : A) (n : ℕ) (v : Vector A)
      → IsVector v
      → v.size ≤ n
      → IsVector (reserve fresh n v)
        × (contents (reserve fresh n v) ≡ contents v)
        × ((reserve fresh n v).capacity ≡ n)
        × ((reserve fresh n v).size ≡ v.size)
  unfolding reserve
  reserve-contents fresh n v good fits =
      let size =
        length-copy_elements v.size v.object_template (new_array fresh n)
        ∙ length-new_array fresh n in
      rw (let e : ltb n v.size ≡ false = ground arith in e) (
        (fits, size),
        take-copy_elements v.size v.object_template (new_array fresh n)
            (omega (arith, good.0, good.1)) (omega (arith, fits, length-new_array fresh n)),
        refl,
        refl,
      )

  place-contents :
      (x : A) (v : Vector A)
      → IsVector v
      → v.size < v.capacity
      → let v' : Vector A = record v {
        object_template = set v.object_template v.size x;
        size = v.size + 1;
      } in
        IsVector v' × (contents v' ≡ contents v ++ (x ∷ []))
  place-contents x v good room = (
    (omega arith, length-set v.object_template v.size x ∙ good.1),
    rw (let e : v.size + 1 ≡ suc v.size = omega arith in e)
        (take-set v.object_template v.size x (omega (arith, room, good.1))),
  )

  -- An element pushed onto a vector stands behind the ones it contained, whether the vector grows or
  -- not, and the result is well formed.
  pub push_back-contents :
      (fresh : A) (x : A) (v : Vector A)
      → IsVector v
      → IsVector (push_back fresh x v) × (contents (push_back fresh x v) ≡ contents v ++ (x ∷ []))
  unfolding push_back
  push_back-contents fresh x v good = elim (Bool-cases (v.size == v.capacity)) [
    | inl full ↦
        let (good', same, capacity, size) =
          reserve-contents fresh (2 * v.capacity + 1) v good (omega (arith, good.0)) in
        let (placed, added) =
          place-contents x (reserve fresh (2 * v.capacity + 1) v) good'
            (omega (arith, good.0, capacity, size)) in
        rw full (placed, added ∙ ap (λ xs. xs ++ (x ∷ [])) same)
    | inr room ↦ rw room (place-contents x v good (ground (arith, good.0)))
  ]

  pub erase-contents :
      (i : ℕ) (v : Vector A)
      → IsVector v
      → i < v.size
      → IsVector (erase i v) × (contents (erase i v) ≡ remove_at i (contents v))
  unfolding erase
  erase-contents i v good inside =
      rw (let e : ltb i v.size ≡ true = ground arith in e)
        ((omega (arith, good.0), length-shift (v.size - 1 - i) i v.object_template ∙ good.1), moved)
    where
      moved :
          take (v.size - 1) (shift (v.size - 1 - i) i v.object_template)
          ≡ remove_at i (take v.size v.object_template)
      moved =
          let n : ℕ = v.size - 1 - i in
          let rest : v.size - 1 ≡ n + i = omega arith in
          let all : v.size ≡ suc (n + i) = omega arith in
          ap (λ k. take k (shift n i v.object_template)) rest
          ∙ take-shift n i v.object_template (omega (arith, good.0, good.1))
          ∙ ap (λ k. remove_at i (take k v.object_template)) (sym all)
