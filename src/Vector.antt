-- ===== src/Vector.antt =====
-- `m2m::Vector` of mbed-client/m2mvector.h. Sizes and positions are not negative; `fresh` is what a
-- new element holds, which the code leaves to the type of the elements.
pub mod Contents
pub mod Tests
use mbed_client.Common.{
  ℕ, zero, suc, ◌+◌, ◌-◌, ◌*◌, ◌≤◌, ◌≡◌, Bool, List, [], ◌∷◌, length, get_elem?, set, take, ltb,
  leb, ◌==◌, Option, none, some, if◌then◌else◌,
}

pub record Vector (A : Type 0) : Type 0 where
  pub size : ℕ
  pub capacity : ℕ
  pub object_template : List A

-- The elements from `begin()` to `end()`.
abbrev pub contents : {A : Type 0} → Vector A → List A
contents v = take v.size v.object_template

-- `_object_template[k] = old_array[k]` for the first `n`.
unfoldable pub copy_elements : {A : Type 0} → ℕ → List A → List A → List A
copy_elements zero old new = new
copy_elements (suc n) [] new = new
copy_elements (suc n) (x ∷ old) [] = []
copy_elements (suc n) (x ∷ old) (y ∷ new) = x ∷ copy_elements n old new

-- The loop of `erase`, which moves the `n` elements behind `k` to the front.
unfoldable pub shift : {A : Type 0} → ℕ → ℕ → List A → List A
shift zero k xs = xs
shift (suc n) k xs = elim (get_elem? xs (suc k)) [
  | none ↦ xs
  | some x ↦ shift n (suc k) (set xs k x)
]

unfoldable pub erase : {A : Type 0} → ℕ → Vector A → Vector A
unfolding shift
erase position v =
    if ltb position v.size
    then record v {
      object_template = shift (v.size - 1 - position) position v.object_template;
      size = v.size - 1;
    }
    else v

unfoldable pub clear : {A : Type 0} → Vector A → Vector A
clear v = record v { size = 0 }

-- On an empty vector the size becomes -1, which is no vector any more.
unfoldable pub pop_back : {A : Type 0} → Vector A → Option (Vector A)
pop_back v = if v.size == 0 then none else some (record v { size = v.size - 1 })

unfoldable pub back : {A : Type 0} → Vector A → Option A
back v = if v.size == 0 then none else get_elem? v.object_template (v.size - 1)

module _ {A : Type 0} (fresh : A) where
  unfoldable pub new_array : ℕ → List A
  new_array zero = []
  new_array (suc n) = fresh ∷ new_array n

  -- `Vector(init_size)`
  unfoldable pub vector : ℕ → Vector A
  unfolding new_array
  vector init_size =
      let n = if leb 1 init_size then init_size else 1 in
      record { size = 0; capacity = n; object_template = new_array n }

  unfoldable pub reserve : ℕ → Vector A → Vector A
  unfolding copy_elements new_array
  reserve new_capacity v = if ltb new_capacity v.size then v else record v {
    object_template = copy_elements v.size v.object_template (new_array new_capacity);
    capacity = new_capacity;
  }

  unfoldable pub resize : ℕ → Vector A → Vector A
  unfolding reserve
  resize new_size v =
      let v' = if ltb v.capacity new_size then reserve (new_size * 2 + 1) v else v in
      record v' { size = new_size }

  unfoldable pub push_back : A → Vector A → Vector A
  unfolding reserve
  push_back x v =
      let v' = if v.size == v.capacity then reserve (2 * v.capacity + 1) v else v in
      record v' { object_template = set v'.object_template v'.size x; size = v'.size + 1 }

  -- `operator=`, which takes the other's capacity and elements.
  unfoldable pub copy_of : Vector A → Vector A
  unfolding copy_elements new_array
  copy_of rhs = record rhs {
    object_template = copy_elements rhs.size rhs.object_template (new_array rhs.capacity);
  }
