-- ===== src/Storage/Associations.antt =====
-- Lists of associations, as maps from an object and a type to a function.
use mbed_client.Common.{
  ℕ, suc, ◌<◌, ◌≡◌, refl, ap, ◌∙◌, true, false, List, [], ◌∷◌, ◌++◌, length, All, All-append,
  Option, none, some, if◌then◌else◌, arith, Bool-cases, inl, inr,
}
use mbed_client.Vector.Contents.{remove_at}
use mbed_client.Storage.{
  CallbackType, Association, is_of, first_callback, does_callback_exist, find_callback,
}

-- No object has two functions of one type.
abbrev pub IsMap : List Association → Type 0
IsMap [] = Unit
IsMap (a ∷ as') = All (λ b. is_of a.object a.type b ≡ false) as' × IsMap as'

-- A list without its first association of an object and a type.
unfoldable pub drop_first : ℕ → CallbackType → List Association → List Association
drop_first object type [] = []
drop_first object type (a ∷ as') =
    let rest = drop_first object type as' in if is_of object type a then as' else a ∷ rest

pub is_of_trans :
    (object : ℕ) (type : CallbackType) (a b : Association)
    → is_of object type a ≡ true
    → is_of object type b ≡ is_of a.object a.type b
is_of_trans object type a b h = ground arith

pub All-drop_first :
    (P : Association → Type 0) (object : ℕ) (type : CallbackType) (as' : List Association)
    → All P as'
    → All P (drop_first object type as')
unfolding drop_first
All-drop_first P object type [] h = h
All-drop_first P object type (a ∷ as') h = elim (Bool-cases (is_of object type a)) [
  | inl hit ↦ rw hit (h.1)
  | inr miss ↦ rw miss (h.0, All-drop_first P object type as' h.1)
]

pub drop_first-IsMap :
    (object : ℕ) (type : CallbackType) (as' : List Association)
    → IsMap as'
    → IsMap (drop_first object type as')
unfolding drop_first
drop_first-IsMap object type [] h = h
drop_first-IsMap object type (a ∷ as') h = elim (Bool-cases (is_of object type a)) [
  | inl hit ↦ rw hit (h.1)
  | inr miss ↦ rw miss (All-drop_first _ object type as' h.0, drop_first-IsMap object type as' h.1)
]

pub All-same :
    (object : ℕ) (type : CallbackType) (a : Association) (as' : List Association)
    → is_of object type a ≡ true
    → All (λ b. is_of a.object a.type b ≡ false) as'
    → All (λ b. is_of object type b ≡ false) as'
All-same object type a [] h all = all
All-same object type a (b ∷ as') h all =
    (is_of_trans object type a b h ∙ all.0, All-same object type a as' h all.1)

pub drop_first-absent :
    (object : ℕ) (type : CallbackType) (as' : List Association)
    → IsMap as'
    → All (λ b. is_of object type b ≡ false) (drop_first object type as')
unfolding drop_first
drop_first-absent object type [] h = h
drop_first-absent object type (a ∷ as') h = elim (Bool-cases (is_of object type a)) [
  | inl hit ↦ rw hit (All-same object type a as' hit h.0)
  | inr miss ↦ rw miss (miss, drop_first-absent object type as' h.1)
]

-- What the loop of `do_remove_callback` finds, and what the erasure there leaves.
abbrev pub IsFound : ℕ → CallbackType → List Association → Option (ℕ × ℕ) → Type 0
IsFound object type as' none =
    (drop_first object type as' ≡ as') × (first_callback object type as' ≡ 0)
IsFound object type as' (some (i, callback)) =
    (drop_first object type as' ≡ remove_at i as')
    × (first_callback object type as' ≡ callback)
    × (i < length as')

pub later-IsFound :
    (object : ℕ) (type : CallbackType) (a : Association) (as' : List Association)
    (found : Option (ℕ × ℕ))
    → is_of object type a ≡ false
    → IsFound object type as' found
    → IsFound object type
        (a ∷ as')
        (elim found [ none ↦ none | some (i, callback) ↦ some (suc i, callback) ])
unfolding drop_first first_callback
later-IsFound object type a as' none miss h = (rw miss (ap (◌∷◌ a) h.0), rw miss h.1)
later-IsFound object type a as' (some (i, callback)) miss h =
    (rw miss (ap (◌∷◌ a) h.0), rw miss h.1, omega (arith, h.2))

pub find_callback-IsFound :
    (object : ℕ) (type : CallbackType) (as' : List Association)
    → IsFound object type as' (find_callback object type as')
unfolding find_callback drop_first first_callback
find_callback-IsFound object type [] = (refl, refl)
find_callback-IsFound object type (a ∷ as') = elim (Bool-cases (is_of object type a)) [
  | inl hit ↦ rw hit (rw hit refl, rw hit refl, omega arith)
  | inr miss ↦ rw miss (
      later-IsFound object type a as' (find_callback object type as') miss
        (find_callback-IsFound object type as'))
]

pub first_callback-drop_first :
    (object other : ℕ) (type other_type : CallbackType) (as' : List Association)
    → ((a : Association) → is_of object type a ≡ true → is_of other other_type a ≡ false)
    → first_callback other other_type (drop_first object type as')
      ≡ first_callback other other_type as'
unfolding drop_first first_callback
first_callback-drop_first object other type other_type [] differ = refl
first_callback-drop_first object other type other_type (a ∷ as') differ =
    elim (Bool-cases (is_of object type a)) [
      | inl hit ↦ rw (hit, differ a hit) refl
      | inr miss ↦ rw miss (
          ap (λ r. if is_of other other_type a then a.callback else r)
            (first_callback-drop_first object other type other_type as' differ))
    ]

pub first_callback-append :
    (object : ℕ) (type : CallbackType) (as' : List Association) (a : Association)
    → is_of object type a ≡ false
    → first_callback object type (as' ++ (a ∷ [])) ≡ first_callback object type as'
unfolding first_callback
first_callback-append object type [] a other = rw other refl
first_callback-append object type (b ∷ as') a other =
    ap (λ r. if is_of object type b then b.callback else r)
      (first_callback-append object type as' a other)

pub first_callback-added :
    (object : ℕ) (type : CallbackType) (as' : List Association) (a : Association)
    → is_of object type a ≡ true
    → All (λ b. is_of object type b ≡ false) as'
    → first_callback object type (as' ++ (a ∷ [])) ≡ a.callback
unfolding first_callback
first_callback-added object type [] a same absent = rw same refl
first_callback-added object type (b ∷ as') a same absent =
    rw absent.0 (first_callback-added object type as' a same absent.1)

pub does_callback_exist-absent :
    (object callback : ℕ) (type : CallbackType) (as' : List Association)
    → All (λ b. is_of object type b ≡ false) as'
    → does_callback_exist object callback type as' ≡ false
unfolding does_callback_exist
does_callback_exist-absent object callback type [] absent = refl
does_callback_exist-absent object callback type (b ∷ as') absent =
    rw absent.0 (does_callback_exist-absent object callback type as' absent.1)

pub is_of-other :
    (object : ℕ) (type : CallbackType) (a b : Association)
    → is_of object type a ≡ true
    → is_of object type b ≡ false
    → is_of b.object b.type a ≡ false
is_of-other object type a b same other = ground arith

pub append-IsMap :
    (object : ℕ) (type : CallbackType) (as' : List Association) (a : Association)
    → is_of object type a ≡ true
    → All (λ b. is_of object type b ≡ false) as'
    → IsMap as'
    → IsMap (as' ++ (a ∷ []))
append-IsMap object type [] a same absent m = (m, m)
append-IsMap object type (b ∷ as') a same absent m = (
  All-append (λ c. is_of b.object b.type c ≡ false) as' (a ∷ []) m.0
      (is_of-other object type a b same absent.0, _),
  append-IsMap object type as' a same absent.1 m.1,
)
