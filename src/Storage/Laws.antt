-- ===== src/Storage/Laws.antt =====
-- The storage as a map from an object and a type to a function.
use mbed_client.Common.{
  ℕ, ◌≡◌, refl, sym, ap, ◌∙◌, true, false, ◌&&◌, List, [], ◌∷◌, ◌++◌, All, length-take, ◌==◌,
  Option, none, some, if◌then◌else◌, arith, Bool-cases, inl, inr,
}
use mathlib.Core.Path.{subst}
use mbed_client.Vector.{Vector, contents, vector, push_back, erase}
use mbed_client.Vector.Contents.{IsVector, push_back-contents, erase-contents}
use mbed_client.Storage.{
  CallbackType, type_number, Association, fresh_association, is_of, Storage, instance_of,
  first_callback, get_callback, add_callback, find_callback, remove_callback, set_function,
}
use mbed_client.Storage.Associations.{
  IsMap, drop_first, drop_first-IsMap, All-same, drop_first-absent, IsFound, find_callback-IsFound,
  first_callback-drop_first, first_callback-append, first_callback-added,
  does_callback_exist-absent, append-IsMap,
}

abbrev pub IsStorage : Storage → Type 0
IsStorage none = Unit
IsStorage (some v) = IsVector v × IsMap (contents v)

-- The contents of the storage; there are none before its instance.
abbrev pub associations : Storage → List Association
associations none = []
associations (some v) = contents v

-- The outcome of `do_remove_callback`, from what its loop found.
removed-contents :
    (object : ℕ) (type : CallbackType) (v : Vector Association) (found : Option (ℕ × ℕ))
    → IsStorage (some v)
    → IsFound object type (contents v) found
    → let r : ℕ × Vector Association = elim found [
      | none ↦ (0, v)
      | some (i, callback) ↦ (callback, erase i v)
    ] in
      IsStorage (some r.1)
      × (contents r.1 ≡ drop_first object type (contents v))
      × (r.0 ≡ first_callback object type (contents v))
removed-contents object type v none good h = (good, sym h.0, sym h.1)
removed-contents object type v (some (i, callback)) good h =
    let (placed, same) =
      erase-contents i v good.0 (omega (arith, h.2, length-take v.size v.object_template)) in
    let left : contents (erase i v) ≡ drop_first object type (contents v) = same ∙ sym h.0 in
    (
      (placed, subst IsMap (sym left) (drop_first-IsMap object type (contents v) good.1)),
      left,
      sym h.1,
    )

remove_callback-contents :
    (object : ℕ) (type : CallbackType) (s : Storage)
    → IsStorage s
    → IsStorage (remove_callback object type s).1
      × (associations (remove_callback object type s).1 ≡ drop_first object type (associations s))
      × ((remove_callback object type s).0 ≡ first_callback object type (associations s))
unfolding remove_callback drop_first first_callback
remove_callback-contents object type none good = (good, refl, refl)
remove_callback-contents object type (some v) good =
    removed-contents object type v (find_callback object type (contents v)) good
      (find_callback-IsFound object type (contents v))

instance_of-contents :
    (s : Storage)
    → IsStorage s
    → IsVector (instance_of s) × (contents (instance_of s) ≡ associations s)
unfolding instance_of vector mbed_client.Vector.new_array
instance_of-contents none good = ((omega arith, refl), refl)
instance_of-contents (some v) good = (good.0, refl)

add_callback-contents :
    (object callback : ℕ) (type : CallbackType) (s : Storage)
    → IsStorage s
    → IsMap (associations s)
    → All (λ b. is_of object type b ≡ false) (associations s)
    → let a : Association = record { object = object; callback = callback; type = type } in
      let s' = add_callback object callback type s in
      (s'.0 ≡ true) × IsStorage s'.1 × (associations s'.1 ≡ associations s ++ (a ∷ []))
unfolding add_callback
add_callback-contents object callback type s good keys absent =
    let a : Association = record { object = object; callback = callback; type = type } in
    let (placed, same) = instance_of-contents s good in
    let (pushed, behind) = push_back-contents fresh_association a (instance_of s) placed in
    let all = behind ∙ ap (λ as'. as' ++ (a ∷ [])) same in
    rw (same, does_callback_exist-absent object callback type (associations s) absent)
      (
        refl,
        (
          pushed,
          subst IsMap (sym all)
              (append-IsMap object type (associations s) a (ground arith) absent keys),
        ),
        all,
      )

get_callback-associations :
    (object : ℕ) (type : CallbackType) (s : Storage)
    → IsStorage s
    → (get_callback object type s).0 ≡ first_callback object type (associations s)
unfolding get_callback
get_callback-associations object type s good =
    ap (first_callback object type) (instance_of-contents s good).1

associations-IsMap : (s : Storage) → IsStorage s → IsMap (associations s)
associations-IsMap none good = good
associations-IsMap (some v) good = good.1

-- Setting a function, as each setter of the objects does, replaces what was set on the object with
-- that type: the answer is true, the new function is the one that is found for them from then on,
-- for every other object or type it is the one that was found before, and the storage still has one
-- function for an object and a type.
pub set_function_lem :
    (object callback : ℕ) (type : CallbackType) (s : Storage) (other : ℕ)
    (other_type : CallbackType)
    → IsStorage s
    → let r = set_function object callback type s in
      (r.0 ≡ true)
      × IsStorage r.1
      × ((get_callback other other_type r.1).0 ≡ (
          if object == other && type_number type == type_number other_type
          then callback
          else (get_callback other other_type s).0))
unfolding set_function
set_function_lem object callback type s other other_type good =
    let a : Association = record { object = object; callback = callback; type = type } in
    let (kept, dropped, old) = remove_callback-contents object type s good in
    let s1 = (remove_callback object type s).1 in
    let absent =
      subst (All (λ b. is_of object type b ≡ false)) (sym dropped)
        (drop_first-absent object type (associations s) (associations-IsMap s good)) in
    let (added, good', all) =
      add_callback-contents object callback type s1 kept (associations-IsMap s1 kept) absent in
    let s2 = (add_callback object callback type s1).1 in
    let found =
      get_callback-associations other other_type s2 good'
      ∙ ap (first_callback other other_type) all in
    (
      added,
      good',
      found ∙ elim (Bool-cases (is_of other other_type a)) [
        | inl same ↦
            first_callback-added other other_type (associations s1) a same
              (All-same other other_type a (associations s1) same absent)
            ∙ rw same refl
        | inr differ ↦
            first_callback-append other other_type (associations s1) a differ
            ∙ ap (first_callback other other_type) dropped
            ∙ first_callback-drop_first object other type other_type (associations s)
                (λ b same. ground arith)
            ∙ sym (get_callback-associations other other_type s good)
            ∙ rw differ refl
      ],
    )
