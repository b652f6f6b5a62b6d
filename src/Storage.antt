-- ===== src/Storage.antt =====
-- source/m2mcallbackstorage.cpp: the functions that applications have set on objects. An object is
-- its address and so is a function, where 0 stands for NULL. The static instance is `none` until
-- the first use of `get_instance`.
pub mod Associations
pub mod Laws
pub mod Tests
use mbed_client.Common.{
  ℕ, zero, suc, ◌+◌, Bool, true, false, not, ◌&&◌, List, [], ◌∷◌, get_elem?, ◌==◌, ltb, Option,
  none, some, if◌then◌else◌,
}
use mbed_client.Vector.{Vector, contents, vector, push_back, erase}

pub data CallbackType : Type 0 where
  base_value_updated base_value_updated_2 execute_function execute_function_2 : CallbackType
  incoming_block_message outgoing_block_message resource_callback : CallbackType
  notification_sent notification_sent_2 : CallbackType

-- The number of a constant of the enumeration.
abbrev pub type_number : CallbackType → ℕ
type_number base_value_updated = 0
type_number base_value_updated_2 = 1
type_number execute_function = 2
type_number execute_function_2 = 3
type_number incoming_block_message = 4
type_number outgoing_block_message = 5
type_number resource_callback = 6
type_number notification_sent = 7
type_number notification_sent_2 = 8

pub record Association : Type 0 where
  pub object : ℕ
  pub callback : ℕ
  pub type : CallbackType

-- An element of a new array is not initialised; no code reads it.
abbrev pub fresh_association : Association
fresh_association = record { object = 0; callback = 0; type = base_value_updated }

abbrev pub is_of : ℕ → CallbackType → Association → Bool
is_of object type a = a.object == object && type_number a.type == type_number type

abbrev pub Storage : Type 0
Storage = Option (Vector Association)

-- `get_instance`
unfoldable pub instance_of : Storage → Vector Association
unfolding vector
instance_of none = vector fresh_association 1
instance_of (some v) = v

-- The first association of an object and a type: its function, or NULL.
unfoldable pub first_callback : ℕ → CallbackType → List Association → ℕ
first_callback object type [] = 0
first_callback object type (a ∷ as') =
    let rest = first_callback object type as' in if is_of object type a then a.callback else rest

unfoldable pub get_callback : ℕ → CallbackType → Storage → ℕ × Storage
unfolding instance_of first_callback
get_callback object type s =
    let v = instance_of s in (first_callback object type (contents v), some v)

unfoldable pub has_callback : ℕ → CallbackType → Storage → Bool × Storage
unfolding get_callback
has_callback object type s =
    let (callback, s') = get_callback object type s in (not (callback == 0), s')

-- `does_callback_exist` with a function, to which all three must be equal.
unfoldable pub does_callback_exist : ℕ → ℕ → CallbackType → List Association → Bool
does_callback_exist object callback type [] = false
does_callback_exist object callback type (a ∷ as') =
    let rest = does_callback_exist object callback type as' in
    if is_of object type a && a.callback == callback then true else rest

unfoldable pub do_add_callback :
    ℕ → ℕ → CallbackType → Vector Association → Bool × Vector Association
unfolding does_callback_exist push_back
do_add_callback object callback type v =
    if not (does_callback_exist object callback type (contents v))
    then (
      true,
      push_back fresh_association (record { object = object; callback = callback; type = type }) v,
    )
    else (false, v)

unfoldable pub add_callback : ℕ → ℕ → CallbackType → Storage → Bool × Storage
unfolding instance_of do_add_callback
add_callback object callback type s =
    let (added, v) = do_add_callback object callback type (instance_of s) in (added, some v)

-- The position at which the loop of `do_remove_callback` stops.
unfoldable pub find_callback : ℕ → CallbackType → List Association → Option (ℕ × ℕ)
find_callback object type [] = none
find_callback object type (a ∷ as') =
    let rest = find_callback object type as' in
    if is_of object type a
    then some (0, a.callback)
    else elim rest [ none ↦ none | some (i, callback) ↦ some (suc i, callback) ]

unfoldable pub do_remove_callback : ℕ → CallbackType → Vector Association → ℕ × Vector Association
unfolding find_callback erase
do_remove_callback object type v = elim (find_callback object type (contents v)) [
  | none ↦ (0, v)
  | some (index, callback) ↦ (callback, erase index v)
]

-- It does not make an instance.
unfoldable pub remove_callback : ℕ → CallbackType → Storage → ℕ × Storage
unfolding do_remove_callback
remove_callback object type none = (0, none)
remove_callback object type (some v) =
    let (callback, v') = do_remove_callback object type v in (callback, some v')

-- The loop of `do_remove_callbacks`, in which an erasure keeps the index. Each round leaves one
-- element less to look at, so that the size is enough fuel.
unfoldable pub remove_loop : ℕ → ℕ → ℕ → Vector Association → Vector Association
unfolding erase
remove_loop zero object index v = v
remove_loop (suc fuel) object index v =
    let removed = remove_loop fuel object index (erase index v) in
    let kept = remove_loop fuel object (suc index) v in
    if not (ltb index v.size) then v else elim (get_elem? (contents v) index) [
      | none ↦ v
      | some a ↦ if a.object == object then removed else kept
    ]

unfoldable pub remove_callbacks : ℕ → Storage → Storage
unfolding remove_loop
remove_callbacks object none = none
remove_callbacks object (some v) = some (remove_loop v.size object 0 v)

-- `M2MBase::set_value_updated_function`, and the other functions that set one: the old one is
-- removed before the new one is added.
unfoldable pub set_function : ℕ → ℕ → CallbackType → Storage → Bool × Storage
unfolding remove_callback add_callback
set_function object callback type s =
    add_callback object callback type (remove_callback object type s).1
