-- ===== src/Storage/Tests.antt =====
-- The storage at concrete objects and functions.
use mbed_client.Common.{◌≡◌, refl, true, [], ◌∷◌, some, arith}
use mbed_client.Storage.{
  Storage, base_value_updated, execute_function, set_function, get_callback, remove_callbacks,
  add_callback,
}
use mbed_client.Storage.Laws.{IsStorage, associations, set_function_lem}

-- Object 10 has the function 100.
abbrev one_function : Storage
one_function = some (record {
  size = 1;
  capacity = 1;
  object_template = record { object = 10; callback = 100; type = base_value_updated } ∷ [];
})

set_function_lem_example :
    ((set_function 10 200 base_value_updated one_function).0 ≡ true)
    × IsStorage (set_function 10 200 base_value_updated one_function).1
    × ((get_callback 10 base_value_updated
          (set_function 10 200 base_value_updated one_function).1).0
        ≡ 200)
set_function_lem_example =
    set_function_lem 10 200 base_value_updated one_function 10 base_value_updated
      ((omega arith, refl), (_, _))

-- Two functions of one type by `add_callback` alone: the older one is found.
older_lem :
    (get_callback 10 base_value_updated (add_callback 10 200 base_value_updated one_function).1).0
    ≡ 100
unfolding get_callback add_callback
older_lem = refl

remove_callbacks_lem :
    associations (remove_callbacks 10 (add_callback 10 200 execute_function one_function).1) ≡ []
unfolding remove_callbacks add_callback
remove_callbacks_lem = refl
