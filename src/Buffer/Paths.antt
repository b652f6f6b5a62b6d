-- ===== src/Buffer/Paths.antt =====
-- `build_path` and `create_path` of source/m2mbase.cpp. A name is its characters before the NUL;
-- `malloc` of the C library is a parameter.
use mbed_client.Common.{
  ℕ, ◌+◌, ◌*◌, Bool, true, false, not, List, length, Option, none, some, if◌then◌else◌,
}
use mbed_client.Buffer.{Buffer, empty, ensure_space, append_char, append, append_int}

-- `append` and its kin, where the answer is not looked at.
abbrev pub add : List ℕ → Buffer → Buffer
add s b = (append s b).1

abbrev pub add_slash : Buffer → Buffer
add_slash b = (append_char b'/' b).1

abbrev pub add_int : ℕ → Buffer → Buffer
add_int n b = (append_int n b).1

abbrev pub max_instance_size : ℕ
max_instance_size = 5

-- In `StringBuffer<MAX_PATH_SIZE>`, of 142 characters.
unfoldable pub build_path : List ℕ → ℕ → List ℕ → ℕ → Buffer → Bool × Buffer
build_path s1 i1 s2 i2 b =
    if not (ensure_space (length s1 + length s2 + max_instance_size * 2 + 3 + 1) b)
    then (false, b)
    else (true, add_int i2 (add_slash (add s2 (add_slash (add_int i1 (add_slash (add s1 b)))))))

-- `MAX_PATH_SIZE_2`: a resource.
unfoldable pub build_path_2 : List ℕ → ℕ → List ℕ → Buffer → Bool × Buffer
build_path_2 s1 i1 s2 b =
    if not (ensure_space (length s1 + length s2 + max_instance_size + 2 + 1) b)
    then (false, b)
    else (true, add s2 (add_slash (add_int i1 (add_slash (add s1 b)))))

-- `MAX_PATH_SIZE_3`: an object, its instance, and a resource by number.
unfoldable pub build_path_3 : List ℕ → ℕ → ℕ → Buffer → Bool × Buffer
build_path_3 s1 i1 i2 b =
    if not (ensure_space (length s1 + max_instance_size * 2 + 2 + 1) b)
    then (false, b)
    else (true, add_int i2 (add_slash (add_int i1 (add_slash (add s1 b)))))

-- `MAX_PATH_SIZE_4`: an object instance.
unfoldable pub build_path_4 : List ℕ → ℕ → Buffer → Bool × Buffer
build_path_4 s1 i1 b =
    if not (ensure_space (length s1 + max_instance_size + 1 + 1) b)
    then (false, b)
    else (true, add_int i1 (add_slash (add s1 b)))

unfoldable pub stringdup : (ℕ → Bool) → List ℕ → Option (List ℕ)
stringdup malloc s = if malloc (length s + 1) then some s else none

-- Of an object and the name of an instance, in `MAX_NAME_SIZE * 2 + (2 + 1)` characters.
unfoldable pub create_object_path : (ℕ → Bool) → List ℕ → List ℕ → Option (List ℕ)
unfolding append append_char stringdup
create_object_path malloc object name =
    stringdup malloc (add name (add_slash (add object (empty 131)))).chars

-- The number of an instance goes through a `StringBuffer<5>`.
unfoldable pub instance_name : ℕ → List ℕ
unfolding append_int
instance_name id = (add_int id (empty 5)).chars

unfoldable pub create_object_instance_path : (ℕ → Bool) → List ℕ → ℕ → Option (List ℕ)
unfolding create_object_path instance_name
create_object_instance_path malloc object id = create_object_path malloc object (instance_name id)

-- Of an object instance and the name of a resource, in `MAX_NAME_SIZE * 3 + (2 + 1)` characters.
unfoldable pub create_resource_path : (ℕ → Bool) → List ℕ → ℕ → List ℕ → Option (List ℕ)
unfolding append append_char append_int stringdup
create_resource_path malloc object instance name =
    stringdup malloc
      (add name (add_slash (add_int instance (add_slash (add object (empty 195)))))).chars

-- Of a resource and its instance, in `MAX_NAME_SIZE * 4 + (3 + 1)` characters.
unfoldable pub create_resource_instance_path :
    (ℕ → Bool) → List ℕ → ℕ → List ℕ → ℕ → Option (List ℕ)
unfolding append append_char append_int stringdup instance_name
create_resource_instance_path malloc object instance resource id =
    let b = add resource (add_slash (add_int instance (add_slash (add object (empty 260))))) in
    stringdup malloc (add (instance_name id) (add_slash b)).chars
