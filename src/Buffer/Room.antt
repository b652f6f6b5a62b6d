-- ===== src/Buffer/Room.antt =====
-- How much room a path of source/m2mbase.cpp takes.
use mbed_client.Common.{
  ℕ, ◌+◌, ◌*◌, ◌-◌, ◌≤◌, ◌<◌, ◌≡◌, refl, sym, ap, ◌∙◌, Bool, true, false, List, [], ◌∷◌, ◌++◌,
  length, length-append, append_assoc, leb, ltb, some, if◌then◌else◌, arith, Bool-cases, inl, inr,
  append-nil,
}
use mbed_client.Common.Int.{pos}
use mbed_client.Text.{itoa_c}
use mbed_client.Text.Decimal.{itoa_c_size}
use mbed_client.Buffer.{Buffer, empty, ensure_space, append_char, append, append_block, append_int}
use mbed_client.Buffer.Paths.{
  add, add_slash, add_int, build_path, instance_name, create_object_path,
  create_object_instance_path, stringdup,
}

add-room :
    (s : List ℕ) (b : Buffer)
    → length b.chars + length s < b.size
    → add s b ≡ record b { chars = b.chars ++ s }
unfolding append ensure_space
add-room s b h = ground arith

add_slash-room :
    (b : Buffer)
    → length b.chars + 1 < b.size
    → add_slash b ≡ record b { chars = b.chars ++ (b'/' ∷ []) }
unfolding append_char ensure_space
add_slash-room b h = ground arith

append_block-room :
    (s : List ℕ) (b : Buffer)
    → length b.chars + length s < b.size
    → (append_block s b).1 ≡ record b { chars = b.chars ++ s }
unfolding append_block ensure_space
append_block-room [] b h = ap (λ s. record b { chars = s }) (sym (append-nil b.chars))
append_block-room (c ∷ s) b h = ground arith

add_int-room :
    (n : ℕ) (b : Buffer)
    → length b.chars + length (itoa_c (pos n)) < b.size
    → add_int n b ≡ record b { chars = b.chars ++ itoa_c (pos n) }
unfolding append_int
add_int-room n b h = append_block-room (itoa_c (pos n)) b h

add_int-full :
    (n : ℕ) (b : Buffer)
    → 0 < length (itoa_c (pos n))
    → b.size ≤ length b.chars + length (itoa_c (pos n))
    → add_int n b ≡ b
unfolding append_int append_block ensure_space
add_int-full n b some_digit h = ground arith

-- The parts of a path, one after the other.
data Part : Type 0 where
  name : List ℕ → Part
  slash : Part
  number : ℕ → Part

abbrev text : Part → List ℕ
text (name s) = s
text slash = b'/' ∷ []
text (number n) = itoa_c (pos n)

abbrev add_part : Part → Buffer → Buffer
add_part (name s) b = add s b
add_part slash b = add_slash b
add_part (number n) b = add_int n b

abbrev add_parts : List Part → Buffer → Buffer
add_parts [] b = b
add_parts (p ∷ ps) b = add_parts ps (add_part p b)

abbrev texts : List Part → List ℕ
texts [] = []
texts (p ∷ ps) = text p ++ texts ps

add_part-room :
    (p : Part) (b : Buffer)
    → length b.chars + length (text p) < b.size
    → add_part p b ≡ record b { chars = b.chars ++ text p }
add_part-room (name s) b h = add-room s b h
add_part-room slash b h = add_slash-room b h
add_part-room (number n) b h = add_int-room n b h

add_parts-room :
    (ps : List Part) (b : Buffer)
    → length b.chars + length (texts ps) < b.size
    → add_parts ps b ≡ record b { chars = b.chars ++ texts ps }
add_parts-room [] b h = ap (λ s. record b { chars = s }) (sym (append-nil b.chars))
add_parts-room (p ∷ ps) b h =
    let size = length-append (text p) (texts ps) in
    let b' = record b { chars = b.chars ++ text p } in
    ap (add_parts ps) (add_part-room p b (omega (arith, size)))
    ∙ add_parts-room ps b' (omega (arith, size, length-append b.chars (text p)))
    ∙ ap (λ s. record b { chars = s }) (append_assoc b.chars (text p) (texts ps))

-- What `build_path` writes.
abbrev path_parts : List ℕ → ℕ → List ℕ → ℕ → List Part
path_parts s1 i1 s2 i2 = name s1 ∷ slash ∷ number i1 ∷ slash ∷ name s2 ∷ slash ∷ number i2 ∷ []

build_path-room :
    (s1 : List ℕ) (i1 : ℕ) (s2 : List ℕ) (i2 : ℕ) (b : Buffer)
    → ensure_space (length s1 + length s2 + 5 * 2 + 3 + 1) b ≡ true
    → build_path s1 i1 s2 i2 b ≡ (true, add_parts (path_parts s1 i1 s2 i2) b)
unfolding build_path
build_path-room s1 i1 s2 i2 b h = rw h refl

build_path-full :
    (s1 : List ℕ) (i1 : ℕ) (s2 : List ℕ) (i2 : ℕ) (b : Buffer)
    → ensure_space (length s1 + length s2 + 5 * 2 + 3 + 1) b ≡ false
    → build_path s1 i1 s2 i2 b ≡ (false, b)
unfolding build_path
build_path-full s1 i1 s2 i2 b h = rw h refl

ensure_space_iff :
    (n : ℕ) (b : Buffer)
    → (n ≤ b.size - length b.chars → ensure_space n b ≡ true)
      × (b.size - length b.chars < n → ensure_space n b ≡ false)
unfolding ensure_space
ensure_space_iff n b = (λ h. ground arith, λ h. ground arith)

length-path_parts :
    (s1 : List ℕ) (i1 : ℕ) (s2 : List ℕ) (i2 : ℕ)
    → i1 < 65536
    → i2 < 65536
    → length (texts (path_parts s1 i1 s2 i2)) < length s1 + length s2 + 14
length-path_parts s1 i1 s2 i2 h1 h2 =
    let n1 = itoa_c (pos i1) in
    let n2 = itoa_c (pos i2) in
    let (most1, _, _, _) = itoa_c_size i1 h1 in
    let (most2, _, _, _) = itoa_c_size i2 h2 in
    omega (
      arith,
      length-append s1 (b'/' ∷ (n1 ++ (b'/' ∷ (s2 ++ (b'/' ∷ (n2 ++ [])))))),
      length-append n1 (b'/' ∷ (s2 ++ (b'/' ∷ (n2 ++ [])))),
      length-append s2 (b'/' ∷ (n2 ++ [])),
      length-append n2 [],
    )

-- A path of a name, a number, a name and a number, the numbers of 16 bits, in an empty buffer:
-- where the names and 14 characters fit, the answer is true and the whole path is written;
-- elsewhere it is false and nothing is.
pub build_path_lem :
    (size : ℕ) (s1 s2 : List ℕ) (i1 i2 : ℕ)
    → i1 < 65536
    → i2 < 65536
    → build_path s1 i1 s2 i2 (empty size) ≡ (
        if leb (length s1 + length s2 + 14) size
        then (
          true,
          record {
            size = size;
            chars = s1 ++ (b'/' ∷ (itoa_c (pos i1) ++ (b'/' ∷ (s2 ++ (b'/' ∷ itoa_c (pos i2))))));
          },
        )
        else (false, empty size))
build_path_lem size s1 s2 i1 i2 h1 h2 =
    let n1 = itoa_c (pos i1) in
    let n2 = itoa_c (pos i2) in
    let n : ℕ = length s1 + length s2 + 5 * 2 + 3 + 1 in
    let (fits, fails) = ensure_space_iff n (empty size) in
    elim (Bool-cases (leb (length s1 + length s2 + 14) size)) [
      | inl room ↦ rw room (
          build_path-room s1 i1 s2 i2 (empty size) (fits (ground arith))
          ∙ ap (λ b. (true, b))
              (add_parts-room (path_parts s1 i1 s2 i2) (empty size)
                (ground (arith, length-path_parts s1 i1 s2 i2 h1 h2)))
          ∙ ap
              (λ s. (
                true,
                record { size = size; chars = s1 ++ (b'/' ∷ (n1 ++ (b'/' ∷ (s2 ++ (b'/' ∷ s))))) },
              ))
              (append-nil n2))
      | inr full ↦ rw full (build_path-full s1 i1 s2 i2 (empty size) (fails (ground arith)))
    ]

-- An instance number of five digits does not fit the `StringBuffer<5>`, whose last character is the
-- NUL, and is left out.
instance_name_lost : (id : ℕ) → id < 65536 → 10000 ≤ id → instance_name id ≡ []
unfolding instance_name
instance_name_lost id h big =
    let (_, some_digit, most, _) = itoa_c_size id h in
    ap (λ b. b.chars) (add_int-full id (empty 5) some_digit (omega (arith, most big)))

instance_name_kept : (id : ℕ) → id < 10000 → instance_name id ≡ itoa_c (pos id)
unfolding instance_name
instance_name_kept id small =
    let (_, _, _, less) = itoa_c_size id (omega arith) in
    ap (λ b. b.chars) (add_int-room id (empty 5) (omega (arith, less small)))

instance_name_lem :
    (id : ℕ) → id < 65536 → instance_name id ≡ (if ltb id 10000 then itoa_c (pos id) else [])
instance_name_lem id h = elim (Bool-cases (ltb id 10000)) [
  | inl small ↦ rw small (instance_name_kept id (ground arith))
  | inr big ↦ rw big (instance_name_lost id h (ground arith))
]

instance_name_size : (id : ℕ) → id < 65536 → length (instance_name id) ≤ 5
instance_name_size id h = ground (arith, instance_name_lem id h, (itoa_c_size id h).0)

create_object_path_lem :
    (malloc : ℕ → Bool) (object s : List ℕ)
    → ((n : ℕ) → malloc n ≡ true)
    → length object + length s ≤ 69
    → create_object_path malloc object s ≡ some (object ++ (b'/' ∷ s))
unfolding create_object_path stringdup
create_object_path_lem malloc object s ample fits =
    let parts = name object ∷ slash ∷ name s ∷ [] in
    let size = length-append object (b'/' ∷ (s ++ [])) in
    let written = add_parts-room parts (empty 131) (omega (arith, size, length-append s [])) in
    let chars = ap (λ b. b.chars) written ∙ ap (λ x. object ++ (b'/' ∷ x)) (append-nil s) in
    rw (chars, ample (length (object ++ (b'/' ∷ s)) + 1)) refl

-- The path of an object instance has its number up to 9999, for an object's name of up to 64
-- characters and if the copy is allocated; from 10000 to 65535 it has none, so that all those
-- instances have one and the same path.
pub create_object_instance_path_lem :
    (malloc : ℕ → Bool) (object : List ℕ) (id : ℕ)
    → ((n : ℕ) → malloc n ≡ true)
    → length object ≤ 64
    → id < 65536
    → create_object_instance_path malloc object id
      ≡ some (object ++ (b'/' ∷ (if ltb id 10000 then itoa_c (pos id) else [])))
unfolding create_object_instance_path create_object_path stringdup
create_object_instance_path_lem malloc object id ample short h =
    create_object_path_lem malloc object (instance_name id) ample
      (omega (arith, instance_name_size id h, short))
    ∙ ap (λ s. some (object ++ (b'/' ∷ s))) (instance_name_lem id h)
