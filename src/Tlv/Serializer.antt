-- ===== src/Tlv/Serializer.antt =====
-- source/m2mtlvserializer.cpp. A function that has `data` and `size` for results returns them in
-- an `Out`, behind its success. `data` holds `size` bytes, or is NULL.
use mbed_client.Common.{
  ℕ, ◌+◌, ◌-◌, ◌/◌, ◌%◌, ◌^◌, bit_and, Bool, true, false, not, ◌||◌, List, [], ◌∷◌, ◌++◌, length,
  ltb, ◌==◌, if◌then◌else◌,
}
use mbed_client.Common.Int.{ℤ, pos, negsuc}
use mbed_client.Tlv.{
  Platform, Resource, ResourceInstance, ResourceType, string, integer, float, boolean, opaque, time,
  objlink, ObjectInstance, type_resource, type_multiple_resource, type_resource_instance,
  type_object_instance, id16, length8, length16, length24,
}

pub record Out : Type 0 where
  pub bytes : List ℕ
  pub size : ℕ

abbrev pub nothing : Out
nothing = record { bytes = []; size = 0 }

unfoldable pub serialize_id : ℕ → List ℕ
serialize_id id =
    if ltb 255 id then bit_and id 0xff00 / 256 ∷ bit_and id 0xff ∷ [] else bit_and id 0xff ∷ []

unfoldable pub serialize_length : ℕ → List ℕ
serialize_length n =
    if ltb 65535 n
    then bit_and n 0xff0000 / 65536 ∷ bit_and n 0xff00 / 256 ∷ bit_and n 0xff ∷ []
    else if ltb 255 n
    then bit_and n 0xff00 / 256 ∷ bit_and n 0xff ∷ []
    else if ltb 7 n
    then bit_and n 0xff ∷ []
    else []

-- The first byte: `type` with the flags of the identifier and of the length added.
unfoldable pub tlv_type : ℕ → ℕ → ℕ → ℕ
tlv_type type id value_length =
    (type
      + (if ltb id 256 then 0 else id16)
      + (if ltb value_length 8
          then value_length
          else if ltb value_length 256
          then length8
          else if ltb value_length 65536
          then length16
          else length24))
    % 256

unfoldable pub serialize_tilv : Platform → ℕ → ℕ → List ℕ → ℕ → Out → Bool × Out
serialize_tilv p type id value value_length out =
    let id_array = serialize_id id in
    let length_array = serialize_length value_length in
    let more = 1 + length id_array + length length_array + value_length in
    if not (p.malloc ((out.size + more) % 2 ^ 32)) then (false, out) else (
      true,
      record {
        bytes =
            out.bytes ++ (tlv_type type id value_length ∷ (id_array ++ (length_array ++ value)));
        size = (out.size + more) % 2 ^ 32;
      },
    )

-- `(uint16_t)name_id`
abbrev pub to_u16 : ℤ → ℕ
to_u16 (pos n) = n % 65536
to_u16 (negsuc n) = 65535 - n % 65536

abbrev pub is_minus_one : ℤ → Bool
is_minus_one (pos n) = false
is_minus_one (negsuc n) = n == 0

abbrev pub is_binary_int : ResourceType → Bool
is_binary_int integer = true
is_binary_int boolean = true
is_binary_int time = true
is_binary_int string = false
is_binary_int float = false
is_binary_int opaque = false
is_binary_int objlink = false

abbrev pub is_boolean : ResourceType → Bool
is_boolean boolean = true
is_boolean integer = false
is_boolean time = false
is_boolean string = false
is_boolean float = false
is_boolean opaque = false
is_boolean objlink = false

-- `get_value_int`: 0 for a resource with no value.
unfoldable pub get_value_int : Platform → List ℕ → ℕ
get_value_int p [] = 0
get_value_int p (b ∷ bs) = p.atoll (b ∷ bs)

unfoldable pub serialize_tlv_binary_int :
    Platform → ResourceType → List ℕ → ℕ → ℕ → Out → Bool × Out
serialize_tlv_binary_int p kind value type id out =
    let value_int = get_value_int p value in
    if is_boolean kind
    then serialize_tilv p type id (value_int % 256 ∷ []) 1 out
    else serialize_tilv p type id (p.write_64_bit value_int) 8 out

unfoldable pub serialize_resource_instance : Platform → ℕ → ResourceInstance → Out → Bool × Out
serialize_resource_instance p id r out =
    if is_binary_int r.kind
    then serialize_tlv_binary_int p r.kind r.value type_resource_instance id out
    else serialize_tilv p type_resource_instance id r.value (length r.value) out

-- The loop over the instances; it stops at the first failure.
unfoldable pub serialize_instance_list : Platform → List ResourceInstance → Out → Bool × Out
serialize_instance_list p [] out = (true, out)
serialize_instance_list p (r ∷ rs) out =
    let (done, out') = serialize_resource_instance p r.instance_id r out in
    if done then serialize_instance_list p rs out' else (false, out')

unfoldable pub serialize_multiple_resource : Platform → Resource → Out → Bool × Out
serialize_multiple_resource p r out =
    let (done, nested) = serialize_instance_list p r.resource_instances nothing in
    if not done
    then (false, out)
    else if is_minus_one r.name_id
    then (false, out)
    else serialize_tilv p type_multiple_resource (to_u16 r.name_id) nested.bytes nested.size out

unfoldable pub serialize_resource : Platform → Resource → Out → Bool × Out
serialize_resource p r out =
    if is_minus_one r.name_id
    then (false, out)
    else if is_binary_int r.kind
    then serialize_tlv_binary_int p r.kind r.value type_resource (to_u16 r.name_id) out
    else serialize_tilv p type_resource (to_u16 r.name_id) r.value (length r.value) out

-- `serialize(const M2MResource *, uint8_t *&, uint32_t &)`
unfoldable pub serialize : Platform → Resource → Out → Bool × Out
serialize p r out =
    if is_minus_one r.name_id
    then (false, out)
    else if r.supports_multiple_instances
    then serialize_multiple_resource p r out
    else serialize_resource p r out

unfoldable pub has_invalid_id : List Resource → Bool
has_invalid_id [] = false
has_invalid_id (r ∷ rs) = is_minus_one r.name_id || has_invalid_id rs

-- The second loop of `serialize_resources`: a failure frees the data and keeps the size.
unfoldable pub serialize_resource_list : Platform → List Resource → Out → Bool × Out
serialize_resource_list p [] out = (true, out)
serialize_resource_list p (r ∷ rs) out =
    let (done, out') = serialize p r out in
    if done then serialize_resource_list p rs out' else (false, record out' { bytes = [] })

-- `size` is the caller's, and `valid` comes back as the Boolean.
unfoldable pub serialize_resources : Platform → List Resource → ℕ → Bool × Out
serialize_resources p rs size =
    let start : Out = record { bytes = []; size = size } in
    if has_invalid_id rs then (false, start) else serialize_resource_list p rs start

unfoldable pub serialize_object_instance : Platform → ObjectInstance → Out → Bool × Out
serialize_object_instance p o out =
    let (valid, nested) = serialize_resources p o.resources 0 in
    if valid
    then serialize_tilv p type_object_instance o.instance_id nested.bytes nested.size out
    else (false, out)

-- A failure of one instance is not looked at: the loop goes on with the next.
unfoldable pub serialize_object_instances : Platform → List ObjectInstance → Out → Out
serialize_object_instances p [] out = out
serialize_object_instances p (o ∷ os) out =
    serialize_object_instances p os (serialize_object_instance p o out).1
