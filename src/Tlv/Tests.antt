-- ===== src/Tlv/Tests.antt =====
-- The theorems on the TLV codec at concrete inputs.
use mbed_client.Common.{
  ◌*◌, if◌then◌else◌, ◌+◌, ◌%◌, ◌≡◌, ◌≢◌, refl, true, false, [], ◌∷◌, ◌++◌, length, map, some,
  arith,
}
use mbed_client.Common.Int.{pos}
use mbed_client.Tlv.{
  Platform, IsAmple, Resource, opaque, integer, ObjectInstance, get_put_post_delete_allowed,
}
use mbed_client.Tlv.Serializer.{serialize_resources, serialize_id, serialize_length}
use mbed_client.Tlv.Header.{read_til}
use mbed_client.Tlv.Deserializer.{ok, not_allowed, done, put, post, out_of_fuel}
use mbed_client.Tlv.Deserializer.Resources.{deserialize_resources, deserialise_object_instances}
use mbed_client.Tlv.Encoding.{tilv}
use mbed_client.Tlv.RoundTrip.{read_til-tilv}
use mbed_client.Tlv.Store.{last_id, encode, knows, may_put, store_all}
use mbed_client.Tlv.Store.Loop.{deserialize_resources-encode}
use mbed_client.Tlv.Plain.{
  payload, entry_of, refreshed, serialize_resources-encode,
  deserialize_resources-serialize_resources,
}
use mbed_client.Tlv.Termination.Resources.{
  deserialize_resources-ne-out_of_fuel, deserialise_object_instances-ne-out_of_fuel,
}

-- Memory never runs out; numbers are one digit, in eight bytes.
abbrev pub platform : Platform
platform = record {
  malloc = λ n. true;
  atoll = λ s. 5;
  write_64_bit = λ n. 0 ∷ 0 ∷ 0 ∷ 0 ∷ 0 ∷ 0 ∷ 0 ∷ n % 256 ∷ [];
  create_path = λ s. true;
  create_instance_path = λ s n. true;
}

platform-IsAmple : IsAmple platform
platform-IsAmple = record { room = λ n. refl; eight = λ n. refl }

abbrev text : Resource
text = record {
  name = b'1' ∷ [];
  name_id = pos 1;
  supports_multiple_instances = false;
  kind = opaque;
  operation = get_put_post_delete_allowed;
  value = 104 ∷ 105 ∷ [];
  resource_instances = [];
}

abbrev number : Resource
number = record {
  name = b'3' ∷ b'0' ∷ b'0' ∷ [];
  name_id = pos 300;
  supports_multiple_instances = false;
  kind = integer;
  operation = get_put_post_delete_allowed;
  value = b'5' ∷ [];
  resource_instances = [];
}

abbrev pub instance_7 : ObjectInstance
instance_7 = record { instance_id = 7; resources = text ∷ number ∷ [] }

deserialize_resources-serialize_resources_example :
    let out = (serialize_resources platform (text ∷ number ∷ []) 0).1 in
    deserialize_resources platform out.bytes out.size instance_7 put
    ≡ done
        (ok, record { instance_id = 7; resources = map (refreshed platform) (text ∷ number ∷ []) })
unfolding may_put knows encode tilv payload last_id serialize_id serialize_length
deserialize_resources-serialize_resources_example =
    deserialize_resources-serialize_resources platform 7 text (number ∷ []) put platform-IsAmple
      ((refl, (1, refl, omega arith)), ((refl, (300, refl, omega arith)), tt))
      (omega arith, (omega arith, tt)) (refl, (refl, tt)) refl (omega arith)

deserialize_resources-encode_example :
    let tlv = encode ((300, 9 ∷ []) ∷ (1, 8 ∷ []) ∷ []) in
    deserialize_resources platform tlv (length tlv) instance_7 put
    ≡ done (
        if may_put 1 (text ∷ number ∷ [])
        then (
          ok,
          record instance_7 {
            resources = store_all ((300, 9 ∷ []) ∷ (1, 8 ∷ []) ∷ []) (text ∷ number ∷ []);
          },
        )
        else (not_allowed, instance_7))
unfolding knows last_id
deserialize_resources-encode_example =
    deserialize_resources-encode platform 300 (9 ∷ []) ((1, 8 ∷ []) ∷ []) instance_7 put
      platform-IsAmple ((omega arith, omega arith, refl), ((omega arith, omega arith, refl), tt))

read_til-tilv_example :
    read_til ((0 ∷ []) ++ (tilv (3 * 64) 300 (1 ∷ 2 ∷ []) ++ (9 ∷ []))) 1
    ≡ some (record {
      offset = 1 + 1 + length (serialize_id 300) + length (serialize_length 2);
      type = 192;
      id = 300;
      length = 2;
    })
read_til-tilv_example =
    read_til-tilv (0 ∷ []) (9 ∷ []) 3 300 (1 ∷ 2 ∷ []) (omega arith) (omega arith)

serialize_resources-encode_example : serialize_resources platform (text ∷ number ∷ []) 0 ≡ (
  true,
  record {
    bytes = encode (map (entry_of platform) (text ∷ number ∷ []));
    size = length (encode (map (entry_of platform) (text ∷ number ∷ [])));
  },
)
unfolding encode tilv serialize_id serialize_length payload
serialize_resources-encode_example =
    serialize_resources-encode platform (text ∷ number ∷ []) platform-IsAmple
      ((refl, (1, refl, omega arith)), ((refl, (300, refl, omega arith)), tt)) (omega arith)

deserialize_resources-ne-out_of_fuel_example :
    deserialize_resources platform (0xc1 ∷ 1 ∷ 9 ∷ 0xc1 ∷ []) 4 instance_7 post ≢ out_of_fuel
deserialize_resources-ne-out_of_fuel_example =
    deserialize_resources-ne-out_of_fuel platform (0xc1 ∷ 1 ∷ 9 ∷ 0xc1 ∷ []) 4 instance_7 post

deserialise_object_instances-ne-out_of_fuel_example :
    deserialise_object_instances platform (0x03 ∷ 7 ∷ 0xc1 ∷ 1 ∷ 9 ∷ []) 5 (instance_7 ∷ []) put
    ≢ out_of_fuel
deserialise_object_instances-ne-out_of_fuel_example =
    deserialise_object_instances-ne-out_of_fuel platform (0x03 ∷ 7 ∷ 0xc1 ∷ 1 ∷ 9 ∷ []) 5
      (instance_7 ∷ []) put
