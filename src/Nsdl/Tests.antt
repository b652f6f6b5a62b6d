-- ===== src/Nsdl/Tests.antt =====
-- The nsdl interface at concrete objects.
use mbed_client.Common.{
  ◌==◌, if◌then◌else◌, ℕ, ◌+◌, ◌-◌, ◌*◌, ◌≤◌, ◌<◌, ◌≡◌, refl, Bool, true, false, List, [], ◌∷◌,
  none, some, arith,
}
use mbed_client.Common.Int.{ℤ, pos, negsuc, int_lt}
use mbed_client.Text.{itoa_c, reverse, reverse_loop, digits_loop, exchange}
use mbed_client.Text.Decimal.{decimal_value}
use mbed_client.Report.Attributes.{object_instance}
use mbed_client.Tlv.{integer}
use mbed_client.Objects.{Node, ObjectNode, InstanceNode, ResourceNode}
use mbed_client.Objects.Tree.{first}
use mbed_client.Objects.Tests.{object_node, value_node}
use mbed_client.Nsdl.Find.{find_in_objects}
use mbed_client.Nsdl.Order.{find_in_objects-path}
use mbed_client.Nsdl.Create.{create_nsdl_object_structure}
use mbed_client.Nsdl.Announced.{create_nsdl_object_structure-known}
use mbed_client.Nsdl.Replies.{
  Endpoint, start_registration, stop_registration, client_registered, set_location, register_reply,
  as_int,
}
use mbed_client.Nsdl.Renewal.{registered, register_reply-renews, register_reply-late}

abbrev malloc : ℕ → Bool
malloc n = true

-- Object 3 with the instance 3/7 and its resource 3/7/1.
abbrev resource_1 : ResourceNode ℕ
resource_1 = record {
  node = record (value_node integer) { path = b'3' ∷ b'/' ∷ b'7' ∷ b'/' ∷ b'1' ∷ [] };
  resource_instances = [];
  block_message = none;
  delayed_response = false;
  delayed_token = none;
}

abbrev instance_of_3 : InstanceNode ℕ
instance_of_3 = record {
  node = record object_node { base_type = object_instance; path = b'3' ∷ b'/' ∷ b'7' ∷ [] };
  resource_list = resource_1 ∷ [];
}

abbrev object_3 : ObjectNode ℕ
object_3 = record {
  node = object_node;
  instance_list = instance_of_3 ∷ [];
  observation_handler = false;
}

find_in_objects-path_example :
    find_in_objects (b'3' ∷ b'/' ∷ b'7' ∷ b'/' ∷ b'1' ∷ []) none (object_3 ∷ [])
    ≡ some resource_1.node
unfolding first
find_in_objects-path_example =
    find_in_objects-path (b'3' ∷ b'/' ∷ b'7' ∷ b'/' ∷ b'1' ∷ []) (object_3 ∷ [])

abbrev accept : List (List ℕ) → Node ℕ → ℤ
accept ps n = pos 0

create_nsdl_object_structure-known_example :
    (create_nsdl_object_structure accept object_3
      (record { observation_handler = false; paths = [] })).1.paths
    ≡ (b'3' ∷ []) ∷ (b'3' ∷ b'/' ∷ b'7' ∷ []) ∷ (b'3' ∷ b'/' ∷ b'7' ∷ b'/' ∷ b'1' ∷ []) ∷ []
create_nsdl_object_structure-known_example =
    create_nsdl_object_structure-known accept (λ ps n. refl) object_3
      (record { observation_handler = false; paths = [] })

-- The number of a text of digits.
abbrev atol : List ℕ → ℤ
atol text = pos (decimal_value 0 text)

abbrev endpoint : Endpoint
endpoint = record {
  lifetime = none;
  unregister_ongoing = false;
  bootstrap_id = 0;
  identity_accepted = false;
  asked = [];
}

-- `rd/7`
abbrev location : List ℕ
location = b'r' ∷ b'd' ∷ b'/' ∷ b'7' ∷ []

text_of_300 : atol (itoa_c (as_int 300)) ≡ as_int 300
unfolding itoa_c as_int decimal_value reverse reverse_loop digits_loop exchange
text_of_300 = refl

register_reply-renews_example :
    (time : ℕ) × ((register_reply malloc atol (registered 300 (some location)) endpoint).asked
      ≡ start_registration time
        ∷ stop_registration
        ∷ set_location location
        ∷ client_registered
        ∷ [])
    × (time < 300 * 1000)
    × (300 * 500 ≤ time + 1000)
register_reply-renews_example =
    register_reply-renews malloc atol 300 (some location) endpoint (λ n. refl) text_of_300
      (omega arith) (omega arith)

-- The number of a text with a sign.
abbrev signed : List ℕ → ℤ
signed [] = pos 0
signed (c ∷ text) =
    if c == 45 then negsuc (decimal_value 0 text - 1) else pos (decimal_value 0 (c ∷ text))

text_of_large : signed (itoa_c (as_int 4294967295)) ≡ as_int 4294967295
unfolding itoa_c as_int decimal_value reverse reverse_loop digits_loop exchange
text_of_large = refl

register_reply-late_example :
    (time : ℕ) × ((register_reply malloc signed
        (registered 4294967295 (some location))
        endpoint).asked
      ≡ start_registration time
        ∷ stop_registration
        ∷ set_location location
        ∷ client_registered
        ∷ [])
    × (4294967295 * 10000 < time)
    × (int_lt (as_int 4294967295) (pos 0) ≡ true)
register_reply-late_example =
    register_reply-late malloc signed 4294967295 (some location) endpoint (λ n. refl) text_of_large
      (omega arith) (omega arith)
