-- ===== src/Objects/Tests.antt =====
-- Values below an object, with natural numbers for `float`.
use mbed_client.Common.{ℕ, ◌≡◌, refl, Bool, true, false, [], ◌∷◌, none, some}
use mbed_client.Report.Attributes.{object, object_instance, resource}
use mbed_client.Report.{Handler}
use mbed_client.Report.Tests.{natural, observed}
use mbed_client.Tlv.{objlink, integer, ResourceType}
use mbed_client.Objects.{Node, ObjectNode, dynamic, by_id}
use mbed_client.Objects.Line.{Line}
use mbed_client.Objects.Tree.{remove_object_instance, instance_count}
use mbed_client.Objects.Make.{create_object_instance}

abbrev pub ample : ℕ → Bool
ample n = true

abbrev pub object_node : Node ℕ
object_node = record {
  identifier = by_id 0;
  base_type = object;
  data_type = objlink;
  multiple_instance = false;
  max_age = 0;
  path = b'3' ∷ [];
  mode = dynamic;
  access = 7;
  coap_content_type = 99;
  observable = true;
  publish_uri = true;
  resource = none;
  report_handler = none;
}

-- Resource 3/7/1, which allows GET and PUT.
abbrev pub value_node : ResourceType → Node ℕ
value_node type = record object_node {
  base_type = resource;
  data_type = type;
  access = 3;
  coap_content_type = 0;
}

abbrev pub line : ResourceType → Line ℕ
line type = record {
  object = object_node;
  object_instance = record object_node { identifier = by_id 7; base_type = object_instance };
  resource = value_node type;
  leaf = none;
  observation_handler = true;
  messages = [];
}

-- The object is observed.
abbrev pub watching : Handler ℕ
watching = record observed { observation_level = 4 }

abbrev watched : ResourceType → Line ℕ
watched type = record (line type) { object = record object_node { report_handler = some watching } }

-- Another resource of the object, which is observed too, and is not any more.
abbrev other : Line ℕ
other = record (watched integer) {
  resource = record (value_node integer) { report_handler = some watching };
}

-- An object instance is made, and has a resource of two instances, of which one is removed.
abbrev empty_object : ObjectNode ℕ
empty_object = record { node = object_node; instance_list = []; observation_handler = false }

abbrev with_instance : ObjectNode ℕ
with_instance = (create_object_instance natural ample (b'3' ∷ []) 7 empty_object).1

instance_count_lem : instance_count with_instance ≡ 1
unfolding instance_count create_object_instance
instance_count_lem = refl

removed_lem : remove_object_instance 7 with_instance ≡ (true, empty_object)
unfolding remove_object_instance create_object_instance
removed_lem = refl
