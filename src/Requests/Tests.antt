-- ===== src/Requests/Tests.antt =====
-- Requests at concrete objects.
use mbed_client.Common.{ℕ, ◌≡◌, refl, true, false, List, [], ◌∷◌, Option, none, some, arith}
use mbed_client.Report.Tests.{natural}
use mbed_client.Tlv.{ObjectInstance, integer}
use mbed_client.Tlv.Tests.{platform, instance_7}
use mbed_client.Tlv.Deserializer.{not_found}
use mbed_client.Objects.{ObjectNode}
use mbed_client.Objects.Tests.{ample, object_node, line}
use mbed_client.Objects.After.{IsAfter}
use mbed_client.Objects.Delivery.{notification}
use mbed_client.Requests
use mbed_client.Requests.{Request, Response, Coap, Code, changed, bad_request}
use mbed_client.Requests.Get.{object_subject}
use mbed_client.Requests.Value.{Written, put_value}
use mbed_client.Requests.Put.{Served, instance_put}
use mbed_client.Requests.Post.{free_id, object_post}
use mbed_client.Requests.Refused.{instance_put-refused}
use mbed_client.Requests.Created.{IsNext, free_id-IsNext, object_post-leftover}
use mbed_client.Block.{block_message}
use mbed_client.Block.Sequence.{Part}
use mbed_client.Requests.Blocks.{taken, too_large, block_request, put_all, put_all-too_large}
use mbed_client.Requests.Observed.{after_get, put_value-delivered}
use mbed_client.Requests.{with_token}
use mbed_client.Report
use mbed_client.Report.{Handler}

abbrev response_of : Code → Response
response_of code = record {
  msg_code = code;
  content_format = none;
  payload = none;
  payload_len = 0;
  max_age = none;
  observe = none;
  location_path = none;
  coap_status = none;
}

abbrev nsdl : Coap
nsdl = record {
  build_response = λ request code. some (response_of code);
  alloc_options_list = λ r. true;
}

abbrev request : Option ℕ → List ℕ → Request
request format payload = record {
  content_format = format;
  options = none;
  payload = some payload;
  token = none;
  msg_id = 1;
}

abbrev served : Served ℕ ObjectInstance
served = record { node = object_node; values = instance_7; updated = false }

-- A TLV of resource 9, which the instance has not.
abbrev unknown : List ℕ
unknown = 193 ∷ 9 ∷ 5 ∷ []

instance_put-refused_example :
    instance_put natural ample nsdl platform true (some (request (some 99) unknown)) served
    ≡ some (some (response_of Requests.not_found), served)
unfolding mbed_client.Requests.query_of mbed_client.Requests.Put.put_content_type
    mbed_client.Tlv.Header.is_resource mbed_client.Tlv.Header.is_multiple_resource
    mbed_client.Tlv.Deserializer.Resources.resources_loop mbed_client.Tlv.Header.read_til
    mbed_client.Tlv.Deserializer.Resources.resources_step
    mbed_client.Tlv.Deserializer.Resources.resource_step
    mbed_client.Tlv.Deserializer.visit_resources
instance_put-refused_example =
    instance_put-refused natural ample nsdl platform true (request (some 99) unknown) unknown served
      instance_7 not_found true false refl refl refl refl refl refl refl refl refl

abbrev instances : List ObjectInstance
instances = record { instance_id = 0; resources = [] } ∷ instance_7 ∷ []

free_id-IsNext_example : IsNext 65536 0 instances (free_id 65536 0 instances)
free_id-IsNext_example = free_id-IsNext 65536 0 instances

-- A payload that starts with a resource instance, and instances 0 and 7 in the object.
object_post-leftover_example :
    object_post ample nsdl
      (b'3' ∷ [])
      platform
      true
      (some (request (some 99) (65 ∷ 0 ∷ 5 ∷ [])))
      (record { node = object_node; values = instances; updated = false })
    ≡ some (
      some (response_of bad_request),
      record {
        node = object_node;
        values =
            record { instance_id = 0; resources = [] }
            ∷ instance_7
            ∷ record { instance_id = 1; resources = [] }
            ∷ [];
        updated = false;
      },
    )
unfolding free_id mbed_client.Requests.Put.put_content_type mbed_client.Tlv.Header.is_resource
    mbed_client.Tlv.Header.is_multiple_resource mbed_client.Tlv.Header.is_object_instance
object_post-leftover_example =
    object_post-leftover ample nsdl (b'3' ∷ []) platform true (request (some 99) (65 ∷ 0 ∷ 5 ∷ []))
      (65 ∷ 0 ∷ 5 ∷ []) (record { node = object_node; values = instances; updated = false }) 1
      (λ n. refl) (omega arith) refl refl refl refl refl refl refl

abbrev observed : ObjectNode ℕ
observed = record { node = object_node; instance_list = []; observation_handler = false }

abbrev token : Option (List ℕ)
token = some (1 ∷ 2 ∷ [])

-- The handler of the object after a GET with a token.
abbrev told : Handler ℕ
told = Report.set_observation_token natural ample (1 ∷ 2 ∷ []) 2 (
    Report.add_observation_level natural 4
      (Report.set_under_observation natural true (Report.handler natural)))

abbrev state : Written ℕ
state = record {
  line = record (line integer) { object = (after_get natural ample nsdl token observed).node };
  block_message = none;
  execute_value_updated = false;
  blocks = [];
}

put_value-delivered_example :
    (s' : Written ℕ) × (put_value natural ample nsdl 65535 false true
        (some (request none (b'8' ∷ [])))
        state
      ≡ some (some (response_of changed), s'))
    × IsAfter (notification natural state.line.object.base_type 7 told ∷ []) s'.line
unfolding object_subject mbed_client.Requests.query_of mbed_client.Objects.Base.is_value_changed
    with_token Report.handler
put_value-delivered_example =
    put_value-delivered natural ample nsdl 65535 false true (request none (b'8' ∷ []))
      (response_of changed) (b'8' ∷ []) token observed state told refl (λ n. refl) refl refl refl
      refl refl refl refl refl refl refl refl refl (omega arith) refl

abbrev first_part : Part
first_part = record { number = 0; more = true; exponent = 6; payload = 1 ∷ 2 ∷ [] }

abbrev last_part : Part
last_part = record { number = 1; more = false; exponent = 6; payload = 3 ∷ [] }

abbrev written : Written ℕ
written = record state { block_message = some block_message }

put_all-too_large_example :
    let blocks =
      block_request (request none []) (some 70000) first_part
      ∷ block_request (request none []) none last_part
      ∷ [] in
    let written' =
      put_all natural ample nsdl 65535 (request none []) (response_of changed) blocks written in
    (written'.blocks ≡ taken last_part ∷ too_large 70000 block_message ∷ [])
    × (written'.line ≡ written.line)
put_all-too_large_example =
    put_all-too_large natural ample nsdl 65535 (request none []) (response_of changed) 70000
      first_part (last_part ∷ []) block_message written (λ n. refl)
      ((omega arith, omega arith, omega arith), _) refl (omega arith)
