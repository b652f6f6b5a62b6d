-- ===== src/Requests/Get.antt =====
-- `handle_get_request` of the four classes. Beside the objects goes what the TLV serialiser reads of
-- them. A handler comes back with the response, `none` for NULL, and what it changed.
use mbed_client.Common.{
  ℕ, ◌%◌, Bool, true, false, not, List, length, ◌==◌, Option, none, some, ◌>>=◌, if◌then◌else◌,
}
use mbed_client.Report.{Float}
use mbed_client.Block.{BlockMessage}
use mbed_client.Tlv.{
  Platform, Resource, ResourceType, opaque, ObjectInstance, integer, boolean, time, string, float,
  objlink,
}
use mbed_client.Tlv.Serializer.{
  Out, nothing, serialize, serialize_resources, serialize_object_instances,
}
use mbed_client.Objects.{Node, ResourceNode, InstanceNode, ObjectNode}
use mbed_client.Objects.Base.{
  set_under_observation, set_observation_token, observation_number, set_coap_content_type,
  get_value, text_of, add_observation_level, remove_observation_level, o_attribute, oi_attribute,
  r_attribute,
}
use mbed_client.Objects.Levels.{
  object_add_level, object_remove_level, instance_add_level, instance_remove_level,
  resource_add_level, resource_remove_level,
}
use mbed_client.Objects.Make.{content_tlv}
use mbed_client.Requests.{
  Code, content, method_not_allowed, unsupported_content_format, Request, Response, Coap, with_code,
  allows, content_type_of, observe_of, Subject, observe_request,
}

-- The data of the serialiser; no bytes stand for NULL.
abbrev pub data_of : Out → Option (List ℕ)
data_of out = if length out.bytes == 0 then none else some out.bytes

abbrev pub is_opaque : ResourceType → Bool
is_opaque opaque = true
is_opaque string = false
is_opaque integer = false
is_opaque float = false
is_opaque boolean = false
is_opaque time = false
is_opaque objlink = false

-- `COAP_CONTENT_OMA_OPAQUE_TYPE`
abbrev pub content_opaque : ℕ
content_opaque = 42

-- A response whose format nsdl-c left open gets the type of the request, and so does the node.
unfoldable pub set_format : {F : Type 0} → ℕ → Response → Node F → Response × Node F
unfolding set_coap_content_type
set_format type response n = elim response.content_format [
  | none ↦ (record response { content_format = some type }, set_coap_content_type (type % 256) n)
  | some format ↦ (response, n)
]

abbrev pub with_payload : Out → Response → Response
with_payload out r = record r { payload = data_of out; payload_len = out.size }

module _ (f : Float) (malloc : ℕ → Bool) (nsdl : Coap) (has_handler : Bool) where
  open f use {F}

  unfoldable pub object_subject : Subject (ObjectNode F)
  unfolding set_under_observation set_observation_token observation_number object_add_level
      object_remove_level
  object_subject = record {
    is_observable = λ o. o.node.observable;
    start = λ o. object_add_level f o_attribute (record o {
      node = set_under_observation f true has_handler o.node;
      observation_handler = has_handler;
    });
    stop = λ o. object_remove_level f o_attribute (record o {
      node = set_under_observation f false false o.node;
      observation_handler = false;
    });
    set_token = λ token o. record o { node = set_observation_token f malloc token o.node };
    number = λ o. observation_number f o.node;
  }

  -- An object instance or a resource, and whether its object has an observation handler.
  unfoldable pub instance_subject : Subject (InstanceNode F × Bool)
  unfolding set_under_observation set_observation_token observation_number instance_add_level
      instance_remove_level
  instance_subject = record {
    is_observable = λ s. s.0.node.observable;
    start = λ s. (
      instance_add_level f oi_attribute
          (record (s.0) { node = set_under_observation f true has_handler s.0.node }),
      has_handler,
    );
    stop = λ s. (
      instance_remove_level f oi_attribute
          (record (s.0) { node = set_under_observation f false false s.0.node }),
      false,
    );
    set_token =
        λ token s. (record (s.0) { node = set_observation_token f malloc token s.0.node }, s.1);
    number = λ s. observation_number f s.0.node;
  }

  unfoldable pub resource_subject : Subject (ResourceNode F × Bool)
  unfolding set_under_observation set_observation_token observation_number resource_add_level
      resource_remove_level
  resource_subject = record {
    is_observable = λ s. s.0.node.observable;
    start = λ s. (
      resource_add_level f r_attribute
          (record (s.0) { node = set_under_observation f true has_handler s.0.node }),
      has_handler,
    );
    stop = λ s. (
      resource_remove_level f r_attribute
          (record (s.0) { node = set_under_observation f false false s.0.node }),
      false,
    );
    set_token =
        λ token s. (record (s.0) { node = set_observation_token f malloc token s.0.node }, s.1);
    number = λ s. observation_number f s.0.node;
  }

  -- `M2MResourceBase`, which changes the level of its own node only.
  unfoldable pub value_subject : Subject (Node F × Bool)
  unfolding set_under_observation set_observation_token observation_number add_observation_level
      remove_observation_level
  value_subject = record {
    is_observable = λ s. s.0.observable;
    start = λ s. (
      add_observation_level f r_attribute (set_under_observation f true has_handler s.0),
      has_handler,
    );
    stop = λ s.
        (remove_observation_level f r_attribute (set_under_observation f false false s.0), false);
    set_token = λ token s. (set_observation_token f malloc token s.0, s.1);
    number = λ s. observation_number f s.0;
  }

  -- The end of a GET, from the code so far and a response whose options are there.
  unfoldable pub answer_observe :
      {S : Type 0} → Subject S → Request → Code → Response → S → Option Response × S
  unfolding observe_request observe_of
  answer_observe subject request code response s = elim (observe_of request) [
    | none ↦ (some (record response { msg_code = code }), s)
    | some observe ↦
        let (code', response', s') = observe_request subject observe request.token response s in
        (some (record response' { msg_code = code' }), s')
  ]

  -- The options of the response, without which `max_age` is written through NULL.
  unfoldable pub with_options : ℕ → Response → Option Response
  with_options max_age r =
      if nsdl.alloc_options_list r then some (record r { max_age = some max_age }) else none

  -- Without a request, or where GET is not allowed, there is nothing but the code.
  unfoldable pub object_get_request :
      Platform
      → Option Request
      → List ObjectInstance
      → ObjectNode F
      → Option (Option Response × ObjectNode F)
  unfolding set_format with_options answer_observe object_subject content_type_of
  object_get_request p none values o =
      some (with_code method_not_allowed (nsdl.build_response none content), o)
  object_get_request p (some request) values o =
      if not (allows 1 o.node)
      then some (with_code method_not_allowed (nsdl.build_response (some request) content), o)
      else elim (nsdl.build_response (some request) content) [
        | none ↦ some (none, o)
        | some response ↦
            let type = content_type_of request.content_format o.node in
            let (r1, n) = set_format type response o.node in
            let o1 : ObjectNode F = record o { node = n } in
            let out =
              if type == content_tlv
              then serialize_object_instances p values nothing
              else nothing in
            do
              r2 ← with_options n.max_age (with_payload out r1)
              some (elim (data_of out) [
                | none ↦ (some (record r2 { msg_code = unsupported_content_format }), o1)
                | some bytes ↦ answer_observe object_subject request content r2 o1
              ])
      ]

  unfoldable pub instance_get_request :
      Platform
      → Option Request
      → List Resource
      → InstanceNode F × Bool
      → Option (Option Response × (InstanceNode F × Bool))
  unfolding set_format with_options answer_observe instance_subject content_type_of
  instance_get_request p none values s =
      some (with_code method_not_allowed (nsdl.build_response none content), s)
  instance_get_request p (some request) values s =
      if not (allows 1 s.0.node)
      then some (with_code method_not_allowed (nsdl.build_response (some request) content), s)
      else elim (nsdl.build_response (some request) content) [
        | none ↦ some (none, s)
        | some response ↦
            let type = content_type_of request.content_format s.0.node in
            let (r1, n) = set_format type response s.0.node in
            let s1 : InstanceNode F × Bool = (record (s.0) { node = n }, s.1) in
            let out = if type == content_tlv then (serialize_resources p values 0).1 else nothing in
            let r2 = with_payload out r1 in
            elim (data_of out) [
              | none ↦ some (some (record r2 { msg_code = unsupported_content_format }), s1)
              | some bytes ↦ (do
                r3 ← with_options n.max_age r2
                some (answer_observe instance_subject request content r3 s1))
            ]
      ]

  -- A value; if the application stores it, `outgoing` is its function, with what that gives.
  unfoldable pub value_get_request :
      Option (Option (List ℕ))
      → Option BlockMessage
      → Option Request
      → Node F × Bool
      → Option (Option Response × (Node F × Bool))
  unfolding get_value with_options answer_observe value_subject
  value_get_request outgoing block none s =
      some (with_code method_not_allowed (nsdl.build_response none content), s)
  value_get_request outgoing block (some request) s =
      if not (allows 1 s.0)
      then some (with_code method_not_allowed (nsdl.build_response (some request) content), s)
      else elim (nsdl.build_response (some request) content) [
        | none ↦ some (none, s)
        | some response ↦
            let external : Bool = elim block [ none ↦ false | some b ↦ b.is_block_message ] in
            let payload : Option (List ℕ) =
              if external
              then elim outgoing [ none ↦ none | some given ↦ given ]
              else get_value malloc s.0 in
            do
              r ← with_options s.0.max_age (record response {
                content_format = some (if is_opaque s.0.data_type then content_opaque else 0);
                payload = payload;
                payload_len = length (text_of payload);
              })
              some (answer_observe value_subject request content r s)
      ]

  -- `M2MResource`: a resource of several instances is sent as TLV, any other as its value.
  unfoldable pub resource_get_request :
      Platform
      → Option (Option (List ℕ))
      → Option Request
      → Resource
      → ResourceNode F × Bool
      → Option (Option Response × (ResourceNode F × Bool))
  unfolding set_format with_options answer_observe resource_subject content_type_of
      value_get_request
  resource_get_request p outgoing none values s =
      some (with_code method_not_allowed (nsdl.build_response none content), s)
  resource_get_request p outgoing (some request) values s =
      if not s.0.node.multiple_instance
      then (do
        (response, (n, handled)) ←
            value_get_request outgoing s.0.block_message (some request) (s.0.node, s.1)
        some (response, (record (s.0) { node = n }, handled)))
      else if not (allows 1 s.0.node)
      then some (with_code method_not_allowed (nsdl.build_response (some request) content), s)
      else elim (nsdl.build_response (some request) content) [
        | none ↦ some (none, s)
        | some response ↦
            let type = content_type_of request.content_format s.0.node in
            let (r1, n) = set_format type response s.0.node in
            let s1 : ResourceNode F × Bool = (record (s.0) { node = n }, s.1) in
            let is_tlv = type == content_tlv in
            let out = if is_tlv then (serialize p values nothing).1 else nothing in
            do
              r2 ← with_options n.max_age (with_payload out r1)
              some (
                  answer_observe resource_subject request
                    (if is_tlv then content else unsupported_content_format) r2 s1)
      ]
