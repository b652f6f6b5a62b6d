-- ===== src/Requests/Put.antt =====
-- `handle_put_request` of an object, an object instance and a resource of several instances. Of the
-- values below a node there is what the TLV deserialiser reads and writes. `none` as a result also
-- stands for a read behind the payload.
use mbed_client.Common.{
  ℕ, ◌+◌, Bool, true, not, ◌&&◌, List, ◌++◌, length, ◌==◌, Option, none, some, ◌>>=◌, if◌then◌else◌,
}
use mbed_client.Report.{Float}
use mbed_client.Tlv.{Platform, Resource, ObjectInstance, opaque}
use mbed_client.Tlv.Deserializer.{
  Error, ok, not_found, not_allowed, not_valid, Outcome, done, out_of_bounds, out_of_fuel, is_ok,
  put,
}
use mbed_client.Tlv.Deserializer.Resources.{deserialize_resources}
use mbed_client.Tlv.Deserializer.Instances.{deserialize_resource_instances}
use mbed_client.Objects.{Node, ResourceNode}
use mbed_client.Objects.Line.{Message}
use mbed_client.Objects.Levels.{resource_observation_attribute}
use mbed_client.Objects.Make.{content_tlv}
use mbed_client.Requests
use mbed_client.Requests.{
  Code, changed, bad_request, method_not_allowed, unsupported_content_format, Request, Response,
  Coap, with_code, allows, query_of, put_query, content_type_of,
}

-- An object instance with its values; whether the application is told of a change.
pub record Served (F V : Type 0) : Type 0 where
  pub node : Node F
  pub values : V
  pub updated : Bool

-- A resource of several instances, with its values; whether its object has an observation handler.
pub record ServedResource (F : Type 0) : Type 0 where
  pub resource : ResourceNode F
  pub values : Resource
  pub observation_handler : Bool
  pub messages : List Message
  pub updated : Bool

-- The result of the deserialiser, where it has one.
abbrev pub finished : {A : Type 0} → Outcome A → Option A
finished (done a) = some a
finished out_of_bounds = none
finished out_of_fuel = none

abbrev pub code_of : Error → Code
code_of ok = changed
code_of not_found = Requests.not_found
code_of not_allowed = method_not_allowed
code_of not_valid = bad_request

-- The content type of a PUT or a POST, which is 0 if there is a format but no response.
unfoldable pub put_content_type : {F : Type 0} → Request → Option Response → Node F → ℕ
unfolding content_type_of
put_content_type request none n = elim request.content_format [
  | none ↦ content_type_of none n
  | some format ↦ 0
]
put_content_type request (some response) n = content_type_of request.content_format n

module _ (f : Float) (malloc : ℕ → Bool) (nsdl : Coap) where
  open f use {F}

  unfoldable pub object_put : Option Request → Node F → Option (Option Response × Node F)
  unfolding put_query query_of
  object_put none n = some (with_code method_not_allowed (nsdl.build_response none changed), n)
  object_put (some request) n =
      let response = nsdl.build_response (some request) changed in
      elim (query_of request) [
        | none ↦ some (with_code bad_request response, n)
        | some query ↦ (do
          (code, n') ← put_query f malloc opaque query n
          some (with_code code response, n'))
      ]

  unfoldable pub instance_put_payload :
      Platform → Bool → Request → Served F ObjectInstance → Option (Code × Served F ObjectInstance)
  unfolding deserialize_resources
  instance_put_payload p has_handler request s = elim request.payload [
    | none ↦ some (changed, s)
    | some tlv ↦ (do
      (error, o) ← finished (deserialize_resources p tlv (length tlv) s.values put)
      some (
        code_of error,
        record s { values = o; updated = if is_ok error && has_handler then true else s.updated },
      ))
  ]

  unfoldable pub instance_put :
      Platform
      → Bool
      → Option Request
      → Served F ObjectInstance
      → Option (Option Response × Served F ObjectInstance)
  unfolding put_query query_of put_content_type instance_put_payload
  instance_put p has_handler none s =
      some (with_code method_not_allowed (nsdl.build_response none changed), s)
  instance_put p has_handler (some request) s =
      let response = nsdl.build_response (some request) changed in
      elim (query_of request) [
        | some query ↦ (do
          (code, n) ← put_query f malloc opaque query s.node
          some (with_code code response, record s { node = n }))
        | none ↦
            if not (allows 2 s.node)
            then some (with_code method_not_allowed response, s)
            else if not (put_content_type request response s.node == content_tlv)
            then some (with_code unsupported_content_format response, s)
            else (do
              (code, s') ← instance_put_payload p has_handler request s
              some (with_code code response, s'))
      ]

  -- The copy of a query, if it can be made, goes to the resource, which tells its instances.
  unfoldable pub resource_query : List ℕ → ServedResource F → Option (Code × ServedResource F)
  unfolding resource_observation_attribute
  resource_query query s = if not (malloc (length query + 1)) then some (changed, s) else (do
    (success, sent, r) ← resource_observation_attribute f s.observation_handler query s.resource
    some (
      if success then changed else bad_request,
      record s { resource = r; messages = sent ++ s.messages },
    ))

  -- A payload that is not there is not valid.
  unfoldable pub resource_put_payload :
      Platform → Bool → Request → ServedResource F → Option (Code × ServedResource F)
  unfolding deserialize_resource_instances
  resource_put_payload p has_handler request s = elim request.payload [
    | none ↦ some (bad_request, s)
    | some tlv ↦ (do
      (error, r) ← finished (deserialize_resource_instances p tlv (length tlv) s.values put)
      some (
        code_of error,
        record s { values = r; updated = if is_ok error && has_handler then true else s.updated },
      ))
  ]

  -- A resource of several instances.
  unfoldable pub resource_put :
      Platform
      → Bool
      → Option Request
      → ServedResource F
      → Option (Option Response × ServedResource F)
  unfolding resource_query query_of put_content_type resource_put_payload
  resource_put p has_handler none s =
      some (with_code method_not_allowed (nsdl.build_response none changed), s)
  resource_put p has_handler (some request) s =
      let response = nsdl.build_response (some request) changed in
      elim (query_of request) [
        | some query ↦ (do (code, s') ← resource_query query s; some (with_code code response, s'))
        | none ↦
            if not (allows 2 s.resource.node)
            then some (with_code method_not_allowed response, s)
            else if not (put_content_type request response s.resource.node == content_tlv)
            then some (with_code unsupported_content_format response, s)
            else (do
              (code, s') ← resource_put_payload p has_handler request s
              some (with_code code response, s'))
      ]
