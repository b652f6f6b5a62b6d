-- ===== src/Requests.antt =====
-- The CoAP requests that `handle_get_request`, `handle_put_request` and `handle_post_request` of
-- source/m2mobject.cpp, source/m2mobjectinstance.cpp, source/m2mresource.cpp and
-- source/m2mresourcebase.cpp answer. What nsdl-c builds is a parameter. `none` as a result stands
-- for the use of a null pointer, or for a query that overruns an array.
pub mod Get
pub mod Value
pub mod Put
pub mod Post
pub mod Refused
pub mod Created
pub mod Observed
pub mod Blocks
pub mod Tests
use mbed_client.Common.{
  ℕ, ◌+◌, ◌*◌, ◌%◌, Bool, true, false, not, ◌&&◌, ◌||◌, bit_and, List, [], ◌∷◌, length, ◌==◌,
  Option, none, some, ◌>>=◌, if◌then◌else◌,
}
use mbed_client.Report.{Float}
use mbed_client.Block
use mbed_client.Objects.{Node}
use mbed_client.Objects.Base.{handle_observation_attribute}
use mbed_client.Objects.Make.{content_tlv}
use mbed_client.Tlv.{ResourceType}

-- The codes of responses, 2.01 to 5.00.
pub data Code : Type 0 where
  created changed content bad_request not_found : Code
  method_not_allowed unsupported_content_format internal_server_error empty_message : Code

-- The options of a request: `observe` is `none` for -1, `uri_query` for NULL.
pub record RequestOptions : Type 0 where
  pub block : Block.Options
  pub observe : Option ℕ
  pub uri_query : Option (List ℕ)

-- `content_format` is `none` for `COAP_CT_NONE`, `payload` and `token` for NULL; a token that is
-- there is not empty.
pub record Request : Type 0 where
  pub content_format : Option ℕ
  pub options : Option RequestOptions
  pub payload : Option (List ℕ)
  pub token : Option (List ℕ)
  pub msg_id : ℕ

-- What a handler writes into a response; `location_path` and `observe` are in its options.
pub record Response : Type 0 where
  pub msg_code : Code
  pub content_format : Option ℕ
  pub payload : Option (List ℕ)
  pub payload_len : ℕ
  pub max_age : Option ℕ
  pub observe : Option ℕ
  pub location_path : Option (List ℕ)
  pub coap_status : Option Bool

-- `sn_nsdl_build_response`, whose answer may be NULL, and whether `sn_nsdl_alloc_options_list`
-- gives a list.
pub record Coap : Type 0 where
  pub build_response : Option Request → Code → Option Response
  pub alloc_options_list : Response → Bool

abbrev pub with_code : Code → Option Response → Option Response
with_code code none = none
with_code code (some r) = some (record r { msg_code = code })

-- `(operation() & SN_GRS_GET_ALLOWED) != 0` and its kin, of the bits 1, 2 and 4.
abbrev pub allows : {F : Type 0} → ℕ → Node F → Bool
allows operation n = not (bit_and n.access operation == 0)

-- The content type that a request is taken to have: its own, or for a node whose own type is TLV,
-- that.
unfoldable pub content_type_of : {F : Type 0} → Option ℕ → Node F → ℕ
content_type_of (some format) n = format
content_type_of none n = if n.coap_content_type == content_tlv then content_tlv else 0

-- The query of a request, if it has one.
unfoldable pub query_of : Request → Option (List ℕ)
query_of request = elim request.options [ none ↦ none | some o ↦ o.uri_query ]

unfoldable pub observe_of : Request → Option ℕ
observe_of request = elim request.options [ none ↦ none | some o ↦ o.observe ]

module _ (f : Float) (malloc : ℕ → Bool) where
  open f use {F}

  -- The notification attributes of a query. `type` is what the parser is told: a resource's type, and
  -- OPAQUE for an object or an object instance. If the copy of the query fails, nothing is done.
  unfoldable pub put_query : ResourceType → List ℕ → Node F → Option (Code × Node F)
  unfolding handle_observation_attribute
  put_query type query n = if not (malloc (length query + 1)) then some (changed, n) else (do
    (success, n') ← handle_observation_attribute f type query n
    some (if success then changed else bad_request, n'))

-- What the handlers of GET do to what is observed: an object, an object instance or a resource.
pub record Subject (S : Type 0) : Type 0 where
  pub is_observable : S → Bool
  pub start : S → S
  pub stop : S → S
  pub set_token : List ℕ → S → S
  pub number : S → ℕ

module _ {S : Type 0} (subject : Subject S) where
  unfoldable pub with_token : Option (List ℕ) → S → S
  with_token none s = s
  with_token (some token) s = subject.set_token token s

  -- The option "observe" of a GET. Its last byte says whether observation starts or stops, but it
  -- starts only if the whole number is 0.
  unfoldable pub observe_request : ℕ → Option (List ℕ) → Response → S → Code × Response × S
  unfolding with_token
  observe_request observe token response s =
      let started = subject.start s in
      if not (subject.is_observable s)
      then (method_not_allowed, response, s)
      else if observe % 256 == 0
      then if observe == 0
        then (
          content,
          record response { observe = some (subject.number started) },
          with_token token started,
        )
        else (content, response, with_token token s)
      else if observe % 256 == 1
      then (content, response, subject.stop s)
      else (content, response, s)
