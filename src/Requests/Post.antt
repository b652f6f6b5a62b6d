-- ===== src/Requests/Post.antt =====
-- `handle_post_request` of an object, an object instance and a resource.
use mbed_client.Common.{
  ℕ, zero, suc, ◌+◌, Bool, true, false, not, ◌&&◌, ◌||◌, List, [], ◌∷◌, ◌++◌, length, ◌==◌, Option,
  none, some, ◌>>=◌, if◌then◌else◌,
}
use mbed_client.Buffer.{empty, ensure_space}
use mbed_client.Buffer.Paths.{build_path_3, create_object_instance_path, add, add_slash, add_int}
use mbed_client.Tlv.{Platform, ObjectInstance}
use mbed_client.Tlv.Header.{is_object_instance, is_resource, is_multiple_resource, instance_id}
use mbed_client.Tlv.Deserializer.{Error, ok, not_found, not_allowed, not_valid, is_ok, post}
use mbed_client.Tlv.Deserializer.Resources.{deserialize_resources, deserialise_object_instances}
use mbed_client.Objects.{ResourceNode}
use mbed_client.Objects.Base.{get_value, text_of}
use mbed_client.Objects.Line.{id_of}
use mbed_client.Objects.Make.{content_tlv}
use mbed_client.Requests.{
  created, changed, bad_request, method_not_allowed, unsupported_content_format,
  internal_server_error, empty_message, Request, Response, Coap, with_code, allows,
}
use mbed_client.Requests.Put.{Served, finished, code_of, put_content_type}

unfoldable pub has_object_instance : ℕ → List ObjectInstance → Bool
has_object_instance id [] = false
has_object_instance id (o ∷ os) = o.instance_id == id || has_object_instance id os

-- The loop for the next free number, from `id` on; `none` if it comes to the last number.
unfoldable pub free_id : ℕ → ℕ → List ObjectInstance → Option ℕ
unfolding has_object_instance
free_id zero id os = none
free_id (suc left) id os =
    let next = free_id left (suc id) os in if has_object_instance id os then next else some id

-- The object instance of a number after the deserialiser.
unfoldable pub replace_instance : ℕ → ObjectInstance → List ObjectInstance → List ObjectInstance
replace_instance id o [] = []
replace_instance id o (x ∷ xs) =
    let rest = replace_instance id o xs in if x.instance_id == id then o ∷ xs else x ∷ rest

-- `M2MObject::create_object_instance`, as far as the deserialiser sees it.
unfoldable pub add_object_instance :
    (ℕ → Bool) → List ℕ → ℕ → List ObjectInstance → Bool × List ObjectInstance
unfolding has_object_instance create_object_instance_path
add_object_instance malloc object_name id os =
    if has_object_instance id os
    then (false, os)
    else elim (create_object_instance_path malloc object_name id) [
      | none ↦ (false, os)
      | some path ↦ (true, os ++ (record { instance_id = id; resources = [] } ∷ []))
    ]

-- The deserialiser on the payload of a POST to an object, after the instance `id` was made or not.
unfoldable pub post_instances :
    Platform → Bool → Bool → ℕ → List ℕ → List ObjectInstance → Option (Error × List ObjectInstance)
unfolding deserialise_object_instances deserialize_resources replace_instance is_resource
    is_multiple_resource
post_instances p is_instance was_made id tlv os =
    if is_instance then finished (deserialise_object_instances p tlv (length tlv) os post) else (do
      resource ← is_resource tlv
      multiple ← is_multiple_resource tlv
      if was_made && (resource || multiple)
          then (do
            (error, o) ← finished (
                deserialize_resources p tlv (length tlv)
                  (record { instance_id = id; resources = [] }) post)
            some (error, replace_instance id o os))
          else some (not_valid, os))

module _ (malloc : ℕ → Bool) (nsdl : Coap) (object_name : List ℕ) where
  -- The response to a POST that made something; its path is there if the options are. Without a
  -- response, NULL is used.
  unfoldable pub created_response : Option (List ℕ) → Option Response → Option (Option Response)
  created_response path none = none
  created_response path (some r) = some (
      some (record r {
        msg_code = created;
        location_path = if nsdl.alloc_options_list r then path else r.location_path;
      }))

  -- The path of the new object instance, in `MAX_OBJECT_PATH_NAME` characters.
  unfoldable pub location_of : ℕ → Option (List ℕ)
  unfolding ensure_space
  location_of id =
      let path = (add_int id (add_slash (add object_name (empty 268)))).chars in
      if ensure_space (length object_name + 7) (empty 268) && malloc (length path)
      then some path
      else none

  -- `served` comes back with the error code, or with the response to what was made.
  unfoldable pub finish_post :
      {F V : Type 0}
      → Bool
      → Error
      → Option (List ℕ)
      → Option Response
      → Served F V
      → Option (Option Response × Served F V)
  unfolding created_response
  finish_post has_handler error path response s =
      if is_ok error
      then (do
        r ← created_response path response
        some (r, record s { updated = if has_handler then true else s.updated }))
      else some (with_code (code_of error) response, s)

  -- A TLV payload, of a new object instance of the least free number or of those that it names.
  unfoldable pub post_object_payload :
      {F : Type 0}
      → Platform
      → Bool
      → List ℕ
      → Option Response
      → Served F (List ObjectInstance)
      → Option (Option Response × Served F (List ObjectInstance))
  unfolding free_id add_object_instance post_instances finish_post location_of is_object_instance
      instance_id
  post_object_payload p has_handler tlv response s = elim (free_id 65536 0 s.values) [
    | none ↦ some (with_code method_not_allowed response, s)
    | some free ↦ (do
      is_instance ← is_object_instance tlv
      id ← if is_instance then instance_id tlv else some free
      if is_instance && has_object_instance id s.values
          then some (with_code bad_request response, s)
          else (do
            let (was_made, os) = add_object_instance malloc object_name id s.values
            (error, os') ← post_instances p is_instance was_made id tlv os
            finish_post has_handler error (location_of id) response (record s { values = os' })))
  ]

  unfoldable pub object_post :
      {F : Type 0}
      → Platform
      → Bool
      → Option Request
      → Served F (List ObjectInstance)
      → Option (Option Response × Served F (List ObjectInstance))
  unfolding put_content_type post_object_payload
  object_post p has_handler none s =
      some (with_code method_not_allowed (nsdl.build_response none changed), s)
  object_post p has_handler (some request) s =
      let response = nsdl.build_response (some request) changed in
      if not (allows 4 s.node)
      then some (with_code method_not_allowed response, s)
      else elim request.payload [
        | none ↦ some (with_code bad_request response, s)
        | some tlv ↦
            if put_content_type request response s.node == content_tlv
            then post_object_payload p has_handler tlv response s
            else some (with_code unsupported_content_format response, s)
      ]

  -- The response to the POST of an object instance: a path that has no room is an error of the
  -- server, and a resource that is not found leaves the code as it is.
  unfoldable pub instance_response : ℕ → ℕ → Error → Option Response → Option (Option Response)
  unfolding build_path_3
  instance_response instance_number id ok none = none
  instance_response instance_number id ok (some r) =
      let (room, path) = build_path_3 object_name instance_number id (empty 77) in
      if not (nsdl.alloc_options_list r)
      then some (some (record r { msg_code = created }))
      else if room
      then some (
          some (record r {
            msg_code = created;
            location_path = if malloc (length path.chars + 1) then some path.chars else none;
          }))
      else some (some (record r { msg_code = internal_server_error }))
  instance_response instance_number id not_found response = some (with_code changed response)
  instance_response instance_number id not_allowed response =
      some (with_code method_not_allowed response)
  instance_response instance_number id not_valid response = some (with_code bad_request response)

  -- Without payload the number of the resource is read through NULL.
  unfoldable pub instance_post :
      {F : Type 0}
      → Platform
      → Bool
      → Option Request
      → Served F ObjectInstance
      → Option (Option Response × Served F ObjectInstance)
  unfolding put_content_type deserialize_resources instance_id instance_response
  instance_post p has_handler none s =
      some (with_code method_not_allowed (nsdl.build_response none changed), s)
  instance_post p has_handler (some request) s =
      let response = nsdl.build_response (some request) changed in
      if not (allows 4 s.node)
      then some (with_code method_not_allowed response, s)
      else if not (put_content_type request response s.node == content_tlv)
      then some (with_code unsupported_content_format response, s)
      else (do
        tlv ← request.payload
        (error, o) ← finished (deserialize_resources p tlv (length tlv) s.values post)
        id ← instance_id tlv
        r ← instance_response (id_of s.node) id error response
        some (
          r,
          record s { values = o; updated = if is_ok error && has_handler then true else s.updated },
        ))

  -- `M2MResource`: the argument that its function is executed with, if it is, and whether the
  -- acknowledgement of a delayed response was sent.
  unfoldable pub resource_post :
      {F : Type 0}
      → Option Request
      → ResourceNode F
      → Option (Option Response × ResourceNode F × Option (List ℕ) × Bool)
  unfolding get_value
  resource_post none r =
      some (with_code method_not_allowed (nsdl.build_response none changed), r, none, false)
  resource_post (some request) r =
      let response = nsdl.build_response (some request) changed in
      let unsupported : Bool = elim request.payload [
        | none ↦ false
        | some bytes ↦ elim request.content_format [ none ↦ false | some t ↦ not (t == 0) ]
      ] in
      let argument = text_of request.payload in
      if not (allows 4 r.node)
      then some (with_code method_not_allowed response, r, none, false)
      else if unsupported
      then some (with_code unsupported_content_format response, r, none, false)
      else (do
        answer ← response
        if r.delayed_response
            then elim request.token [
              | none ↦
                  some (some (record answer { msg_code = empty_message }), r, some argument, false)
              | some token ↦ some (
                some (record answer { msg_code = empty_message }),
                record r { delayed_token = if malloc (length token) then some token else none },
                some argument,
                true,
              )
            ]
            else some (
              some (record answer {
                msg_code = changed;
                payload = get_value malloc r.node;
                payload_len = length (text_of (get_value malloc r.node));
              }),
              r,
              some argument,
              false,
            ))
