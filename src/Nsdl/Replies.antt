-- ===== src/Nsdl/Replies.antt =====
-- The server's replies to a registration, an update, the end of a registration and a bootstrap, and
-- the lifetime of the registration, of source/m2mnsdlinterface.cpp. The handle of nsdl-c and the
-- endpoint are not NULL.
use mbed_client.Common.{
  ℕ, ◌+◌, ◌-◌, ◌*◌, ◌/◌, ◌%◌, Bool, true, false, not, List, ◌∷◌, length, ◌==◌, leb, ltb, Option,
  none, some, if◌then◌else◌,
}
use mbed_client.Common.Int.{ℤ, pos, negsuc}
use mbed_client.Text.{itoa_c}

pub data MessageCode : Type 0 where
  bad_request bad_option entity_incomplete precondition_failed entity_too_large : MessageCode
  unsupported_content_format : MessageCode
  unauthorized forbidden not_acceptable not_found method_not_allowed : MessageCode
  created deleted valid changed content : MessageCode
  other : MessageCode

-- A reply: its options with the lifetime and the location, and whether nsdl-c failed to send the
-- request (`COAP_STATUS_BUILDER_MESSAGE_SENDING_FAILED`).
pub record ReplyOptions : Type 0 where
  pub max_age : ℕ
  pub location : Option (List ℕ)

pub record Reply : Type 0 where
  pub msg_code : MessageCode
  pub sending_failed : Bool
  pub options : Option ReplyOptions

-- What is asked of the client's interface, of nsdl-c and of the timers, with their milliseconds.
pub data Asked : Type 0 where
  client_registered registration_updated client_unregistered bootstrap_error : Asked
  registration_error : ℕ → Bool → Asked
  register_endpoint unregister_endpoint : Asked
  set_location : List ℕ → Asked
  stop_registration stop_execution : Asked
  start_registration start_execution : ℕ → Asked

-- `lifetime` is the text of `_endpoint->lifetime_ptr`, `none` for NULL; the latest call is the first.
pub record Endpoint : Type 0 where
  pub lifetime : Option (List ℕ)
  pub unregister_ongoing : Bool
  pub bootstrap_id : ℕ
  pub identity_accepted : Bool
  pub asked : List Asked

abbrev pub ask : Asked → Endpoint → Endpoint
ask call e = record e { asked = call ∷ e.asked }

-- The members of `M2MInterface::Error` by their numbers.
abbrev pub error_none : ℕ
error_none = 0

abbrev pub invalid_parameters : ℕ
invalid_parameters = 3

abbrev pub network_error : ℕ
network_error = 6

abbrev pub unknown_error : ℕ
unknown_error = 8

abbrev pub not_allowed : ℕ
not_allowed = 10

unfoldable pub code_error : MessageCode → ℕ
code_error bad_request = invalid_parameters
code_error bad_option = invalid_parameters
code_error entity_incomplete = invalid_parameters
code_error precondition_failed = invalid_parameters
code_error entity_too_large = invalid_parameters
code_error unsupported_content_format = invalid_parameters
code_error unauthorized = not_allowed
code_error forbidden = not_allowed
code_error not_acceptable = not_allowed
code_error not_found = not_allowed
code_error method_not_allowed = not_allowed
code_error created = error_none
code_error deleted = error_none
code_error valid = error_none
code_error changed = error_none
code_error content = error_none
code_error other = unknown_error

unfoldable pub interface_error : Reply → ℕ
unfolding code_error
interface_error r = if r.sending_failed then network_error else code_error r.msg_code

-- A number of 32 bits as an `int`, and a `long` as a `uint64_t`.
unfoldable pub as_int : ℕ → ℤ
as_int n = if ltb n 2147483648 then pos n else negsuc (4294967295 - n)

unfoldable pub as_uint64 : ℤ → ℕ
as_uint64 (pos n) = n
as_uint64 (negsuc n) = 18446744073709551615 - n

module _ (malloc : ℕ → Bool) (atol : List ℕ → ℤ) where
  unfoldable pub set_endpoint_lifetime_buffer : ℤ → Endpoint → Endpoint
  set_endpoint_lifetime_buffer lifetime e =
      let text = itoa_c lifetime in
      if leb (length text) 21
      then record e { lifetime = if malloc (length text + 1) then some text else none }
      else e

  -- In seconds; below 3600 the product with the float 0.75 is exact.
  unfoldable pub registration_time : Endpoint → ℕ
  unfolding as_uint64
  registration_time e =
      let value : ℕ = elim e.lifetime [ none ↦ 0 | some text ↦ as_uint64 (atol text) ] in
      if leb 3600 value then value - 900 else value * 3 / 4

  unfoldable pub start_registration_timer : Endpoint → Endpoint
  unfolding registration_time
  start_registration_timer e =
      ask (start_registration (registration_time e * 1000 % 18446744073709551616))
        (ask stop_registration e)

  -- The lifetime and the location of a registration.
  unfoldable pub take_options : ReplyOptions → Endpoint → Endpoint
  unfolding set_endpoint_lifetime_buffer as_int
  take_options o e =
      let e1 = record e { lifetime = none } in
      let e2 = if ltb 0 o.max_age then set_endpoint_lifetime_buffer (as_int o.max_age) e1 else e1 in
      elim o.location [ none ↦ e2 | some location ↦ ask (set_location location) e2 ]

  -- A registration with a lifetime is renewed.
  unfoldable pub renew : Endpoint → Endpoint
  unfolding start_registration_timer
  renew e = elim e.lifetime [ none ↦ e | some text ↦ start_registration_timer e ]

  unfoldable pub register_reply : Reply → Endpoint → Endpoint
  unfolding take_options renew
  register_reply r e = elim r.msg_code [
    | created ↦
        let e1 = ask client_registered e in
        renew (elim r.options [ none ↦ e1 | some o ↦ take_options o e1 ])
    | bad_request ↦ ask (registration_error invalid_parameters false) e
    | forbidden ↦ ask (registration_error invalid_parameters false) e
    | _ ↦ ask (registration_error network_error true) e
  ]

unfoldable pub unregister_reply : Reply → Endpoint → Endpoint
unfolding interface_error
unregister_reply r e =
    let e1 = record e { unregister_ongoing = false } in
    elim r.msg_code [
      | deleted ↦ ask client_unregistered (ask stop_registration e1)
      | _ ↦ ask (registration_error (interface_error r) false) e1
    ]

-- An update that fails is followed by a registration.
unfoldable pub update_reply : Reply → Endpoint → Endpoint
update_reply r e = elim r.msg_code [
  | changed ↦ ask registration_updated e
  | _ ↦ ask register_endpoint (ask stop_registration e)
]

unfoldable pub bootstrap_reply : Reply → Endpoint → Endpoint
unfolding interface_error
bootstrap_reply r e =
    let e1 = record e { bootstrap_id = 0 } in
    if not (interface_error r == error_none)
    then ask bootstrap_error (record e1 { identity_accepted = false })
    else record e1 { identity_accepted = true }

-- The numbers of the messages that nsdl-c waits for a reply to.
pub record MessageIds : Type 0 where
  pub register_msg_id : ℕ
  pub unregister_msg_id : ℕ
  pub update_register_msg_id : ℕ
  pub bootstrap_msg_id : ℕ

-- The first part of `received_from_server_callback`; `none` for a message that is no such reply.
unfoldable pub received_reply :
    (ℕ → Bool) → (List ℕ → ℤ) → MessageIds → ℕ → Reply → Endpoint → Option Endpoint
unfolding register_reply unregister_reply update_reply bootstrap_reply
received_reply malloc atol ids msg_id r e =
    if msg_id == ids.register_msg_id
    then some (register_reply malloc atol r e)
    else if msg_id == ids.unregister_msg_id
    then some (unregister_reply r e)
    else if msg_id == ids.update_register_msg_id
    then some (update_reply r e)
    else if msg_id == ids.bootstrap_msg_id
    then some (bootstrap_reply r e)
    else none

-- The argument is the answer of `sn_nsdl_register_endpoint`, 0 for a failure.
unfoldable pub send_register_message : ℕ → Endpoint → Bool × Endpoint
send_register_message answer e =
    (not (answer == 0), ask register_endpoint (ask (start_execution 1000) (ask stop_execution e)))

-- A second request while one is under way is a success, and sends nothing.
unfoldable pub send_unregister_message : ℕ → Endpoint → Bool × Endpoint
send_unregister_message answer e =
    if e.unregister_ongoing
    then (true, e)
    else (not (answer == 0), ask unregister_endpoint (record e { unregister_ongoing = true }))

unfoldable pub stop_timers : Endpoint → Endpoint
stop_timers e =
    ask stop_execution
      (ask stop_registration (record e { bootstrap_id = 0; unregister_ongoing = false }))
