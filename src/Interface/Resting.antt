-- ===== src/Interface/Resting.antt =====
-- The state machine of source/m2minterfaceimpl.cpp between two events: in which states it can be.
pub mod States
pub mod Entries
use mbed_client.Common.{
  ℕ, ◌<◌, ◌≡◌, refl, Bool, true, false, List, [], ◌∷◌, Option, none, some, if◌then◌else◌, arith,
  Option-cases, inl, inr,
}
use mbed_client.Common.Int.{ℤ}
use mbed_client.Interface.{
  State, bootstrap_resource_created, update_registration, unregister, unregistered,
  sending_coap_data, coap_data_sent, coap_data_received, processing_coap_data, coap_data_processed,
  Interface, Config, IsBuild, Nsdl, Call, Answer, Upcall, log, enter, coap_message_ready,
  client_registered, registration_was_updated, client_unregistered, registration_error,
  bootstrap_is_done, bootstrap_error, coap_data_was_processed, value_was_updated,
  bootstrap_must_wait, Security, ServerType, FlowTimer, registration_flow, lwm2m_server, error,
  invalid_parameters, not_registered, response_parse_failed, start_listening,
  create_bootstrap_resource, send_register_message, ReconnectionState, with_update, no_reconnection,
  full_registration, send_update_registration, create_nsdl_list_structure, set_server_address,
  stop_listening, bind_connection, send_unregister_message, process_received_data,
}
use mbed_client.Interface.Callbacks.{
  socket_error, start_retry, give_up, state_idle, to_idle, registration_error_callback,
  bootstrap_error_callback, message_ready, registered_callback, updated_callback,
  unregistered_callback, bootstrap_done_callback, bootstrap_wait_callback, to_registered,
  state_registered, to_waiting, upcall, upcalls,
}
use mbed_client.Interface.Retry.{IsBounded}
use mbed_client.Interface.States.{
  EventData, no_data, register_data, update_data, security_data, address_data, received_data,
  is_empty, bootstrap_name, nsdl, invalid, start_flow, resolve, connect, state_bootstrap,
  state_bootstrap_address_resolved, register_first, register_again, state_register, send_register,
  state_update_registration, state_register_address_resolved, state_unregister,
  state_coap_data_received,
}

-- The states that wait for something; in the others the machine is only while it handles an event.
abbrev pub is_resting : State → Bool
is_resting unregister = false
is_resting unregistered = false
is_resting sending_coap_data = false
is_resting coap_data_sent = false
is_resting coap_data_received = false
is_resting processing_coap_data = false
is_resting coap_data_processed = false
is_resting _ = true

-- Between two events: the state rests, the count of retries is allowed, no event is ignored.
abbrev pub IsSound : Config → Interface → Type 0
IsSound c m = (is_resting m.current_state ≡ true) × IsBounded c m × (m.event_ignored ≡ false)

pub socket_error-IsSound :
    (c : Config) (e : ℕ) (retry : Bool) (m : Interface)
    → IsBuild c
    → IsSound c m
    → IsSound c (socket_error c e retry m)
unfolding socket_error start_retry give_up to_idle state_idle
socket_error-IsSound c e retry m positive b = ground arith

upcall-IsSound :
    (c : Config) (u : Upcall) (m : Interface) → IsBuild c → IsSound c m → IsSound c (upcall c u m)
unfolding upcall message_ready to_idle state_idle to_waiting registered_callback to_registered
    state_registered updated_callback unregistered_callback bootstrap_done_callback
    bootstrap_wait_callback registration_error_callback bootstrap_error_callback
upcall-IsSound c (coap_message_ready sent) m positive b = ground arith
upcall-IsSound c client_registered m positive b = ground arith
upcall-IsSound c registration_was_updated m positive b = ground arith
upcall-IsSound c client_unregistered m positive b = ground arith
upcall-IsSound c (registration_error e retry) m positive b =
    ground (arith, socket_error-IsSound c 3 true m positive b)
upcall-IsSound c bootstrap_is_done m positive b = ground arith
upcall-IsSound c bootstrap_error m positive b = ground (arith, socket_error-IsSound c 2 true)
upcall-IsSound c coap_data_was_processed m positive b = ground arith
upcall-IsSound c value_was_updated m positive b = ground arith
upcall-IsSound c (bootstrap_must_wait s) m positive b = ground arith

pub upcalls-IsSound :
    (c : Config) (us : List Upcall) (m : Interface)
    → IsBuild c
    → IsSound c m
    → IsSound c (upcalls c us m)
unfolding upcalls
upcalls-IsSound c [] m positive b = b
upcalls-IsSound c (u ∷ us) m positive b =
    upcalls-IsSound c us (upcall c u m) positive (upcall-IsSound c u m positive b)

pub nsdl-IsSound :
    (c : Config) (call : Call) (a : Answer) (m : Interface)
    → IsBuild c
    → IsSound c m
    → IsSound c (nsdl c call a m)
unfolding nsdl
nsdl-IsSound c call a m positive b = upcalls-IsSound c a.upcalls (log call m) positive b

pub invalid-IsSound : (c : Config) (m : Interface) → IsSound c m → IsSound c (invalid m)
unfolding invalid to_idle state_idle
invalid-IsSound c m b = ground arith

pub resolve-IsSound :
    (c : Config) (kind : FlowTimer) (server : ServerType) (m : Interface)
    → IsSound c m
    → IsSound c (resolve c kind server m)
unfolding resolve start_flow
resolve-IsSound c kind server m b = ground arith

pub connect-IsSound :
    (atoi : List ℕ → ℤ) (c : Config) (kind : FlowTimer) (server : ServerType) (s : Security)
    (m : Interface)
    → IsSound c m
    → IsSound c (connect atoi c kind server s m)
unfolding connect
connect-IsSound atoi c kind server s m b =
    ground (arith, invalid-IsSound c, resolve-IsSound c kind server)

pub state_bootstrap-IsSound :
    (atoi : List ℕ → ℤ) (c : Config) (event : Option Security) (m : Interface)
    → IsSound c m
    → IsSound c (state_bootstrap atoi c event m)
unfolding state_bootstrap
state_bootstrap-IsSound atoi c event m b =
    ground (arith, invalid-IsSound c, resolve-IsSound c, connect-IsSound atoi c)
