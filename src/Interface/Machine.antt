-- ===== src/Interface/Machine.antt =====
-- The state machine of source/m2minterfaceimpl.cpp: the requests with their transition maps, the
-- observers of the connection and of the timers, and runs over what happens. An event that a state
-- function generates is handled before that function goes on, so `internal_event` is a call.
use mbed_client.Common.{
  ℕ, ◌*◌, Bool, true, false, not, ◌&&◌, List, [], ◌∷◌, ltb, ◌==◌, Option, none, some, if◌then◌else◌,
}
use mbed_client.Common.Int.{ℤ}
use mbed_client.Interface.{
  State, idle, bootstrap, bootstrap_address_resolved, bootstrap_resource_created, bootstrap_wait,
  bootstrapped, register, register_address_resolved, registered, update_registration, unregister,
  unregistered, sending_coap_data, coap_data_sent, coap_data_received, processing_coap_data,
  coap_data_processed, waiting, with_update, error, invalid_parameters, not_allowed, BindingMode,
  udp_queue, sms_queue, udp_sms_queue, tcp_queue, ServerType, bootstrap_server, lwm2m_server,
  Security, FlowTimer, bootstrap_flow, registration_flow, restart_queue_timer, queue_sleep,
  Interface, Config, timer_interval, Upcall, Nsdl, log, enter,
}
use mbed_client.Interface.Callbacks.{
  state_idle, to_idle, to_waiting, state_registered, bootstrap_done_callback,
  bootstrap_error_callback, registration_error_callback, socket_error, upcalls,
}
use mbed_client.Interface.States.{
  EventData, no_data, security_data, address_data, received_data, register_data, update_data,
  state_bootstrap, state_bootstrap_address_resolved, state_register,
  state_register_address_resolved, state_update_registration, state_unregister,
  state_coap_data_received,
}

-- What happens to the client. `called_back` is what the nsdl interface calls back on its own, when
-- one of its timers expires or it has a notification to send.
pub data Event : Type 0 where
  bootstrap_request : Option Security → Event
  register_request : Option Security → List ℕ → Event
  update_request : Option Security → List ℕ → ℕ → Event
  unregister_request : Event
  address_ready : ServerType → ℕ → Event
  data_available data_sent : Event
  connection_error : ℕ → Bool → Event
  queue_sleep_timer retry_timer : Event
  flow_timer : FlowTimer → Event
  called_back : List Upcall → Event

-- The transition maps; `none` is `EVENT_IGNORED`.
unfoldable pub bootstrap_map : State → Option State
bootstrap_map idle = some bootstrap
bootstrap_map _ = none

unfoldable pub register_map : State → Option State
register_map idle = some register
register_map bootstrapped = some register
register_map registered = some register
register_map waiting = some register
register_map _ = none

unfoldable pub unregister_map : State → Option State
unregister_map registered = some unregister
unregister_map update_registration = some unregister
unregister_map waiting = some unregister
unregister_map _ = none

unfoldable pub update_map : State → Option State
update_map idle = some register
update_map registered = some update_registration
update_map waiting = some update_registration
update_map _ = none

abbrev pub is_queue : BindingMode → Bool
is_queue udp_queue = true
is_queue tcp_queue = true
is_queue sms_queue = true
is_queue udp_sms_queue = true
is_queue _ = false

module _ (atoi : List ℕ → ℤ) (c : Config) (n : Nsdl) where
  -- Data of a type that a state function does not expect is read as another type.
  unfoldable pub state_function : State → EventData → Interface → Option Interface
  unfolding state_bootstrap state_bootstrap_address_resolved state_register
      state_register_address_resolved state_update_registration state_unregister
      state_coap_data_received state_idle to_idle to_waiting state_registered
  state_function idle event m = some (state_idle m)
  state_function bootstrap no_data m = some (state_bootstrap atoi c none m)
  state_function bootstrap (security_data s) m = some (state_bootstrap atoi c (some s) m)
  state_function bootstrap _ m = none
  state_function bootstrap_address_resolved no_data m = some m
  state_function bootstrap_address_resolved (address_data port) m =
      some (state_bootstrap_address_resolved c n m)
  state_function bootstrap_address_resolved _ m = none
  state_function bootstrap_resource_created event m = some m
  state_function bootstrap_wait event m = some m
  state_function bootstrapped event m = some m
  state_function register event m = state_register atoi c n event m
  state_function register_address_resolved no_data m = some m
  state_function register_address_resolved (address_data port) m =
      some (state_register_address_resolved c n port m)
  state_function register_address_resolved _ m = none
  state_function registered event m = some (state_registered m)
  state_function update_registration no_data m = some (state_update_registration c n none m)
  state_function update_registration (update_data s objects lifetime) m =
      some (state_update_registration c n (some (objects, lifetime)) m)
  state_function update_registration _ m = none
  state_function unregister event m = some (state_unregister c n m)
  state_function unregistered event m = some (to_idle m)
  state_function sending_coap_data event m = some (enter waiting m)
  state_function coap_data_sent event m = some (enter waiting m)
  state_function coap_data_received no_data m = some m
  state_function coap_data_received received_data m = some (state_coap_data_received c n m)
  state_function coap_data_received _ m = none
  state_function processing_coap_data event m = some (enter waiting m)
  state_function coap_data_processed event m = some (enter waiting m)
  state_function waiting event m = some m

  unfoldable pub internal_event : State → EventData → Interface → Option Interface
  unfolding state_function
  internal_event s event m = state_function s event (enter s m)

  unfoldable pub external_event : Option State → EventData → Interface → Option Interface
  unfolding internal_event
  external_event none event m = some (record m { event_ignored = true })
  external_event (some s) event m = internal_event s event m

  -- What follows a transition map: an ignored event is an error, for an update only if the
  -- client does not reconnect.
  unfoldable pub check_ignored : Bool → Interface → Interface
  check_ignored always m =
      let m1 = record m { event_ignored = false } in
      if not m.event_ignored
      then m
      else if always
      then log (error not_allowed) m1
      else if m1.reconnecting
      then m1
      else log (error not_allowed) m1

  unfoldable pub checked : Bool → Option Interface → Option Interface
  unfolding check_ignored
  checked always none = none
  checked always (some m) = some (check_ignored always m)

  unfoldable pub start_register_update : Option Security → List ℕ → ℕ → Interface → Option Interface
  unfolding update_map external_event checked
  start_register_update security objects lifetime m =
      let m1 =
        if not (lifetime == 0) && ltb lifetime 60 then log (error invalid_parameters) m else m in
      let m2 = record m1 { reconnection_state = with_update } in
      if m1.reconnecting
      then some m1
      else checked false
          (external_event (update_map m2.current_state) (update_data security objects lifetime) m2)

  unfoldable pub data_was_sent : Interface → Interface
  unfolding bootstrap_done_callback to_waiting timer_interval
  data_was_sent m =
      let time = timer_interval (c.reconnection_count * c.reconnection_interval * 1000) in
      let m1 =
        if is_queue m.binding_mode && m.has_callback_handler
        then log (restart_queue_timer time) m
        else m in
      elim m1.current_state [
        | bootstrap_wait ↦ bootstrap_done_callback (record m1 { security = none })
        | _ ↦ to_waiting coap_data_sent m1
      ]

  abbrev pub request_bootstrap : Option Security → Interface → Option Interface
  request_bootstrap none m = some (log (error invalid_parameters) m)
  request_bootstrap (some s) m =
      checked true (external_event (bootstrap_map m.current_state) (security_data s) m)

  abbrev pub register_object : Option Security → List ℕ → Interface → Option Interface
  register_object none objects m = some (log (error invalid_parameters) m)
  register_object (some s) objects m =
      let m1 = record m { register_server = some s } in
      checked true (external_event (register_map m1.current_state) (register_data s objects) m1)

  abbrev pub unregister_object : Interface → Option Interface
  unregister_object m = checked true (external_event (unregister_map m.current_state) no_data m)

  abbrev pub address_was_resolved : ServerType → ℕ → Interface → Option Interface
  address_was_resolved bootstrap_server port m =
      internal_event bootstrap_address_resolved (address_data port) m
  address_was_resolved lwm2m_server port m =
      internal_event register_address_resolved (address_data port) m

  abbrev pub handle_retry_timer : Interface → Option Interface
  handle_retry_timer m =
      let m1 = record m { retry_timer_expired = true } in
      if m1.bootstrapped
      then internal_event register no_data m1
      else internal_event bootstrap no_data m1

  abbrev pub flow_timer_expired : FlowTimer → Interface → Interface
  flow_timer_expired bootstrap_flow m = bootstrap_error_callback c m
  flow_timer_expired registration_flow m = registration_error_callback c 5 true m

  abbrev pub data_was_received : Interface → Option Interface
  data_was_received m = internal_event coap_data_received received_data m

  abbrev pub queue_timer_expired : Interface → Interface
  queue_timer_expired m = if m.has_callback_handler then log queue_sleep m else m

  -- The handler of each event.
  unfoldable pub handle : Event → Interface → Option Interface
  unfolding bootstrap_map register_map unregister_map external_event checked start_register_update
      data_was_sent socket_error bootstrap_error_callback registration_error_callback upcalls
  handle (bootstrap_request s) m = request_bootstrap s m
  handle (register_request s objects) m = register_object s objects m
  handle (update_request s objects lifetime) m = start_register_update s objects lifetime m
  handle unregister_request m = unregister_object m
  handle (address_ready server port) m = address_was_resolved server port m
  handle data_available m = data_was_received m
  handle data_sent m = some (data_was_sent m)
  handle (connection_error error_code retry) m = some (socket_error c error_code retry m)
  handle queue_sleep_timer m = some (queue_timer_expired m)
  handle retry_timer m = handle_retry_timer m
  handle (flow_timer kind) m = some (flow_timer_expired kind m)
  handle (called_back us) m = some (upcalls c us m)

-- Each event with the answers that the nsdl interface gives while it is handled.
unfoldable pub run : (List ℕ → ℤ) → Config → Interface → List (Event × Nsdl) → Option Interface
run atoi c m [] = some m
run atoi c m ((e, n) ∷ es) = elim (handle atoi c n e m) [ none ↦ none | some m' ↦ run atoi c m' es ]
