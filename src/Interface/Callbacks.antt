-- ===== src/Interface/Callbacks.antt =====
-- The callbacks of source/m2minterfaceimpl.cpp that the nsdl interface makes, and `socket_error`.
-- Each ends in a state whose function generates no event or one that leads to such a state, so
-- `internal_event` is written out as the entry to the state with that state's function.
use mbed_client.Common.{
  ℕ, ◌+◌, ◌*◌, ◌%◌, Bool, true, false, not, ◌&&◌, List, [], ◌∷◌, ltb, ◌==◌, Option, none, some,
  if◌then◌else◌,
}
use mbed_client.Interface.{
  State, idle, bootstrap_wait, bootstrapped, registered, unregistered, sending_coap_data,
  coap_data_processed, waiting, no_reconnection, with_update, full_registration, Error,
  network_error, secure_connection_failed, dns_resolving_failed, code, error, object_registered,
  registration_updated, object_unregistered, bootstrap_done, value_updated, stop_nsdl_timers,
  stop_listening, send_data, start_retry_timer, stop_retry_timer, stop_flow_timer, Interface,
  Config, timer_interval, Security, Upcall, coap_message_ready, client_registered,
  registration_was_updated, client_unregistered, registration_error, bootstrap_is_done,
  bootstrap_error, coap_data_was_processed, value_was_updated, bootstrap_must_wait, log, enter,
}

unfoldable pub state_idle : Interface → Interface
state_idle m = log stop_nsdl_timers m

unfoldable pub to_idle : Interface → Interface
unfolding state_idle
to_idle m = state_idle (enter idle m)

-- `state_waiting` does nothing; the four states before it generate its event.
unfoldable pub to_waiting : State → Interface → Interface
to_waiting s m = enter waiting (enter s m)

unfoldable pub state_registered : Interface → Interface
state_registered m = record m {
  retry_count = 0;
  reconnecting = false;
  reconnection_state = no_reconnection;
}

unfoldable pub to_registered : Interface → Interface
unfolding state_registered
to_registered m = state_registered (enter registered m)

abbrev pub is_idle : State → Bool
is_idle idle = true
is_idle _ = false

-- The argument is the answer of `send_data`.
unfoldable pub message_ready : Bool → Interface → Interface
unfolding to_waiting to_idle
message_ready sent m =
    if is_idle m.current_state
    then m
    else let m1 = log send_data (to_waiting sending_coap_data m) in
      if sent
      then m1
      else let m2 = to_idle m1 in if m2.reconnecting then m2 else log (error network_error) m2

abbrev pub stop_flow : Interface → Interface
stop_flow m = if m.has_flow_timer then log stop_flow_timer m else m

unfoldable pub registered_callback : Interface → Interface
unfolding to_registered
registered_callback m =
    log object_registered (to_registered (stop_flow (record m { retry_count = 0 })))

unfoldable pub updated_callback : Interface → Interface
unfolding to_registered
updated_callback m = log registration_updated (to_registered m)

unfoldable pub unregistered_callback : Interface → Interface
unfolding to_idle
unregistered_callback m = log object_unregistered (to_idle (enter unregistered m))

unfoldable pub bootstrap_done_callback : Interface → Interface
bootstrap_done_callback m =
    let m1 = stop_flow (record m {
      retry_count = 0;
      reconnecting = false;
      reconnection_state = no_reconnection;
      bootstrapped = true;
    }) in
    log bootstrap_done (enter bootstrapped m1)

unfoldable pub bootstrap_wait_callback : Security → Interface → Interface
bootstrap_wait_callback s m = enter bootstrap_wait (record m { security = some s })

-- `M2MConnectionHandler::ConnectionError` to `M2MInterface::Error`; `none` is `ErrorNone`.
unfoldable pub error_of_code : ℕ → Option Error
error_of_code c =
    if c == 1
    then some secure_connection_failed
    else if c == 5
    then some dns_resolving_failed
    else if c == 2
    then some network_error
    else if c == 3
    then some network_error
    else if c == 6
    then some secure_connection_failed
    else if c == 4
    then some network_error
    else none

abbrev pub report_error : Option Error → Interface → Interface
report_error none m = log (error (code 0)) m
report_error (some e) m = log (error e) m

-- The retry branch: the machine waits in the idle state for the retry timer.
unfoldable pub start_retry : Config → Interface → Interface
unfolding to_idle timer_interval
start_retry c m =
    let m1 = to_idle m in
    let product = c.reconnection_interval * c.reconnection_count * m1.retry_count * 1000 in
    record m1 {
      reconnecting = true;
      retry_timer_expired = false;
      calls = start_retry_timer (timer_interval product) ∷ stop_listening ∷ m1.calls;
    }

-- The last part: the application is told, unless there is no error to tell.
unfoldable pub give_up : Option Error → Interface → Interface
unfolding to_idle
give_up none m = m
give_up (some e) m = to_idle (record m {
  retry_count = 0;
  reconnecting = false;
  reconnection_state = no_reconnection;
  calls = error e ∷ stop_retry_timer ∷ stop_listening ∷ m.calls;
})

unfoldable pub socket_error : Config → ℕ → Bool → Interface → Interface
unfolding error_of_code start_retry give_up
socket_error c error_code retry m =
    let m1 = record m { reconnection_state = with_update } in
    let e = error_of_code error_code in
    if not c.reconnection_loop && (not m1.retry_timer_expired && m1.reconnecting)
    then m1
    else if not retry
    then give_up e m1
    else if ltb m1.retry_count c.reconnection_count
    then start_retry c (record m1 { retry_count = (m1.retry_count + 1) % 256 })
    else if c.reconnection_loop
    then start_retry c (report_error e (record m1 { retry_count = 1 }))
    else give_up e (record m1 { calls = stop_retry_timer ∷ stop_listening ∷ m1.calls })

unfoldable pub registration_error_callback : Config → ℕ → Bool → Interface → Interface
unfolding socket_error to_idle
registration_error_callback c error_code retry m =
    if retry
    then record (socket_error c 3 true m) { reconnection_state = full_registration }
    else log (error (code error_code)) (to_idle m)

-- `socket_error(M2MInterface::BootstrapFailed, true)`: that member of the enumeration is 2.
unfoldable pub bootstrap_error_callback : Config → Interface → Interface
unfolding socket_error
bootstrap_error_callback c m = socket_error c 2 true (stop_flow (record m { bootstrapped = false }))

unfoldable pub upcall : Config → Upcall → Interface → Interface
unfolding message_ready registered_callback updated_callback unregistered_callback
upcall c (coap_message_ready sent) m = message_ready sent m
upcall c client_registered m = registered_callback m
upcall c registration_was_updated m = updated_callback m
upcall c client_unregistered m = unregistered_callback m
upcall c (registration_error error_code retry) m = registration_error_callback c error_code retry m
upcall c bootstrap_is_done m = bootstrap_done_callback m
upcall c bootstrap_error m = bootstrap_error_callback c m
upcall c coap_data_was_processed m = to_waiting coap_data_processed m
upcall c value_was_updated m = log value_updated m
upcall c (bootstrap_must_wait s) m = bootstrap_wait_callback s m

unfoldable pub upcalls : Config → List Upcall → Interface → Interface
upcalls c [] m = m
upcalls c (u ∷ us) m = upcalls c us (upcall c u m)
