-- ===== src/Interface/Runs.antt =====
-- Runs of the state machine of source/m2minterfaceimpl.cpp: what holds between the events.
use mbed_client.Common.{
  ◌⊎◌, not, ◌&&◌, ltb, ◌==◌, ℕ, ◌≡◌, refl, true, false, List, [], ◌∷◌, Option, none, some,
  if◌then◌else◌, arith, Option-cases, inl, inr,
}
use mbed_client.Common.Int.{ℤ}
use mbed_client.Interface.{
  bootstrap_server, bootstrap_flow, State, bootstrap, bootstrap_address_resolved, register,
  register_address_resolved, update_registration, unregister, coap_data_received, Interface, Config,
  IsBuild, Nsdl, log, enter, Security, registration_flow, lwm2m_server, error, invalid_parameters,
  with_update,
}
use mbed_client.Interface.Callbacks.{
  stop_flow, socket_error, registration_error_callback, bootstrap_error_callback,
  bootstrap_done_callback, to_waiting, upcalls,
}
use mbed_client.Interface.States.{no_data, register_data, update_data, security_data}
use mbed_client.Interface.Machine.{
  Event, state_function, internal_event, external_event, checked, start_register_update,
  data_was_sent, handle, run,
}
use mbed_client.Interface.Machine.{
  bootstrap_request, register_request, update_request, unregister_request, address_ready,
  data_available, data_sent, connection_error, queue_sleep_timer, retry_timer, flow_timer,
  called_back, bootstrap_map, register_map, update_map, unregister_map,
}
use mbed_client.Interface.Resting.{
  IsSound, socket_error-IsSound, upcalls-IsSound, state_bootstrap-IsSound,
}
use mbed_client.Interface.Resting.States.{
  state_bootstrap_address_resolved-IsSound, state_register-IsSound,
  state_register_address_resolved-IsSound, state_coap_data_received-IsSound,
}
use mbed_client.Interface.Resting.Entries.{
  of_some, unless-IsSound, external_event-IsSound, enter_register, enter_bootstrap,
  enter_unregister, enter_update, bootstrap_map-eq, register_map-eq, unregister_map-eq,
  update_map-eq, entered,
}

module _ (atoi : List ℕ → ℤ) (c : Config) (n : Nsdl) (positive : IsBuild c) where
  updates :
      (s : Option Security) (objects : List ℕ) (lifetime : ℕ) (m m1 : Interface) (t : State)
      → IsSound c m
      → (register ≡ t) ⊎ (update_registration ≡ t)
      → internal_event atoi c n t (update_data s objects lifetime) m ≡ some m1
      → IsSound c m1
  updates s objects lifetime m m1 t b (inl again) =
      let event = update_data s objects lifetime in
      entered atoi c n positive event m m1 register t again
        (enter_register atoi c n positive event m m1 b)
  updates s objects lifetime m m1 t b (inr updated) =
      let event = update_data s objects lifetime in
      entered atoi c n positive event m m1 update_registration t updated
        (enter_update atoi c n positive s objects lifetime m m1 b)

  update_request-IsSound :
      (s : Option Security) (objects : List ℕ) (lifetime : ℕ) (m : Interface) {m' : Interface}
      → IsSound c m
      → start_register_update atoi c n s objects lifetime m ≡ some m'
      → IsSound c m'
  unfolding start_register_update
  update_request-IsSound s objects lifetime m {m'} b e =
      let event = update_data s objects lifetime in
      let m1 =
        if not (lifetime == 0) && ltb lifetime 60 then log (error invalid_parameters) m else m in
      let m2 = record m1 { reconnection_state = with_update } in
      let b1 : IsSound c m1 = ground arith in
      let r =
        checked atoi c n false (external_event atoi c n (update_map m2.current_state) event m2) in
      unless-IsSound atoi c n positive m1.reconnecting m1 r {m' = m'} b1
        (external_event-IsSound atoi c n positive false (update_map m2.current_state) event m2
          {m' = m'} b1
          (λ t q m3 s'.
            updates s objects lifetime m2 m3 t b1
              (update_map-eq atoi c n positive m2.current_state t q) s'))
        e

  data_was_sent-IsSound : (m : Interface) → IsSound c m → IsSound c (data_was_sent atoi c n m)
  unfolding data_was_sent bootstrap_done_callback to_waiting
  data_was_sent-IsSound m b = ground arith

  retry_timer-IsSound :
      (m : Interface) {m' : Interface}
      → IsSound c m
      → handle atoi c n retry_timer m ≡ some m'
      → IsSound c m'
  unfolding handle internal_event state_function
  retry_timer-IsSound m {m'} b e =
      let m1 = record m { retry_timer_expired = true } in
      let registering =
        state_register-IsSound atoi c n no_data (enter register m1) {m' = m'} positive
          (refl, b.1, b.2) in
      let bootstrapping =
        state_bootstrap-IsSound atoi c none (enter bootstrap m1) (refl, b.1, b.2) in
      ground (arith, registering, bootstrapping)

  bootstrap_error-IsSound : (m : Interface) → IsSound c m → IsSound c (bootstrap_error_callback c m)
  unfolding bootstrap_error_callback
  bootstrap_error-IsSound m b =
      let m1 = stop_flow (record m { bootstrapped = false }) in
      let b1 : IsSound c m1 = ground arith in socket_error-IsSound c 2 true m1 positive b1

  handle-IsSound :
      (e : Event) (m : Interface) {m' : Interface}
      → IsSound c m
      → handle atoi c n e m ≡ some m'
      → IsSound c m'
  unfolding handle internal_event state_function bootstrap_error_callback
      registration_error_callback
  handle-IsSound (bootstrap_request none) m b e = ground arith
  handle-IsSound (bootstrap_request (some s)) m {m'} b e =
      let event = security_data s in
      external_event-IsSound atoi c n positive true (bootstrap_map m.current_state) event m
        {m' = m'} b
        (λ t q m1 r.
          entered atoi c n positive event m m1 bootstrap t
            (bootstrap_map-eq atoi c n positive m.current_state t q)
            (enter_bootstrap atoi c n positive s m m1 b) r)
        e
  handle-IsSound (register_request none objects) m b e = ground arith
  handle-IsSound (register_request (some s) objects) m {m'} b e =
      let event = register_data s objects in
      let m1 = record m { register_server = some s } in
      external_event-IsSound atoi c n positive true (register_map m.current_state) event m1
        {m' = m'} b
        (λ t q m2 r.
          entered atoi c n positive event m1 m2 register t
            (register_map-eq atoi c n positive m.current_state t q)
            (enter_register atoi c n positive event m1 m2 b) r)
        e
  handle-IsSound (update_request s objects lifetime) m {m'} b e =
      update_request-IsSound s objects lifetime m {m' = m'} b e
  handle-IsSound unregister_request m {m'} b e =
      external_event-IsSound atoi c n positive true (unregister_map m.current_state) no_data m
        {m' = m'} b
        (λ t q m1 r.
          entered atoi c n positive no_data m m1 unregister t
            (unregister_map-eq atoi c n positive m.current_state t q)
            (enter_unregister atoi c n positive m m1 b) r)
        e
  handle-IsSound (address_ready bootstrap_server port) m b e =
      let entered =
        state_bootstrap_address_resolved-IsSound c n (enter bootstrap_address_resolved m) positive
          (refl, b.1, b.2) in
      ground (arith, entered)
  handle-IsSound (address_ready lwm2m_server port) m b e =
      let entered =
        state_register_address_resolved-IsSound c n port (enter register_address_resolved m)
          positive (refl, b.1, b.2) in
      ground (arith, entered)
  handle-IsSound data_available m b e =
      let entered =
        state_coap_data_received-IsSound c n (enter coap_data_received m) positive b.1 b.2 in
      ground (arith, entered)
  handle-IsSound data_sent m {m'} b e =
      of_some atoi c n positive (data_was_sent atoi c n m) {m' = m'} (data_was_sent-IsSound m b) e
  handle-IsSound (connection_error error_code retry) m {m'} b e =
      of_some atoi c n positive (socket_error c error_code retry m) {m' = m'}
        (socket_error-IsSound c error_code retry m positive b) e
  handle-IsSound queue_sleep_timer m b e = ground arith
  handle-IsSound retry_timer m {m'} b e = retry_timer-IsSound m {m' = m'} b e
  handle-IsSound (flow_timer bootstrap_flow) m {m'} b e =
      of_some atoi c n positive (bootstrap_error_callback c m) {m' = m'}
        (bootstrap_error-IsSound m b) e
  handle-IsSound (flow_timer registration_flow) m {m'} b e =
      of_some atoi c n positive (registration_error_callback c 5 true m) {m' = m'}
        (socket_error-IsSound c 3 true m positive b) e
  handle-IsSound (called_back us) m {m'} b e =
      of_some atoi c n positive (upcalls c us m) {m' = m'} (upcalls-IsSound c us m positive b) e

-- If the build allows one retry at least and its numbers fit into a byte and an `int`, then after any
-- events, what the nsdl interface calls back on its own among them, and with whatever it answers and
-- calls back meanwhile, the machine is in a state that waits for something, the count
-- of retries is one that the build allows and no event stays ignored, if all this held before and
-- the run has defined behaviour.
pub run-IsSound :
    (atoi : List ℕ → ℤ) (c : Config) (m : Interface) (es : List (Event × Nsdl)) {m' : Interface}
    → IsBuild c
    → IsSound c m
    → run atoi c m es ≡ some m'
    → IsSound c m'
unfolding run
run-IsSound atoi c m [] positive b e = ground arith
run-IsSound atoi c m ((e, n) ∷ es) {m'} positive b r = elim (Option-cases (handle atoi c n e m)) [
  | inl undefined ↦ ground arith
  | inr (m1, q) ↦
      let next = handle-IsSound atoi c n positive e m {m' = m1} b q in
      ground (arith, run-IsSound atoi c m1 es {m' = m'} positive next)
]
