-- ===== src/Interface/Resting/States.antt =====
-- The state functions leave the machine of source/m2minterfaceimpl.cpp in a state that rests.
use mbed_client.Common.{
  ℕ, ◌≡◌, refl, Bool, true, false, List, ◌∷◌, Option, none, some, if◌then◌else◌, arith,
  Option-cases, inl, inr,
}
use mbed_client.Common.Int.{ℤ}
use mbed_client.Interface.{
  bootstrap_resource_created, update_registration, sending_coap_data, processing_coap_data,
  Interface, Config, IsBuild, Nsdl, log, enter, Security, registration_flow, lwm2m_server, error,
  invalid_parameters, not_registered, response_parse_failed, start_listening,
  create_bootstrap_resource, send_register_message, ReconnectionState, with_update, no_reconnection,
  full_registration, send_update_registration, create_nsdl_list_structure, set_server_address,
  stop_listening, bind_connection, send_unregister_message, process_received_data,
}
use mbed_client.Interface.Callbacks.{state_idle, to_idle, to_waiting}
use mbed_client.Interface.Retry.{IsBounded}
use mbed_client.Interface.States.{
  EventData, no_data, register_data, update_data, security_data, address_data, received_data,
  is_empty, bootstrap_name, nsdl, invalid, state_bootstrap_address_resolved, register_first,
  register_again, state_register, send_register, state_update_registration,
  state_register_address_resolved, state_unregister, state_coap_data_received,
}
use mbed_client.Interface.Resting.{
  IsSound, nsdl-IsSound, invalid-IsSound, resolve-IsSound, connect-IsSound,
}

IsSound-if :
    (c : Config) (b : Bool) (x y : Interface)
    → IsSound c x
    → IsSound c y
    → IsSound c (if b then x else y)
IsSound-if c true x y hx hy = hx
IsSound-if c false x y hx hy = hy

pub state_bootstrap_address_resolved-IsSound :
    (c : Config) (n : Nsdl) (m : Interface)
    → IsBuild c
    → IsSound c m
    → IsSound c (state_bootstrap_address_resolved c n m)
unfolding state_bootstrap_address_resolved
state_bootstrap_address_resolved-IsSound c n m positive b =
    elim (bootstrap_name m.endpoint_name m.domain)
      as (λ name. IsSound c (elim name [
        | none ↦ log (error invalid_parameters) (log start_listening m)
        | some s ↦
            let m2 =
              nsdl c (create_bootstrap_resource s) n.bootstrap_resource (log start_listening m) in
            if n.bootstrap_resource.result then enter bootstrap_resource_created m2 else invalid m2
      ])) [
        | none ↦ b
        | some s ↦
            let call = create_bootstrap_resource s in
            let m1 = log start_listening m in
            let m2 = nsdl c call n.bootstrap_resource m1 in
            let after = nsdl-IsSound c call n.bootstrap_resource m1 positive b in
            IsSound-if c n.bootstrap_resource.result (enter bootstrap_resource_created m2)
              (invalid m2) (refl, after.1, after.2) (invalid-IsSound c m2 after)
      ]

send_register-IsSound :
    (c : Config) (n : Nsdl) (m : Interface)
    → IsBuild c
    → IsSound c m
    → IsSound c (send_register c n m)
unfolding send_register
send_register-IsSound c n m positive b =
    let after = nsdl-IsSound c send_register_message n.register_message m positive b in
    let m1 = nsdl c send_register_message n.register_message m in
    IsSound-if c n.register_message.result m1 (invalid m1) after (invalid-IsSound c m1 after)

-- What an update does after its message.
abbrev refreshed : Config → Nsdl → Interface → ReconnectionState → Interface
refreshed c n m r = elim r [
  | with_update ↦ send_register c n (record m { reconnection_state = full_registration })
  | no_reconnection ↦ m
  | full_registration ↦ m
]

refreshed-IsSound :
    (c : Config) (n : Nsdl) (m : Interface)
    → IsBuild c
    → IsSound c m
    → (r : ReconnectionState) → IsSound c (refreshed c n m r)
refreshed-IsSound c n m positive b with_update =
    send_register-IsSound c n (record m { reconnection_state = full_registration }) positive b
refreshed-IsSound c n m positive b no_reconnection = b
refreshed-IsSound c n m positive b full_registration = b

pub state_update_registration-IsSound :
    (c : Config) (n : Nsdl) (event : Option (List ℕ × ℕ)) (m : Interface)
    → IsBuild c
    → IsSound c m
    → IsSound c (state_update_registration c n event m)
unfolding state_update_registration
state_update_registration-IsSound c n none m positive b =
    let call = send_update_registration 0 in
    let m2 = nsdl c call n.update_message m in
    let after = nsdl-IsSound c call n.update_message m positive b in
    IsSound-if c n.update_message.result m2 (refreshed c n m2 m2.reconnection_state) after
      (refreshed-IsSound c n m2 positive after m2.reconnection_state)
state_update_registration-IsSound c n (some (objects, lifetime)) m positive b =
    let list = create_nsdl_list_structure objects in
    let made = nsdl c list n.create_list m in
    let m1 = if is_empty objects then m else made in
    let before =
      IsSound-if c (is_empty objects) m made b (nsdl-IsSound c list n.create_list m positive b) in
    let call = send_update_registration lifetime in
    let m2 = nsdl c call n.update_message m1 in
    let after = nsdl-IsSound c call n.update_message m1 positive before in
    IsSound-if c n.update_message.result m2 (refreshed c n m2 m2.reconnection_state) after
      (refreshed-IsSound c n m2 positive after m2.reconnection_state)

pub state_register_address_resolved-IsSound :
    (c : Config) (n : Nsdl) (port : ℕ) (m : Interface)
    → IsBuild c
    → IsSound c m
    → IsSound c (state_register_address_resolved c n port m)
unfolding state_register_address_resolved
state_register_address_resolved-IsSound c n port m positive b =
    let m1 = record m { calls = set_server_address port ∷ start_listening ∷ m.calls } in
    let sent = send_register-IsSound c n m1 positive b in
    let updated =
      state_update_registration-IsSound c n none (enter update_registration m1) positive
        (refl, b.1, b.2) in
    elim m.reconnection_state
      as (λ r. IsSound c (elim r [
        | no_reconnection ↦ send_register c n m1
        | full_registration ↦ send_register c n m1
        | with_update ↦ state_update_registration c n none (enter update_registration m1)
      ])) [ no_reconnection ↦ sent | full_registration ↦ sent | with_update ↦ updated ]

-- These two enter a resting state before they call the nsdl interface.
pub state_unregister-IsSound :
    (c : Config) (n : Nsdl) (m : Interface)
    → IsBuild c
    → IsBounded c m
    → m.event_ignored ≡ false
    → IsSound c (state_unregister c n m)
unfolding state_unregister to_waiting to_idle state_idle
state_unregister-IsSound c n m positive bounded handled =
    let after =
      nsdl-IsSound c send_unregister_message n.unregister_message (to_waiting sending_coap_data m)
        positive (refl, bounded, handled) in
    let m1 = nsdl c send_unregister_message n.unregister_message (to_waiting sending_coap_data m) in
    IsSound-if c n.unregister_message.result m1 (log (error not_registered) (to_idle m1)) after
      (refl, after.1, after.2)

pub state_coap_data_received-IsSound :
    (c : Config) (n : Nsdl) (m : Interface)
    → IsBuild c
    → IsBounded c m
    → m.event_ignored ≡ false
    → IsSound c (state_coap_data_received c n m)
unfolding state_coap_data_received to_waiting
state_coap_data_received-IsSound c n m positive bounded handled =
    let after =
      nsdl-IsSound c process_received_data n.received_data (to_waiting processing_coap_data m)
        positive (refl, bounded, handled) in
    let m1 = nsdl c process_received_data n.received_data (to_waiting processing_coap_data m) in
    IsSound-if c n.received_data.result m1 (log (error response_parse_failed) m1) after after

register_first-IsSound :
    (atoi : List ℕ → ℤ) (c : Config) (n : Nsdl) (objects : List ℕ) (m : Interface) {m' : Interface}
    → IsBuild c
    → IsSound c m
    → register_first atoi c n objects m ≡ some m'
    → IsSound c m'
unfolding register_first
register_first-IsSound atoi c n objects m positive b e =
    let list = create_nsdl_list_structure objects in
    let m1 = nsdl c list n.create_list m in
    let after = nsdl-IsSound c list n.create_list m positive b in
    let fail = invalid-IsSound c m1 after in
    let next = λ (s : Security). connect-IsSound atoi c registration_flow lwm2m_server s m1 after in
    elim (Option-cases m1.security) [
      | inl missing ↦ ground (arith, fail)
      | inr (s, q) ↦ ground (arith, fail, next s)
    ]

register_again-IsSound : (c : Config) (m : Interface) → IsSound c m → IsSound c (register_again c m)
unfolding register_again
register_again-IsSound c m b =
    resolve-IsSound c registration_flow lwm2m_server (log (bind_connection 0) m) b

pub state_register-IsSound :
    (atoi : List ℕ → ℤ) (c : Config) (n : Nsdl) (event : EventData) (m : Interface) {m' : Interface}
    → IsBuild c
    → IsSound c m
    → state_register atoi c n event m ≡ some m'
    → IsSound c m'
unfolding state_register
state_register-IsSound atoi c n no_data m positive b e =
    let m1 = record m { listen_port = 0; calls = stop_listening ∷ m.calls } in
    ground (arith, invalid-IsSound c m b, register_again-IsSound c m1 b)
state_register-IsSound atoi c n (register_data s objects) m {m'} positive b e =
    let m1 = record m { listen_port = 0; calls = stop_listening ∷ m.calls } in
    let list = create_nsdl_list_structure objects in
    let made = nsdl-IsSound c list n.create_list m1 positive b in
    let again = register_again-IsSound c (nsdl c list n.create_list m1) made in
    let known = record m { security = some s } in
    ground (
      arith,
      again,
      invalid-IsSound c known b,
      register_first-IsSound atoi c n objects known {m' = m'} positive b,
    )
state_register-IsSound atoi c n (update_data none objects lifetime) m positive b e =
    ground (arith, invalid-IsSound c m b)
state_register-IsSound atoi c n (update_data (some s) objects lifetime) m positive b e =
    ground (arith, invalid-IsSound c (record m { security = some s }) b)
state_register-IsSound atoi c n (security_data s) m positive b e = ground arith
state_register-IsSound atoi c n (address_data port) m positive b e = ground arith
state_register-IsSound atoi c n received_data m positive b e = ground arith
