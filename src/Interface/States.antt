-- ===== src/Interface/States.antt =====
-- The state functions of source/m2minterfaceimpl.cpp. `none` stands for behaviour that C++ does not
-- define: an event's data is cast to a type that it does not have, and then read.
use mbed_client.Common.{
  ℕ, ◌+◌, ◌-◌, ◌*◌, Bool, true, false, not, List, [], ◌∷◌, ◌++◌, length, leb, Option, none, some,
  if◌then◌else◌,
}
use mbed_client.Common.Int.{ℤ}
use mbed_client.Interface.{
  bootstrap_resource_created, update_registration, sending_coap_data, processing_coap_data,
  no_reconnection, with_update, full_registration, error, invalid_parameters, not_registered,
  response_parse_failed, ServerType, bootstrap_server, lwm2m_server, Security, FlowTimer,
  bootstrap_flow, registration_flow, Call, create_nsdl_list_structure, send_register_message,
  send_update_registration, send_unregister_message, create_bootstrap_resource,
  process_received_data, bind_connection, start_listening, stop_listening, resolve_server_address,
  set_server_address, start_flow_timer, stop_flow_timer, Interface, Config, timer_interval, Answer,
  Nsdl, log, enter,
}
use mbed_client.Interface.Address.{process_address, server_address}
use mbed_client.Interface.Callbacks.{to_idle, to_waiting, upcalls}

-- `EventData` with its derived classes: objects are their identifiers, an address is its port.
pub data EventData : Type 0 where
  no_data : EventData
  security_data : Security → EventData
  address_data : ℕ → EventData
  received_data : EventData
  register_data : Security → List ℕ → EventData
  update_data : Option Security → List ℕ → ℕ → EventData

-- A call of the nsdl interface: what it calls back happens before it returns.
unfoldable pub nsdl : Config → Call → Answer → Interface → Interface
nsdl c call a m = upcalls c a.upcalls (log call m)

-- `internal_event(STATE_IDLE)` and the error.
unfoldable pub invalid : Interface → Interface
unfolding to_idle
invalid m = log (error invalid_parameters) (to_idle m)

unfoldable pub start_flow : Config → FlowTimer → Interface → Interface
unfolding timer_interval
start_flow c kind m =
    let time = timer_interval (c.reconnection_count * c.reconnection_interval * 8 * 1000) in
    if m.has_flow_timer
    then record m { calls = start_flow_timer kind time ∷ stop_flow_timer ∷ m.calls }
    else m

unfoldable pub resolve : Config → FlowTimer → ServerType → Interface → Interface
unfolding start_flow
resolve c kind server m =
    log (resolve_server_address m.server_ip_address m.server_port server) (start_flow c kind m)

abbrev pub is_empty : List ℕ → Bool
is_empty [] = true
is_empty (x ∷ xs) = false

-- The address of a new server, from its URI.
unfoldable pub connect :
    (List ℕ → ℤ) → Config → FlowTimer → ServerType → Security → Interface → Interface
unfolding invalid resolve
connect atoi c kind server s m = elim (server_address s) [
  | none ↦ invalid m
  | some address ↦
      let (ip, port) = process_address atoi address (m.server_ip_address, m.server_port) in
      let m1 = record m { server_ip_address = ip; server_port = port } in
      if is_empty ip then invalid m1 else resolve c kind server m1
]

unfoldable pub state_bootstrap : (List ℕ → ℤ) → Config → Option Security → Interface → Interface
unfolding connect
state_bootstrap atoi c event m =
    let m1 = record m { bootstrapped = false } in
    elim m1.security [
      | some old ↦
          resolve c bootstrap_flow bootstrap_server
            (record m1 { listen_port = 0; calls = bind_connection 0 ∷ stop_listening ∷ m1.calls })
      | none ↦ elim event [
        | none ↦ invalid m1
        | some s ↦
            let m2 = record m1 { security = some s } in
            elim s.server_type [
              | bootstrap_server ↦ connect atoi c bootstrap_flow bootstrap_server s m2
              | lwm2m_server ↦ invalid m2
            ]
      ]
    ]

-- `StringBuffer<MAX_PATH_SIZE>`: 142 characters with the NUL.
unfoldable pub bootstrap_name : List ℕ → List ℕ → Option (List ℕ)
bootstrap_name name domain =
    if not (leb (length name + 1) 142)
    then none
    else if is_empty domain
    then some name
    else if not (leb (length name + 1 + length domain + 1) (142 - length name))
    then none
    else some (name ++ (b'@' ∷ domain))

unfoldable pub state_bootstrap_address_resolved : Config → Nsdl → Interface → Interface
unfolding bootstrap_name nsdl invalid
state_bootstrap_address_resolved c n m =
    let m1 = log start_listening m in
    elim (bootstrap_name m1.endpoint_name m1.domain) [
      | none ↦ log (error invalid_parameters) m1
      | some name ↦
          let m2 = nsdl c (create_bootstrap_resource name) n.bootstrap_resource m1 in
          if n.bootstrap_resource.result then enter bootstrap_resource_created m2 else invalid m2
    ]

-- The list of objects is made, and then the address is resolved.
unfoldable pub register_first : (List ℕ → ℤ) → Config → Nsdl → List ℕ → Interface → Option Interface
unfolding connect nsdl
register_first atoi c n objects m =
    let m1 = nsdl c (create_nsdl_list_structure objects) n.create_list m in
    if not n.create_list.result then some (invalid m1) else elim m1.security [
      | none ↦ none
      | some s ↦ some (connect atoi c registration_flow lwm2m_server s m1)
    ]

unfoldable pub register_again : Config → Interface → Interface
unfolding resolve
register_again c m = resolve c registration_flow lwm2m_server (log (bind_connection 0) m)

-- `static_cast<M2MRegisterData *>` of an update's data finds the security object, but not the list.
unfoldable pub state_register :
    (List ℕ → ℤ) → Config → Nsdl → EventData → Interface → Option Interface
unfolding register_first register_again invalid nsdl
state_register atoi c n event m =
    let m1 = record m { listen_port = 0; calls = stop_listening ∷ m.calls } in
    let known = λ (s : Security). record m { security = some s } in
    elim m.security [
      | some old ↦ elim event [
        | no_data ↦ some (register_again c m1)
        | register_data s objects ↦
            some (register_again c (nsdl c (create_nsdl_list_structure objects) n.create_list m1))
        | update_data s objects lifetime ↦ none
        | security_data s ↦ none
        | address_data port ↦ none
        | received_data ↦ none
      ]
      | none ↦ elim event [
        | no_data ↦ some (invalid m)
        | register_data s objects ↦ elim s.server_type [
          | lwm2m_server ↦ register_first atoi c n objects (known s)
          | bootstrap_server ↦ some (invalid (known s))
        ]
        | update_data given objects lifetime ↦ elim given [
          | none ↦ some (invalid m)
          | some s ↦ elim s.server_type [
            | lwm2m_server ↦ none
            | bootstrap_server ↦ some (invalid (known s))
          ]
        ]
        | security_data s ↦ none
        | address_data port ↦ none
        | received_data ↦ none
      ]
    ]

unfoldable pub send_register : Config → Nsdl → Interface → Interface
unfolding nsdl invalid
send_register c n m =
    let m1 = nsdl c send_register_message n.register_message m in
    if n.register_message.result then m1 else invalid m1

unfoldable pub state_update_registration :
    Config → Nsdl → Option (List ℕ × ℕ) → Interface → Interface
unfolding send_register
state_update_registration c n event m =
    let m1 : Interface = elim event [
      | none ↦ m
      | some (objects, lifetime) ↦
          if is_empty objects
          then m
          else nsdl c (create_nsdl_list_structure objects) n.create_list m
    ] in
    let lifetime : ℕ = elim event [ none ↦ 0 | some (objects, time) ↦ time ] in
    let m2 = nsdl c (send_update_registration lifetime) n.update_message m1 in
    let m3 = send_register c n (record m2 { reconnection_state = full_registration }) in
    if n.update_message.result then m2 else elim m2.reconnection_state [
      | with_update ↦ m3
      | no_reconnection ↦ m2
      | full_registration ↦ m2
    ]

unfoldable pub state_register_address_resolved : Config → Nsdl → ℕ → Interface → Interface
unfolding state_update_registration
state_register_address_resolved c n port m =
    let m1 = record m { calls = set_server_address port ∷ start_listening ∷ m.calls } in
    elim m1.reconnection_state [
      | no_reconnection ↦ send_register c n m1
      | full_registration ↦ send_register c n m1
      | with_update ↦ state_update_registration c n none (enter update_registration m1)
    ]

unfoldable pub state_unregister : Config → Nsdl → Interface → Interface
unfolding nsdl to_idle
state_unregister c n m =
    let m1 = nsdl c send_unregister_message n.unregister_message (to_waiting sending_coap_data m) in
    if n.unregister_message.result then m1 else log (error not_registered) (to_idle m1)

unfoldable pub state_coap_data_received : Config → Nsdl → Interface → Interface
unfolding nsdl
state_coap_data_received c n m =
    let m1 = nsdl c process_received_data n.received_data (to_waiting processing_coap_data m) in
    if n.received_data.result then m1 else log (error response_parse_failed) m1
