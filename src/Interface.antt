-- ===== src/Interface.antt =====
-- The state of `M2MInterfaceImpl` (source/include/m2minterfaceimpl.h), and what it asks of others.
pub mod Address
pub mod Callbacks
pub mod States
pub mod Machine
pub mod Resting
pub mod Runs
pub mod Refusals
pub mod Retry
pub mod Tests
use mbed_client.Common.{
  ℕ, zero, suc, ◌+◌, ◌*◌, ◌%◌, ◌<◌, ltb, ◌≡◌, Bool, true, false, not, ◌&&◌, List, [], ◌∷◌, Option,
  none, some, if◌then◌else◌,
}

pub data State : Type 0 where
  idle bootstrap bootstrap_address_resolved bootstrap_resource_created bootstrap_wait : State
  bootstrapped register register_address_resolved registered update_registration : State
  unregister unregistered sending_coap_data coap_data_sent coap_data_received : State
  processing_coap_data coap_data_processed waiting : State

pub data ReconnectionState : Type 0 where
  no_reconnection with_update full_registration : ReconnectionState

-- `M2MInterface::Error`, the members that this file names; `code` is `(M2MInterface::Error)code`.
pub data Error : Type 0 where
  invalid_parameters not_registered network_error response_parse_failed not_allowed : Error
  secure_connection_failed dns_resolving_failed : Error
  code : ℕ → Error

pub data BindingMode : Type 0 where
  not_set udp udp_queue sms sms_queue udp_sms_queue tcp tcp_queue : BindingMode

pub data ServerType : Type 0 where
  bootstrap_server lwm2m_server : ServerType

-- An `M2MSecurity`: its server type, its server URI, and whether its mode is not `NoSecurity`.
pub record Security : Type 0 where
  pub server_type : ServerType
  pub uri : List ℕ
  pub secure : Bool

pub data FlowTimer : Type 0 where
  bootstrap_flow registration_flow : FlowTimer

-- Calls of the observer, of the connection handler, of the nsdl interface and of the timers.
pub data Call : Type 0 where
  error : Error → Call
  object_registered registration_updated object_unregistered bootstrap_done value_updated : Call
  stop_nsdl_timers : Call
  create_nsdl_list_structure : List ℕ → Call
  send_register_message send_unregister_message : Call
  send_update_registration : ℕ → Call
  create_bootstrap_resource : List ℕ → Call
  process_received_data : Call
  bind_connection : ℕ → Call
  start_listening stop_listening : Call
  resolve_server_address : List ℕ → ℕ → ServerType → Call
  set_server_address : ℕ → Call
  send_data : Call
  start_retry_timer : ℕ → Call
  stop_retry_timer : Call
  start_flow_timer : FlowTimer → ℕ → Call
  stop_flow_timer : Call
  restart_queue_timer : ℕ → Call
  queue_sleep : Call

pub record Interface : Type 0 where
  pub current_state : State
  pub event_ignored : Bool
  pub reconnecting : Bool
  pub retry_timer_expired : Bool
  pub bootstrapped : Bool
  pub retry_count : ℕ
  pub reconnection_state : ReconnectionState
  pub binding_mode : BindingMode
  pub has_flow_timer : Bool
  pub has_callback_handler : Bool
  pub server_ip_address : List ℕ
  pub server_port : ℕ
  pub listen_port : ℕ
  pub domain : List ℕ
  pub endpoint_name : List ℕ
  pub security : Option Security
  pub register_server : Option Security
  pub calls : List Call

-- The build's options, by m2mconfig.h 3, 5 seconds and 1.
pub record Config : Type 0 where
  pub reconnection_count : ℕ
  pub reconnection_interval : ℕ
  pub reconnection_loop : Bool

-- A product of the type `int` as the `uint64_t` that a timer takes. Where it leaves `int`, the
-- behaviour is undefined; here it is that of a machine that wraps around.
unfoldable pub timer_interval : ℕ → ℕ
timer_interval product =
    let word = product % 4294967296 in
    if ltb word 2147483648 then word else word + 18446744069414584320

-- A build that allows a retry at least, and whose numbers fit: the count of retries in a byte, and
-- the longest times of the retry timer and of the flow timer in an `int`.
pub record IsBuild (c : Config) : Type 0 where
  pub positive : 0 < c.reconnection_count
  pub in_byte : c.reconnection_count < 256
  pub retry_in_int :
      c.reconnection_interval * c.reconnection_count * c.reconnection_count * 1000 < 2147483648
  pub flow_in_int : c.reconnection_count * c.reconnection_interval * 8 * 1000 < 2147483648

-- What a call of the nsdl interface does before it returns: it may call the interface back.
pub data Upcall : Type 0 where
  coap_message_ready : Bool → Upcall
  client_registered registration_was_updated client_unregistered : Upcall
  registration_error : ℕ → Bool → Upcall
  bootstrap_is_done bootstrap_error coap_data_was_processed value_was_updated : Upcall
  bootstrap_must_wait : Security → Upcall

pub record Answer : Type 0 where
  pub upcalls : List Upcall
  pub result : Bool

-- The answers of the nsdl interface to the calls of one event.
pub record Nsdl : Type 0 where
  pub create_list : Answer
  pub register_message : Answer
  pub update_message : Answer
  pub unregister_message : Answer
  pub bootstrap_resource : Answer
  pub received_data : Answer

abbrev pub log : Call → Interface → Interface
log c m = record m { calls = c ∷ m.calls }

abbrev pub enter : State → Interface → Interface
enter s m = record m { current_state = s }

-- `RESOLVE_SEC_MODE` and the constructor: the timer of the registration flow is for TCP alone.
abbrev pub is_tcp : BindingMode → Bool
is_tcp tcp = true
is_tcp tcp_queue = true
is_tcp not_set = false
is_tcp udp = false
is_tcp udp_queue = false
is_tcp sms = false
is_tcp sms_queue = false
is_tcp udp_sms_queue = false

unfoldable pub interface : BindingMode → ℕ → List ℕ → List ℕ → Interface
interface mode port domain name = record {
  current_state = idle;
  event_ignored = false;
  reconnecting = false;
  retry_timer_expired = false;
  bootstrapped = true;
  retry_count = 0;
  reconnection_state = no_reconnection;
  binding_mode = mode;
  has_flow_timer = is_tcp mode;
  has_callback_handler = false;
  server_ip_address = [];
  server_port = 0;
  listen_port = port;
  domain = domain;
  endpoint_name = name;
  security = none;
  register_server = none;
  calls = bind_connection port ∷ [];
}
