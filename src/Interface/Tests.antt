-- ===== src/Interface/Tests.antt =====
-- The theorems on the client's interface at concrete inputs.
use mbed_client.Common.{
  none, ℕ, ◌*◌, ◌≤◌, ◌≡◌, refl, true, false, List, [], ◌∷◌, ◌++◌, ◌-◌, ◌+◌, none, arith,
}
use mbed_client.Common.Int.{ℤ, pos}
use mbed_client.Tlv.Serializer.{to_u16}
use mbed_client.Interface.{
  Answer, Nsdl, Security, lwm2m_server, with_update, invalid_parameters, start_retry_timer,
  Interface, Config, IsBuild, udp, idle, error, network_error, no_reconnection, Call,
  stop_nsdl_timers, stop_retry_timer, stop_listening,
}
use mbed_client.Interface.Address.{process_address, process_address_bare, process_address_brackets}
use mbed_client.Interface.Callbacks.{socket_error, error_of_code}
use mbed_client.Interface.Machine.{connection_error, retry_timer, handle, run}
use mbed_client.Interface.Resting.{IsSound}
use mbed_client.Interface.Runs.{run-IsSound}
use mbed_client.Interface.Retry.{
  IsRetrying, fail_times, fail_loop, fail_times-IsRetrying, fail_times_gives_up,
}

abbrev to_number : ℕ → List ℕ → ℕ
to_number n [] = n
to_number n (c ∷ cs) = to_number (n * 10 + (c - 48)) cs

abbrev atoi : List ℕ → ℤ
atoi s = pos (to_number 0 s)

-- `10`
abbrev host : List ℕ
host = b'1' ∷ b'0' ∷ []

-- `::1`
abbrev host_6 : List ℕ
host_6 = b':' ∷ b':' ∷ b'1' ∷ []

-- `56`
abbrev port : List ℕ
port = b'5' ∷ b'6' ∷ []

abbrev three_retries : Config
three_retries = record {
  reconnection_count = 3;
  reconnection_interval = 5;
  reconnection_loop = false;
}

abbrev endless : Config
endless = record { reconnection_count = 3; reconnection_interval = 5; reconnection_loop = true }

three_retries-IsBuild : IsBuild three_retries
three_retries-IsBuild = record {
  positive = omega arith;
  in_byte = omega arith;
  retry_in_int = omega arith;
  flow_in_int = omega arith;
}

endless-IsBuild : IsBuild endless
endless-IsBuild = record {
  positive = omega arith;
  in_byte = omega arith;
  retry_in_int = omega arith;
  flow_in_int = omega arith;
}

abbrev fresh : Interface
fresh = record {
  current_state = idle;
  event_ignored = false;
  reconnecting = false;
  retry_timer_expired = false;
  bootstrapped = true;
  retry_count = 0;
  reconnection_state = no_reconnection;
  binding_mode = udp;
  has_flow_timer = false;
  has_callback_handler = false;
  server_ip_address = [];
  server_port = 0;
  listen_port = 0;
  domain = [];
  endpoint_name = b'a' ∷ [];
  security = none;
  register_server = none;
  calls = [];
}

process_address_bare_example :
    process_address atoi (host ++ (b':' ∷ port)) ([], 0) ≡ (host, to_u16 (atoi port))
process_address_bare_example =
    process_address_bare atoi host port ([], 0) refl (refl, (refl, tt)) (refl, (refl, tt))

process_address_brackets_example :
    process_address atoi ((b'[' ∷ (host_6 ++ (b']' ∷ []))) ++ (b':' ∷ port)) ([], 0)
    ≡ (host_6, to_u16 (atoi port))
process_address_brackets_example =
    process_address_brackets atoi host_6 port ([], 0) (refl, (refl, tt))

fail_loop_example :
    (n : ℕ) × (1 ≤ n) × (n ≤ 3) × IsRetrying endless n (socket_error endless 2 true fresh)
fail_loop_example = fail_loop endless 2 fresh refl endless-IsBuild

fail_times-IsRetrying_example : IsRetrying three_retries 3 (fail_times 3 three_retries 2 fresh)
fail_times-IsRetrying_example =
    fail_times-IsRetrying 2 three_retries 2 fresh three_retries-IsBuild refl (omega arith)

fail_times_gives_up_example :
    ((fail_times 4 three_retries 2 fresh).current_state ≡ idle)
    × ((fail_times 4 three_retries 2 fresh).reconnecting ≡ false)
    × ((fail_times 4 three_retries 2 fresh).retry_count ≡ 0)
    × ((fail_times 4 three_retries 2 fresh).reconnection_state ≡ no_reconnection)
    × ((cs : List Call) × ((fail_times 4 three_retries 2 fresh).calls
          ≡ stop_nsdl_timers ∷ error network_error ∷ stop_retry_timer ∷ stop_listening ∷ cs))
unfolding error_of_code
fail_times_gives_up_example =
    fail_times_gives_up three_retries 2 fresh network_error three_retries-IsBuild refl refl refl

abbrev quiet : Answer
quiet = record { upcalls = []; result = true }

abbrev answers : Nsdl
answers = record {
  create_list = quiet;
  register_message = quiet;
  update_message = quiet;
  unregister_message = quiet;
  bootstrap_resource = quiet;
  received_data = quiet;
}

abbrev server : Security
server = record { server_type = lwm2m_server; uri = []; secure = false }

-- After a connection error the retry timer expires, with no server known.
abbrev after_retry : Interface
after_retry = record fresh {
  retry_count = 1;
  reconnecting = true;
  retry_timer_expired = true;
  reconnection_state = with_update;
  calls =
      error invalid_parameters
      ∷ stop_nsdl_timers
      ∷ start_retry_timer 15000
      ∷ stop_listening
      ∷ stop_nsdl_timers
      ∷ [];
}

run-IsSound_example : IsSound three_retries after_retry
unfolding run handle
run-IsSound_example =
    run-IsSound atoi three_retries fresh
      ((connection_error 2 true, answers) ∷ (retry_timer, answers) ∷ []) {m' = after_retry}
      three_retries-IsBuild (refl, (omega arith), refl) refl
