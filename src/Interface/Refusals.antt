-- ===== src/Interface/Refusals.antt =====
-- Requests of source/m2minterfaceimpl.cpp that the state does not allow.
use mbed_client.Common.{ℕ, ◌≡◌, false, List, ◌∷◌, none, some, arith}
use mbed_client.Common.Int.{ℤ}
use mbed_client.Interface.{not_allowed, Interface, Config, Nsdl, Security, error}
use mbed_client.Interface.Machine.{external_event, check_ignored, checked, handle}
use mbed_client.Interface.Machine.{register_request, register_map}

-- A registration in a state that does not allow it gives `not_allowed` and changes nothing else but
-- the server, which is kept, and the flag of an ignored event, which is reset.
pub register_request_refused :
    (atoi : List ℕ → ℤ) (c : Config) (n : Nsdl) (s : Security) (objects : List ℕ) (m : Interface)
    → register_map m.current_state ≡ none
    → handle atoi c n (register_request (some s) objects) m
      ≡ some (record m {
        register_server = some s;
        event_ignored = false;
        calls = error not_allowed ∷ m.calls;
      })
unfolding handle checked check_ignored external_event
register_request_refused atoi c n s objects m refused = ground arith
