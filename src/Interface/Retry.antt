-- ===== src/Interface/Retry.antt =====
-- `socket_error` and the callbacks of source/m2minterfaceimpl.cpp: how often the client retries.
use mbed_client.Common.{
  ap, Bool-cases, inl, inr, ℕ, zero, suc, ◌+◌, ◌*◌, ◌≤◌, ◌<◌, ◌≡◌, refl, Bool, true, false, List,
  [], ◌∷◌, ltb, Option, none, some, arith,
}
use mbed_client.Interface.{
  no_reconnection, with_update, idle, Error, Call, error, start_retry_timer, stop_retry_timer,
  stop_listening, stop_nsdl_timers, Interface, Config, timer_interval, IsBuild, Upcall,
  coap_message_ready, client_registered, registration_was_updated, client_unregistered,
  registration_error, bootstrap_is_done, bootstrap_error, coap_data_was_processed,
  value_was_updated, bootstrap_must_wait,
}
use mathlib.Core.Path.{subst}
use mbed_client.Interface.Callbacks.{
  report_error, socket_error, error_of_code, start_retry, give_up, to_idle, state_idle,
  registration_error_callback, bootstrap_error_callback, message_ready, registered_callback,
  updated_callback, unregistered_callback, bootstrap_done_callback, bootstrap_wait_callback,
  to_registered, state_registered, to_waiting, upcall, upcalls,
}

abbrev pub IsBounded : Config → Interface → Type 0
IsBounded c m = m.retry_count ≤ c.reconnection_count

socket_error-IsBounded :
    (c : Config) (e : ℕ) (retry : Bool) (m : Interface)
    → IsBuild c
    → IsBounded c m
    → IsBounded c (socket_error c e retry m)
unfolding socket_error start_retry give_up to_idle state_idle
socket_error-IsBounded c e retry m positive b = ground arith

upcall-IsBounded :
    (c : Config) (u : Upcall) (m : Interface)
    → IsBuild c
    → IsBounded c m
    → IsBounded c (upcall c u m)
unfolding upcall message_ready to_idle state_idle to_waiting registered_callback to_registered
    state_registered updated_callback unregistered_callback bootstrap_done_callback
    bootstrap_wait_callback registration_error_callback bootstrap_error_callback
upcall-IsBounded c (coap_message_ready sent) m positive b = ground arith
upcall-IsBounded c client_registered m positive b = ground arith
upcall-IsBounded c registration_was_updated m positive b = ground arith
upcall-IsBounded c client_unregistered m positive b = ground arith
upcall-IsBounded c (registration_error e retry) m positive b =
    ground (arith, socket_error-IsBounded c 3 true m positive b)
upcall-IsBounded c bootstrap_is_done m positive b = ground arith
upcall-IsBounded c bootstrap_error m positive b = ground (arith, socket_error-IsBounded c 2 true)
upcall-IsBounded c coap_data_was_processed m positive b = ground arith
upcall-IsBounded c value_was_updated m positive b = ground arith
upcall-IsBounded c (bootstrap_must_wait s) m positive b = ground arith

-- If the build allows one retry at least and its numbers fit, then whatever the nsdl interface reports, in whatever
-- order, the count of retries stays within the number of retries that the build allows.
pub upcalls-IsBounded :
    (c : Config) (us : List Upcall) (m : Interface)
    → IsBuild c
    → IsBounded c m
    → IsBounded c (upcalls c us m)
unfolding upcalls
upcalls-IsBounded c [] m positive b = b
upcalls-IsBounded c (u ∷ us) m positive b =
    upcalls-IsBounded c us (upcall c u m) positive (upcall-IsBounded c u m positive b)

-- The client waits in the idle state for the timer of its n-th retry.
pub record IsRetrying (c : Config) (n : ℕ) (m : Interface) : Type 0 where
  pub at_rest : m.current_state ≡ idle
  pub pending : m.reconnecting ≡ true
  pub not_expired : m.retry_timer_expired ≡ false
  pub count : m.retry_count ≡ n
  pub timer :
      (cs : List Call) × (m.calls
        ≡ start_retry_timer (c.reconnection_interval * c.reconnection_count * n * 1000)
          ∷ stop_listening
          ∷ stop_nsdl_timers
          ∷ cs)

retry_fits :
    (c : Config) (n : ℕ)
    → IsBuild c
    → n ≤ c.reconnection_count
    → timer_interval (c.reconnection_interval * c.reconnection_count * n * 1000)
      ≡ c.reconnection_interval * c.reconnection_count * n * 1000
unfolding timer_interval
retry_fits c n build h =
    let least : c.reconnection_interval * c.reconnection_count * n
        ≤ c.reconnection_interval * c.reconnection_count * c.reconnection_count =
      grind arith in
    ground (arith, least, build.retry_in_int)

-- One failure that may be retried, after the retry timer expired.
abbrev pub fail : Config → ℕ → Interface → Interface
fail c e m = socket_error c e true (record m { retry_timer_expired = true })

unfoldable pub fail_times : ℕ → Config → ℕ → Interface → Interface
fail_times zero c e m = m
fail_times (suc n) c e m = fail c e (fail_times n c e m)

start_retry-IsRetrying :
    (c : Config) (m : Interface)
    → IsBuild c
    → m.retry_count ≤ c.reconnection_count
    → IsRetrying c m.retry_count (start_retry c m)
unfolding start_retry to_idle state_idle
start_retry-IsRetrying c m build h = record {
  at_rest = refl;
  pending = refl;
  not_expired = refl;
  count = refl;
  timer = (
    m.calls,
    ap (λ time. start_retry_timer time ∷ stop_listening ∷ stop_nsdl_timers ∷ m.calls)
        (retry_fits c m.retry_count build h),
  );
}

-- The state that the failure leaves for `start_retry`.
abbrev failed : ℕ → Interface → Interface
failed n m = record m {
  retry_timer_expired = true;
  reconnection_state = with_update;
  retry_count = n;
}

fail-start_retry :
    (c : Config) (e : ℕ) (m : Interface)
    → IsBuild c
    → m.retry_count < c.reconnection_count
    → fail c e m ≡ start_retry c (failed (m.retry_count + 1) m)
unfolding socket_error
fail-start_retry c e m build h = ground arith

fail-IsRetrying :
    (c : Config) (e : ℕ) (m : Interface)
    → IsBuild c
    → m.retry_count < c.reconnection_count
    → IsRetrying c (m.retry_count + 1) (fail c e m)
fail-IsRetrying c e m build h =
    rw (fail-start_retry c e m build h)
      (start_retry-IsRetrying c (failed (m.retry_count + 1) m) build (omega arith))

loop_next :
    (c : Config) (e : ℕ) (m : Interface)
    → IsBuild c
    → c.reconnection_loop ≡ true
    → m.retry_count < c.reconnection_count
    → socket_error c e true m
      ≡ start_retry c
          (record m { reconnection_state = with_update; retry_count = m.retry_count + 1 })
unfolding socket_error
loop_next c e m build loop h = ground arith

loop_again :
    (c : Config) (e : ℕ) (m : Interface)
    → c.reconnection_loop ≡ true
    → ltb m.retry_count c.reconnection_count ≡ false
    → socket_error c e true m
      ≡ start_retry c (
          report_error
            (error_of_code e)
            (record m { reconnection_state = with_update; retry_count = 1 }))
unfolding socket_error
loop_again c e m loop h = ground arith

report_error-retry_count :
    (err : Option Error) (m : Interface) → (report_error err m).retry_count ≡ m.retry_count
report_error-retry_count none m = refl
report_error-retry_count (some err) m = refl

-- With the endless loop, every failure that may be retried ends in waiting for a retry, whatever
-- the state was: the machine is idle, and the timer of a retry from 1 to the allowed number runs,
-- if the build allows one at least and its numbers fit into a byte and an `int`.
pub fail_loop :
    (c : Config) (e : ℕ) (m : Interface)
    → c.reconnection_loop ≡ true
    → IsBuild c
    → (n : ℕ) × (1 ≤ n) × (n ≤ c.reconnection_count) × IsRetrying c n (socket_error c e true m)
fail_loop c e m loop build = elim (Bool-cases (ltb m.retry_count c.reconnection_count)) [
  | inl less ↦
      let fits : m.retry_count < c.reconnection_count = ground arith in
      (
        m.retry_count + 1,
        omega arith,
        omega arith,
        rw (loop_next c e m build loop fits) (start_retry-IsRetrying c _ build (omega arith)),
      )
  | inr last ↦
      let again = record m { reconnection_state = with_update; retry_count = 1 } in
      (
        1,
        omega arith,
        omega (arith, build.positive),
        rw (loop_again c e m loop last) (
            subst (λ n. IsRetrying c n (start_retry c (report_error (error_of_code e) again)))
              (report_error-retry_count (error_of_code e) again)
              (start_retry-IsRetrying c (report_error (error_of_code e) again) build
                (omega (arith, report_error-retry_count (error_of_code e) again, build.positive)))),
      )
]

fail_times-retry_count :
    (n : ℕ) (c : Config) (e : ℕ) (m : Interface)
    → IsBuild c
    → m.retry_count ≡ 0
    → n ≤ c.reconnection_count
    → (fail_times n c e m).retry_count ≡ n
unfolding fail_times
fail_times-retry_count zero c e m build start h = start
fail_times-retry_count (suc n) c e m build start h =
    let before = fail_times-retry_count n c e m build start (omega arith) in
    let after = fail-IsRetrying c e (fail_times n c e m) build (omega (arith, before)) in
    omega (arith, before, after.count)

-- From a count of 0, in a build whose numbers fit into a byte and an `int`, each failure after the
-- expiry of the timer starts a retry, as often as the build allows: the n-th retry waits n times as
-- long as the first.
pub fail_times-IsRetrying :
    (n : ℕ) (c : Config) (e : ℕ) (m : Interface)
    → IsBuild c
    → m.retry_count ≡ 0
    → n < c.reconnection_count
    → IsRetrying c (suc n) (fail_times (suc n) c e m)
unfolding fail_times
fail_times-IsRetrying n c e m build start h =
    let before = fail_times-retry_count n c e m build start (omega arith) in
    let after = fail-IsRetrying c e (fail_times n c e m) build (omega (arith, before)) in
    subst (λ k. IsRetrying c k (fail_times (suc n) c e m)) (omega (arith, before)) after

last_failure :
    (c : Config) (e : ℕ) (m : Interface) (err : Error)
    → c.reconnection_loop ≡ false
    → m.retry_count ≡ c.reconnection_count
    → error_of_code e ≡ some err
    → let m' = fail c e m in
      (m'.current_state ≡ idle)
      × (m'.reconnecting ≡ false)
      × (m'.retry_count ≡ 0)
      × (m'.reconnection_state ≡ no_reconnection)
      × ((cs : List Call) × (m'.calls
            ≡ stop_nsdl_timers ∷ error err ∷ stop_retry_timer ∷ stop_listening ∷ cs))
unfolding socket_error give_up to_idle state_idle
last_failure c e m err loop spent is_error =
    let e1 : fail c e m
        ≡ give_up (some err) (record m {
          retry_timer_expired = true;
          reconnection_state = with_update;
          calls = stop_retry_timer ∷ stop_listening ∷ m.calls;
        }) =
      ground arith in
    rw e1 (refl, refl, refl, refl, (_, refl))

-- From a count of 0, in a build whose numbers fit into a byte and an `int`: one failure more than it
-- allows, each after the expiry of the timer, without the endless loop and of a kind that has an
-- error, ends the retries: the machine is idle and reconnects no more, its count is 0 again, the retry
-- timer is stopped, and then the application hears of the error.
pub fail_times_gives_up :
    (c : Config) (e : ℕ) (m : Interface) (err : Error)
    → IsBuild c
    → c.reconnection_loop ≡ false
    → m.retry_count ≡ 0
    → error_of_code e ≡ some err
    → let m' = fail_times (suc c.reconnection_count) c e m in
      (m'.current_state ≡ idle)
      × (m'.reconnecting ≡ false)
      × (m'.retry_count ≡ 0)
      × (m'.reconnection_state ≡ no_reconnection)
      × ((cs : List Call) × (m'.calls
            ≡ stop_nsdl_timers ∷ error err ∷ stop_retry_timer ∷ stop_listening ∷ cs))
unfolding fail_times
fail_times_gives_up c e m err build loop start is_error =
    let spent = fail_times-retry_count c.reconnection_count c e m build start (omega arith) in
    last_failure c e (fail_times c.reconnection_count c e m) err loop spent is_error
