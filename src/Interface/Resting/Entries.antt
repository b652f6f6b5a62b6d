-- ===== src/Interface/Resting/Entries.antt =====
-- The transition maps of source/m2minterfaceimpl.cpp, and the states that they enter.
use mathlib.Core.Path.{subst}
use mbed_client.Common.{
  sym, ◌⊎◌, ℕ, ◌≡◌, refl, Bool, true, false, List, Option, none, some, if◌then◌else◌, arith,
}
use mbed_client.Common.Int.{ℤ}
use mbed_client.Interface.{
  State, bootstrap, register, update_registration, unregister, Interface, Config, IsBuild, Nsdl,
  enter, Security,
}
use mbed_client.Interface.States.{EventData, no_data, update_data, security_data}
use mbed_client.Interface.Machine.{
  state_function, internal_event, external_event, check_ignored, checked,
}
use mbed_client.Interface.Machine.{bootstrap_map, register_map, update_map, unregister_map}
use mbed_client.Interface.Resting.{IsSound, state_bootstrap-IsSound}
use mbed_client.Interface.Resting.States.{
  state_register-IsSound, state_update_registration-IsSound, state_unregister-IsSound,
}

module _ (atoi : List ℕ → ℤ) (c : Config) (n : Nsdl) (positive : IsBuild c) where
  pub of_some : (m : Interface) {m' : Interface} → IsSound c m → some m ≡ some m' → IsSound c m'
  of_some m b e = ground arith

  pub unless-IsSound :
      (b : Bool) (m : Interface) (r : Option Interface) {m' : Interface}
      → IsSound c m
      → (r ≡ some m' → IsSound c m')
      → (if b then some m else r) ≡ some m'
      → IsSound c m'
  unless-IsSound true m r {m'} h k e = of_some m {m' = m'} h e
  unless-IsSound false m r h k e = k e

  pub checked-IsSound :
      (always : Bool) (r : Option Interface) {m' : Interface}
      → ((m1 : Interface) → r ≡ some m1 → IsSound c m1)
      → checked atoi c n always r ≡ some m'
      → IsSound c m'
  unfolding checked check_ignored
  checked-IsSound always none k e = ground arith
  checked-IsSound always (some m1) k e = ground (arith, k m1 refl)

  -- A transition map, and what its entry does.
  pub external_event-IsSound :
      (always : Bool) (target : Option State) (event : EventData) (m : Interface) {m' : Interface}
      → IsSound c m
      → ((s : State)
          → target ≡ some s
          → (m1 : Interface) → internal_event atoi c n s event m ≡ some m1
          → IsSound c m1)
      → checked atoi c n always (external_event atoi c n target event m) ≡ some m'
      → IsSound c m'
  unfolding external_event checked check_ignored
  external_event-IsSound always none event m b k e = ground arith
  external_event-IsSound always (some s) event m {m'} b k e =
      checked-IsSound always (internal_event atoi c n s event m) {m' = m'} (k s refl) e

  pub enter_register :
      (event : EventData) (m m1 : Interface)
      → IsSound c m
      → internal_event atoi c n register event m ≡ some m1
      → IsSound c m1
  unfolding internal_event state_function
  enter_register event m m1 b e =
      state_register-IsSound atoi c n event (enter register m) {m' = m1} positive (refl, b.1, b.2) e

  pub enter_bootstrap :
      (s : Security) (m m1 : Interface)
      → IsSound c m
      → internal_event atoi c n bootstrap (security_data s) m ≡ some m1
      → IsSound c m1
  unfolding internal_event state_function
  enter_bootstrap s m m1 b e =
      ground (arith, state_bootstrap-IsSound atoi c (some s) (enter bootstrap m) (refl, b.1, b.2))

  pub enter_unregister :
      (m m1 : Interface)
      → IsSound c m
      → internal_event atoi c n unregister no_data m ≡ some m1
      → IsSound c m1
  unfolding internal_event state_function
  enter_unregister m m1 b e =
      ground (arith, state_unregister-IsSound c n (enter unregister m) positive b.1 b.2)

  pub enter_update :
      (s : Option Security) (objects : List ℕ) (lifetime : ℕ) (m m1 : Interface)
      → IsSound c m
      → internal_event atoi c n update_registration (update_data s objects lifetime) m ≡ some m1
      → IsSound c m1
  unfolding internal_event state_function
  enter_update s objects lifetime m m1 b e = ground (
    arith,
    state_update_registration-IsSound c n (some (objects, lifetime)) (enter update_registration m)
        positive (refl, b.1, b.2),
  )

  pub bootstrap_map-eq : (s t : State) → bootstrap_map s ≡ some t → bootstrap ≡ t
  unfolding bootstrap_map
  bootstrap_map-eq s t e = ground arith

  pub register_map-eq : (s t : State) → register_map s ≡ some t → register ≡ t
  unfolding register_map
  register_map-eq s t e = ground arith

  pub unregister_map-eq : (s t : State) → unregister_map s ≡ some t → unregister ≡ t
  unfolding unregister_map
  unregister_map-eq s t e = ground arith

  pub update_map-eq :
      (s t : State) → update_map s ≡ some t → (register ≡ t) ⊎ (update_registration ≡ t)
  unfolding update_map
  update_map-eq s t e = ground arith

  -- What is known of one state is known of a state that is equal to it.
  pub entered :
      (event : EventData) (m m1 : Interface) (s t : State)
      → s ≡ t
      → (internal_event atoi c n s event m ≡ some m1 → IsSound c m1)
      → internal_event atoi c n t event m ≡ some m1
      → IsSound c m1
  entered event m m1 s t q k e =
      k (subst (λ x. internal_event atoi c n x event m ≡ some m1) (sym q) e)
