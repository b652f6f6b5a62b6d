-- ===== src/Nsdl/Renewal.antt =====
-- When a registration is renewed: the timer that its reply starts.
use mbed_client.Common.{
  Option, none, ℕ, ◌+◌, ◌-◌, ◌*◌, ◌/◌, ◌%◌, ◌≤◌, ◌<◌, ◌≡◌, refl, ap, ◌∙◌, Bool, true, false, List,
  ◌∷◌, length, leb, ltb, none, some, if◌then◌else◌, arith,
}
use mbed_client.Common.Int.{ℤ, pos, int_lt}
use mbed_client.Text.{itoa_c}
use mbed_client.Text.Decimal.{itoa_c_bound}
use mbed_client.Nsdl.Replies.{
  Reply, created, Endpoint, Asked, client_registered, set_location, ask, start_registration,
  stop_registration, as_int, as_uint64, registration_time, register_reply, take_options,
  set_endpoint_lifetime_buffer, start_registration_timer, renew,
}

-- A reply that registers the client for so many seconds, with a location or without.
abbrev pub registered : ℕ → Option (List ℕ) → Reply
registered max_age location = record {
  msg_code = created;
  sending_failed = false;
  options = some (record { max_age = max_age; location = location });
}

-- What is asked before the timer: the location is set, if there is one.
abbrev pub asked_first : Option (List ℕ) → List Asked → List Asked
asked_first none asked = client_registered ∷ asked
asked_first (some path) asked = set_location path ∷ client_registered ∷ asked

abbrev time_of : ℕ → ℕ
time_of value =
    (if leb 3600 value then value - 900 else value * 3 / 4) * 1000 % 18446744073709551616

module _ (malloc : ℕ → Bool) (atol : List ℕ → ℤ) where
  set_lifetime_lem :
      (max_age : ℕ) (e : Endpoint)
      → ((n : ℕ) → malloc n ≡ true)
      → set_endpoint_lifetime_buffer malloc atol (as_int max_age) e
        ≡ record e { lifetime = some (itoa_c (as_int max_age)) }
  unfolding set_endpoint_lifetime_buffer
  set_lifetime_lem max_age e ample =
      let bound = itoa_c_bound (as_int max_age) in
      let short : leb (length (itoa_c (as_int max_age))) 21 ≡ true = ground (arith, bound) in
      rw (short, ample (length (itoa_c (as_int max_age)) + 1)) refl

  take_options_lem :
      (max_age : ℕ) (location : Option (List ℕ)) (e : Endpoint)
      → ((n : ℕ) → malloc n ≡ true)
      → 0 < max_age
      → take_options malloc atol
          (record { max_age = max_age; location = location })
          (record e { asked = client_registered ∷ e.asked })
        ≡ record e {
          lifetime = some (itoa_c (as_int max_age));
          asked = asked_first location e.asked;
        }
  unfolding take_options
  take_options_lem max_age none e ample long =
      let given : ltb 0 max_age ≡ true = ground arith in
      let e1 = record e { lifetime = none; asked = client_registered ∷ e.asked } in
      rw given (set_lifetime_lem max_age e1 ample)
  take_options_lem max_age (some path) e ample long =
      let given : ltb 0 max_age ≡ true = ground arith in
      let e1 = record e { lifetime = none; asked = client_registered ∷ e.asked } in
      rw given (ap (ask (set_location path)) (set_lifetime_lem max_age e1 ample))

  registration_time_lem :
      (z : ℤ) (e : Endpoint)
      → atol (itoa_c z) ≡ z
      → registration_time malloc atol (record e { lifetime = some (itoa_c z) })
          * 1000
          % 18446744073709551616
        ≡ time_of (as_uint64 z)
  unfolding registration_time
  registration_time_lem z e reads = rw reads refl

  -- With the text of its lifetime the timer is started.
  register_reply-started :
      (max_age : ℕ) (location : Option (List ℕ)) (e : Endpoint)
      → ((n : ℕ) → malloc n ≡ true)
      → atol (itoa_c (as_int max_age)) ≡ as_int max_age
      → 0 < max_age
      → (register_reply malloc atol (registered max_age location) e).asked
        ≡ start_registration (time_of (as_uint64 (as_int max_age)))
          ∷ stop_registration
          ∷ asked_first location e.asked
  unfolding register_reply renew start_registration_timer
  register_reply-started max_age location e ample reads long =
      let told : List Asked = asked_first location e.asked in
      let kept = take_options_lem max_age location e ample long in
      let time =
        registration_time_lem (as_int max_age) (record e { asked = stop_registration ∷ told })
          reads in
      ap (λ x. (renew malloc atol x).asked) kept
      ∙ ap (λ t. start_registration t ∷ stop_registration ∷ told) time

  -- A registration with a lifetime of 1 to 2 ^ 31 - 1 seconds, with a location or without, starts a
  -- timer that ends before the lifetime does, and a second before half of it is over at the earliest;
  -- if the allocation succeeds and `atol` reads the text of the lifetime back.
  pub register_reply-renews :
      (max_age : ℕ) (location : Option (List ℕ)) (e : Endpoint)
      → ((n : ℕ) → malloc n ≡ true)
      → atol (itoa_c (as_int max_age)) ≡ as_int max_age
      → 0 < max_age
      → max_age < 2147483648
      → (time : ℕ) × ((register_reply malloc atol (registered max_age location) e).asked
          ≡ start_registration time ∷ stop_registration ∷ asked_first location e.asked)
        × (time < max_age * 1000)
        × (max_age * 500 ≤ time + 1000)
  unfolding as_int as_uint64
  register_reply-renews max_age location e ample reads long short =
      let small : ltb max_age 2147483648 ≡ true = ground arith in
      let value : as_uint64 (as_int max_age) ≡ max_age = rw small refl in
      (
        time_of max_age,
        register_reply-started max_age location e ample reads long
            ∙ ap
                (λ v.
                  start_registration (time_of v) ∷ stop_registration ∷ asked_first location e.asked)
                value,
        ground arith,
        ground arith,
      )

  -- A registration with a lifetime of 2 ^ 31 to 2 ^ 32 - 1 seconds, with a location or without,
  -- starts a timer that ends more than ten times as late as the lifetime; if the allocation succeeds
  -- and `atol` reads the text of the lifetime back, which is that of a negative number.
  pub register_reply-late :
      (max_age : ℕ) (location : Option (List ℕ)) (e : Endpoint)
      → ((n : ℕ) → malloc n ≡ true)
      → atol (itoa_c (as_int max_age)) ≡ as_int max_age
      → 2147483648 ≤ max_age
      → max_age < 4294967296
      → (time : ℕ) × ((register_reply malloc atol (registered max_age location) e).asked
          ≡ start_registration time ∷ stop_registration ∷ asked_first location e.asked)
        × (max_age * 10000 < time)
        × (int_lt (as_int max_age) (pos 0) ≡ true)
  unfolding as_int as_uint64
  register_reply-late max_age location e ample reads long short =
      let large : ltb max_age 2147483648 ≡ false = ground arith in
      let value : as_uint64 (as_int max_age) ≡ 18446744073709551615 - (4294967295 - max_age) =
        rw large refl in
      (
        time_of (18446744073709551615 - (4294967295 - max_age)),
        register_reply-started max_age location e ample reads (omega arith)
            ∙ ap
                (λ v.
                  start_registration (time_of v) ∷ stop_registration ∷ asked_first location e.asked)
                value,
        ground arith,
        rw large refl,
      )
