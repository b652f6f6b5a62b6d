-- ===== src/Tlv/Termination.antt =====
-- The loops of the deserialiser end: each TLV takes two bytes of the array at least.
pub mod Instances
pub mod Resources
use mbed_client.Common.{
  ℕ, zero, suc, ◌+◌, ◌≤◌, ◌<◌, ◌≡◌, ◌≢◌, refl, inl, inr, Bool, true, false, List, [], ◌∷◌, length,
  get_elem?, Option, none, some, Option-cases, ltb, not, ◌==◌, ◌||◌, ◌&&◌, if◌then◌else◌, arith,
}
use mbed_client.Tlv.{
  Platform, Resource, ResourceInstance, ObjectInstance, type_resource, type_multiple_resource,
  type_resource_instance, type_object_instance,
}
use mbed_client.Tlv.Header.{
  TypeIdLength, type_id_length, deserialise_id, first_length, shift_in, deserialise_length,
  deserialize, read_til, is_object_instance, is_resource, is_multiple_resource,
}
use mbed_client.Tlv.Deserializer.{
  Error, Operation, Outcome, done, out_of_bounds, out_of_fuel, ◌>>=◌, bounded, visit, new_value,
  visit_instances, visit_resources, ok, has_id, is_ok,
}
use mbed_client.Tlv.Deserializer.Instances.{
  resource_instances_loop, instances_loop, instance_step, multiple_loop,
}
use mbed_client.Tlv.Deserializer.Resources.{
  resource_step, resources_step, resources_loop, deserialize_resources, matching_instances,
  object_instances_loop, deserialise_object_instances,
}

lt_of_get_elem? : (xs : List ℕ) (i : ℕ) {b : ℕ} → get_elem? xs i ≡ some b → i < length xs
lt_of_get_elem? [] i h = cc
lt_of_get_elem? (x ∷ xs) zero h = omega arith
lt_of_get_elem? (x ∷ xs) (suc i) h = omega (arith, lt_of_get_elem? xs i h)

shift_in-offset :
    (more : Bool) (tlv : List ℕ) (t : TypeIdLength) {t' : TypeIdLength}
    → shift_in more tlv t ≡ some t'
    → t.offset ≤ t'.offset
unfolding shift_in
shift_in-offset more tlv t h = ground arith

first_length-offset :
    (more : Bool) (tlv : List ℕ) (t : TypeIdLength) {t' : TypeIdLength}
    → first_length more tlv t ≡ some t'
    → t.offset ≤ t'.offset
unfolding first_length
first_length-offset more tlv t h = ground arith

deserialise_length-offset :
    (tlv : List ℕ) (k : ℕ) (t : TypeIdLength) {t' : TypeIdLength}
    → deserialise_length tlv k t ≡ some t'
    → t.offset ≤ t'.offset
unfolding deserialise_length
deserialise_length-offset tlv k t h = grind (arith, shift_in-offset, first_length-offset)

deserialise_id-offset :
    (tlv : List ℕ) (k : ℕ) (t : TypeIdLength) {t' : TypeIdLength}
    → deserialise_id tlv k t ≡ some t'
    → t.offset + 1 ≤ t'.offset
unfolding deserialise_id
deserialise_id-offset tlv k t h = ground arith

-- A header that can be read starts inside the array, and takes two bytes at least.
pub read_til_bounds :
    (tlv : List ℕ) (o : ℕ) {til : TypeIdLength}
    → read_til tlv o ≡ some til
    → (o < length tlv) × (o + 2 ≤ til.offset)
unfolding read_til type_id_length deserialize
read_til_bounds tlv o h =
    grind (arith, lt_of_get_elem?, deserialise_id-offset, deserialise_length-offset)

-- The result is reached: the fuel lasts.
abbrev pub Ends : {A : Type 0} → Outcome A → Type 0
Ends m = m ≢ out_of_fuel

pub Ends-bind :
    {A B : Type 0} (m : Outcome A) (f : A → Outcome B)
    → Ends m
    → ((a : A) → m ≡ done a → Ends (f a))
    → Ends (m >>= f)
Ends-bind (done a) f h k = k a refl
Ends-bind out_of_bounds f h k = λ e. cc
Ends-bind out_of_fuel f h k = absurd (h refl)

pub Ends-bounded : {A : Type 0} (m : Option A) → Ends (bounded m)
Ends-bounded none = λ e. cc
Ends-bounded (some a) = λ e. cc

pub bounded-done : {A : Type 0} (m : Option A) {a : A} → bounded m ≡ done a → m ≡ some a
bounded-done none h = cc
bounded-done (some b) h = cc

pub Ends-if :
    {A : Type 0} (b : Bool) (x y : Outcome A) → Ends x → Ends y → Ends (if b then x else y)
Ends-if true x y hx hy = hx
Ends-if false x y hx hy = hy

pub new_value-Ends : (p : Platform) (tlv : List ℕ) (til : TypeIdLength) → Ends (new_value p tlv til)
unfolding new_value
new_value-Ends p tlv til = ground arith

module _ {A : Type 0} (is_hit : A → Bool) (operation : A → ℕ) (write : A → Outcome A) where
  visit-Ends :
      ((x : A) → Ends (write x))
      → (update_value : Bool) (xs : List A) → Ends (visit is_hit operation write update_value xs)
  unfolding visit
  visit-Ends w u [] = λ e. cc
  visit-Ends w u (x ∷ xs) = ground (arith, w x, visit-Ends w u xs)

pub visit_instances-Ends :
    (p : Platform) (tlv : List ℕ) (til : TypeIdLength) (u : Bool) (rs : List ResourceInstance)
    → Ends (visit_instances p tlv til u rs)
unfolding visit_instances
visit_instances-Ends p tlv til =
    visit-Ends _ _ _
      (λ r. Ends-bind (new_value p tlv til) _ (new_value-Ends p tlv til) (λ v e g. cc))

pub visit_resources-Ends :
    (p : Platform) (tlv : List ℕ) (til : TypeIdLength) (u : Bool) (rs : List Resource)
    → Ends (visit_resources p tlv til u rs)
unfolding visit_resources
visit_resources-Ends p tlv til =
    visit-Ends _ _ _
      (λ r. Ends-bind (new_value p tlv til) _ (new_value-Ends p tlv til) (λ v e g. cc))

-- Fuel for the rounds that can follow at the offset, and for one more that fails to read.
abbrev pub IsEnough : ℕ → List ℕ → ℕ → Type 0
IsEnough fuel tlv o = (1 ≤ fuel) × (length tlv + 1 ≤ o + fuel)

pub IsEnough-read_til :
    (fuel : ℕ) (tlv : List ℕ) (o : ℕ) (til : TypeIdLength)
    → IsEnough (suc fuel) tlv o
    → bounded (read_til tlv o) ≡ done til
    → IsEnough fuel tlv (til.offset + til.length)
IsEnough-read_til fuel tlv o til h e =
    omega (arith, read_til_bounds tlv o (bounded-done (read_til tlv o) e))
