-- ===== src/Tlv/FirstLook.antt =====
-- The first of the two looks that `deserialize_resources` of source/m2mtlvdeserializer.cpp takes at a
-- payload: under PUT it changes nothing.
use mbed_client.Common.{
  ℕ, zero, suc, ◌+◌, ◌≡◌, refl, ap, ◌∙◌, Bool, true, false, not, ◌&&◌, ◌||◌, List, [], ◌∷◌, length,
  ltb, ◌==◌, bit_and, get_elem?, set, Option, none, some, if◌then◌else◌, arith, Option-cases, inl,
  inr,
}
use mathlib.Core.Path.{subst}
use mbed_client.Tlv.{
  Platform, Resource, ResourceInstance, ObjectInstance, put_allowed, type_resource,
  type_multiple_resource, type_resource_instance,
}
use mbed_client.Tlv.Header.{TypeIdLength, read_til, is_resource, is_multiple_resource}
use mbed_client.Tlv.Deserializer.{
  Error, ok, not_found, not_valid, put, Outcome, done, out_of_bounds, out_of_fuel, ◌>>=◌, bounded,
  is_ok, visit, visit_instances, visit_resources, has_id, new_value,
}
use mbed_client.Tlv.Deserializer.Instances.{instance_step, instances_loop, multiple_loop}
use mbed_client.Tlv.Deserializer.Resources.{
  resource_step, resources_step, resources_loop, deserialize_resources,
}

-- A predicate of the result, where there is one.
abbrev IfDone : {A : Type 0} → (A → Type 0) → Outcome A → Type 0
IfDone P (done a) = P a
IfDone P out_of_bounds = Unit
IfDone P out_of_fuel = Unit

IfDone-map :
    {A : Type 0} (P Q : A → Type 0) (x : Outcome A)
    → IfDone P x
    → ((a : A) → P a → Q a)
    → IfDone Q x
IfDone-map P Q (done a) h step = step a h
IfDone-map P Q out_of_bounds h step = _
IfDone-map P Q out_of_fuel h step = _

IfDone-bind :
    {A B : Type 0} (P : A → Type 0) (Q : B → Type 0) (x : Outcome A) (g : A → Outcome B)
    → IfDone P x
    → ((a : A) → P a → IfDone Q (g a))
    → IfDone Q (x >>= g)
IfDone-bind P Q (done a) g h step = step a h
IfDone-bind P Q out_of_bounds g h step = _
IfDone-bind P Q out_of_fuel g h step = _

IfDone-if :
    {A : Type 0} (P : A → Type 0) (b : Bool) (x y : Outcome A)
    → IfDone P x
    → IfDone P y
    → IfDone P (if b then x else y)
IfDone-if P true x y h g = h
IfDone-if P false x y h g = g

-- After a read within the array.
IfDone-bounded :
    {A B : Type 0} (Q : B → Type 0) (o : Option A) (g : A → Outcome B)
    → ((a : A) → IfDone Q (g a))
    → IfDone Q (bounded o >>= g)
IfDone-bounded Q none g step = _
IfDone-bounded Q (some a) g step = step a

-- The first look of the loop over resources or resource instances.
visit-same :
    {A : Type 0} (is_hit : A → Bool) (operation : A → ℕ) (write : A → Outcome A) (xs : List A)
    → IfDone (λ r. r.2 ≡ xs) (visit is_hit operation write false xs)
unfolding visit
visit-same is_hit operation write [] = refl
visit-same is_hit operation write (x ∷ xs) =
    let rest = visit is_hit operation write false xs in
    let again = visit-same is_hit operation write xs in
    IfDone-if (λ r. r.2 ≡ x ∷ xs) (not (is_hit x)) _ _
      (IfDone-bind (λ r. r.2 ≡ xs) (λ r. r.2 ≡ x ∷ xs) rest _ again (λ r e. ap (◌∷◌ x) e))
      (IfDone-if (λ r. r.2 ≡ x ∷ xs) (bit_and (operation x) put_allowed == 0) _ _ refl
        (IfDone-bind (λ r. r.2 ≡ xs) (λ r. r.2 ≡ x ∷ xs) rest _ again (λ r e. ap (◌∷◌ x) e)))

set-same : {A : Type 0} (xs : List A) (i : ℕ) (x : A) → get_elem? xs i ≡ some x → set xs i x ≡ xs
set-same [] i x h = refl
set-same (y ∷ xs) zero x h = ap (λ z. z ∷ xs) (ground (arith, h))
set-same (y ∷ xs) (suc i) x h = ap (◌∷◌ y) (set-same xs i x h)

found-same :
    (found : Bool) (e : Error) (rs : List Resource) (o : ObjectInstance)
    → rs ≡ o.resources
    → let o' : ObjectInstance = record o { resources = rs } in
      let r : Error × ObjectInstance = if found then (e, o') else (not_found, o') in r.1 ≡ o
found-same true e rs o h = ap (λ rs. record o { resources = rs }) h
found-same false e rs o h = ap (λ rs. record o { resources = rs }) h

found_instance-same :
    (found : Bool) (e : Error) (rs : List ResourceInstance) (i : ℕ) (r : Resource)
    (o : ObjectInstance)
    → get_elem? o.resources i ≡ some r
    → rs ≡ r.resource_instances
    → let o' : ObjectInstance = record o {
      resources = set o.resources i (record r { resource_instances = rs });
    } in
      let x : Error × ObjectInstance = if found then (e, o') else (not_found, o') in x.1 ≡ o
found_instance-same true e rs i r o at h =
    ap (λ rs. record o { resources = set o.resources i (record r { resource_instances = rs }) }) h
    ∙ ap (λ xs. record o { resources = xs }) (set-same o.resources i r at)
found_instance-same false e rs i r o at h =
    ap (λ rs. record o { resources = set o.resources i (record r { resource_instances = rs }) }) h
    ∙ ap (λ xs. record o { resources = xs }) (set-same o.resources i r at)

module _ (p : Platform) (tlv : List ℕ) (tlv_size : ℕ) where
  resource_step-same :
      (til : TypeIdLength) (o : ObjectInstance)
      → IfDone (λ r. r.1 ≡ o) (resource_step p tlv til o put false)
  unfolding resource_step visit_resources
  resource_step-same til o =
      IfDone-bind (λ r. r.2 ≡ o.resources) (λ r. r.1 ≡ o)
        (visit_resources p tlv til false o.resources) _
        (visit-same (λ r. has_id r.name_id til.id) (λ r. r.operation)
          (λ r. new_value p tlv til >>= (λ v. done (record r { value = v }))) o.resources)
        (λ r e. found-same r.0 r.1 r.2 o e)

  instance_step-same :
      (til : TypeIdLength) (i : ℕ) (r : Resource) (o : ObjectInstance)
      → get_elem? o.resources i ≡ some r
      → IfDone (λ r. r.1 ≡ o) (instance_step p tlv til i r o put false)
  unfolding instance_step visit_instances
  instance_step-same til i r o at =
      IfDone-bind (λ x. x.2 ≡ r.resource_instances) (λ x. x.1 ≡ o)
        (visit_instances p tlv til false r.resource_instances) _
        (visit-same (λ r. r.instance_id == til.id && type_resource_instance == til.type)
          (λ r. r.operation) (λ r. new_value p tlv til >>= (λ v. done (record r { value = v })))
          r.resource_instances)
        (λ x e. found_instance-same x.0 x.1 x.2 i r o at e)

  instances_loop-same :
      (fuel offset i : ℕ) (o : ObjectInstance)
      → IfDone (λ r. r.1 ≡ o) (instances_loop fuel p tlv tlv_size offset i o put false)
  unfolding instances_loop
  instances_loop-same zero offset i o = _
  instances_loop-same (suc fuel) offset i o =
      IfDone-bounded (λ r. r.1 ≡ o) (read_til tlv offset) _
        (λ til.
          IfDone-if (λ r. r.1 ≡ o)
            (not (type_multiple_resource == til.type || type_resource_instance == til.type)) _ _
            refl
            (elim (Option-cases (get_elem? o.resources i)) [
              | inl absent ↦ rw absent refl
              | inr (r, at) ↦ rw at (
                  IfDone-bind (λ x. x.1 ≡ o) (λ x. x.1 ≡ o)
                    (instance_step p tlv til i r o put false) _ (instance_step-same til i r o at)
                    (λ x e.
                      IfDone-if (λ x. x.1 ≡ o) (ltb (til.offset + til.length) tlv_size) _ _
                        (IfDone-map (λ y. y.1 ≡ x.1) (λ y. y.1 ≡ o) _
                          (instances_loop-same fuel (til.offset + til.length) i x.1) (λ y q. q ∙ e))
                        e))
            ]))

  multiple_loop-same :
      (call : ℕ → ObjectInstance → Outcome (Error × ObjectInstance)) (id count i : ℕ) (e : Error)
      (o : ObjectInstance)
      → ((i : ℕ) (o : ObjectInstance) → IfDone (λ r. r.1 ≡ o) (call i o))
      → IfDone (λ r. r.1 ≡ o) (multiple_loop call id count i e o)
  unfolding multiple_loop
  multiple_loop-same call id zero i e o keep = refl
  multiple_loop-same call id (suc count) i e o keep =
      elim (Option-cases (get_elem? o.resources i)) [
        | inl absent ↦ rw (absent, multiple_loop) refl
        | inr (r, at) ↦
            rw (at, multiple_loop)
              (IfDone-if (λ x. x.1 ≡ o) (r.supports_multiple_instances && has_id r.name_id id) _ _
                (IfDone-bind (λ x. x.1 ≡ o) (λ x. x.1 ≡ o) (call i o) _ (keep i o)
                  (λ x q.
                    IfDone-map (λ y. y.1 ≡ x.1) (λ y. y.1 ≡ o) _
                      (multiple_loop-same call id count (i + 1) x.0 x.1 keep) (λ y w. w ∙ q)))
                (multiple_loop-same call id count (i + 1) e o keep))
      ]

  -- The object instance of a step, where it goes on.
  abbrev IsStepOf : ObjectInstance → Option (Error × ObjectInstance) → Type 0
  IsStepOf o none = Unit
  IsStepOf o (some r) = r.1 ≡ o

  resources_step-same :
      (fuel : ℕ) (til : TypeIdLength) (o : ObjectInstance)
      → IfDone (IsStepOf o) (resources_step fuel p tlv tlv_size til o put false)
  unfolding resources_step
  resources_step-same fuel til o =
      IfDone-if (IsStepOf o) (type_resource == til.type || type_resource_instance == til.type) _ _
        (IfDone-bind (λ r. r.1 ≡ o) (IsStepOf o) (resource_step p tlv til o put false) _
          (resource_step-same til o) (λ r e. e))
        (IfDone-if (IsStepOf o) (type_multiple_resource == til.type) _ _
          (IfDone-bind (λ r. r.1 ≡ o) (IsStepOf o)
            (multiple_loop (λ i o'. instances_loop fuel p tlv tlv_size til.offset i o' put false)
              til.id (length o.resources) 0 ok o)
            _
            (multiple_loop-same _ til.id (length o.resources) 0 ok o
              (λ i o'. instances_loop-same fuel til.offset i o'))
            (λ r e. e))
          _)

  rest-same :
      (til : TypeIdLength) (more : ObjectInstance → Outcome (Error × ObjectInstance))
      → ((o : ObjectInstance) → IfDone (λ r. r.1 ≡ o) (more o))
      → (o : ObjectInstance) (stepped : Option (Error × ObjectInstance)) → IsStepOf o stepped
      → IfDone {A = Error × ObjectInstance}
          (λ r. r.1 ≡ o)
          (elim stepped [
            | none ↦ done (not_valid, o)
            | some (e, o') ↦
                if ltb (til.offset + til.length) tlv_size then more o' else done (e, o')
          ])
  rest-same til more again o none h = refl
  rest-same til more again o (some (e, o')) h =
      IfDone-if (λ r. r.1 ≡ o) (ltb (til.offset + til.length) tlv_size) _ _
        (IfDone-map (λ r. r.1 ≡ o') (λ r. r.1 ≡ o) _ (again o') (λ r q. q ∙ h)) h

  resources_loop-same :
      (fuel offset : ℕ) (o : ObjectInstance)
      → IfDone (λ r. r.1 ≡ o) (resources_loop fuel p tlv tlv_size offset o put false)
  unfolding resources_loop
  resources_loop-same zero offset o = _
  resources_loop-same (suc fuel) offset o =
      IfDone-bounded (λ r. r.1 ≡ o) (read_til tlv offset) _
        (λ til.
          IfDone-bind (IsStepOf o) (λ r. r.1 ≡ o)
            (resources_step (suc fuel) p tlv tlv_size til o put false) _
            (resources_step-same (suc fuel) til o)
            (rest-same til
              (λ o'. resources_loop fuel p tlv tlv_size (til.offset + til.length) o' put false)
              (λ o'. resources_loop-same fuel (til.offset + til.length) o') o))

-- What the deserialiser answers if the first look finds an error.
pub deserialize_resources-refused :
    (p : Platform) (tlv : List ℕ) (o o' : ObjectInstance) (e : Error) (single multiple : Bool)
    → is_resource tlv ≡ some single
    → is_multiple_resource tlv ≡ some multiple
    → (single || multiple) ≡ true
    → resources_loop (suc (length tlv)) p tlv (length tlv) 0 o put false ≡ done (e, o')
    → is_ok e ≡ false
    → deserialize_resources p tlv (length tlv) o put ≡ done (e, o)
unfolding deserialize_resources
deserialize_resources-refused p tlv o o' e single multiple s m either look bad =
    let kept : o' ≡ o =
      subst (IfDone (λ r. r.1 ≡ o)) look
        (resources_loop-same p tlv (length tlv) (suc (length tlv)) 0 o) in
    rw (s, m, let q : (not single && not multiple) ≡ false = ground (arith, either) in q, look, bad)
      (ap (λ o. done (e, o)) kept)
