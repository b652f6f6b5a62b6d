-- ===== src/Tlv/Termination/Instances.antt =====
-- The loops over the instances of a resource end; so do the steps of the loop over resources.
use mbed_client.Common.{
  ℕ, zero, suc, ◌+◌, inl, inr, Bool, List, get_elem?, Option-cases, ltb, not, ◌==◌, ◌||◌, ◌&&◌,
  arith,
}
use mbed_client.Tlv.{
  Platform, Resource, ObjectInstance, type_multiple_resource, type_resource_instance,
}
use mbed_client.Tlv.Header.{TypeIdLength, read_til}
use mbed_client.Tlv.Deserializer.{
  Error, Operation, Outcome, bounded, visit_instances, visit_resources, has_id,
}
use mbed_client.Tlv.Deserializer.Instances.{
  resource_instances_loop, instances_loop, instance_step, multiple_loop,
}
use mbed_client.Tlv.Deserializer.Resources.{resource_step}
use mbed_client.Tlv.Termination.{
  Ends, Ends-bind, Ends-bounded, Ends-if, visit_instances-Ends, visit_resources-Ends, IsEnough,
  IsEnough-read_til,
}

pub resource_instances_loop-Ends :
    (fuel : ℕ) (p : Platform) (tlv : List ℕ) (n o : ℕ) (r : Resource) (op : Operation) (u : Bool)
    → IsEnough fuel tlv o
    → Ends (resource_instances_loop fuel p tlv n o r op u)
unfolding resource_instances_loop
resource_instances_loop-Ends zero p tlv n o r op u h = absurd (omega arith)
resource_instances_loop-Ends (suc fuel) p tlv n o r op u h =
    Ends-bind (bounded (read_til tlv o)) _ (Ends-bounded (read_til tlv o)) λ til e.
      Ends-if (not (type_resource_instance == til.type)) _ _ (λ g. cc)
        (Ends-bind (visit_instances p tlv til u r.resource_instances) _
          (visit_instances-Ends p tlv til u r.resource_instances)
          (λ (found, err, rs) _.
            Ends-if (ltb (til.offset + til.length) n) _ _
              (resource_instances_loop-Ends fuel p tlv n (til.offset + til.length)
                (record r { resource_instances = rs }) op u (IsEnough-read_til fuel tlv o til h e))
              (λ g. cc)))

pub instance_step-Ends :
    (p : Platform) (tlv : List ℕ) (til : TypeIdLength) (i : ℕ) (r : Resource) (o : ObjectInstance)
    (op : Operation) (u : Bool)
    → Ends (instance_step p tlv til i r o op u)
unfolding instance_step
instance_step-Ends p tlv til i r o op u =
    Ends-bind (visit_instances p tlv til u r.resource_instances) _
      (visit_instances-Ends p tlv til u r.resource_instances) (λ x e g. cc)

pub instances_loop-Ends :
    (fuel : ℕ) (p : Platform) (tlv : List ℕ) (n o i : ℕ) (oi : ObjectInstance) (op : Operation)
    (u : Bool)
    → IsEnough fuel tlv o
    → Ends (instances_loop fuel p tlv n o i oi op u)
unfolding instances_loop
instances_loop-Ends zero p tlv n o i oi op u h = absurd (omega arith)
instances_loop-Ends (suc fuel) p tlv n o i oi op u h =
    Ends-bind (bounded (read_til tlv o)) _ (Ends-bounded (read_til tlv o)) λ til e.
      Ends-if (not (type_multiple_resource == til.type || type_resource_instance == til.type)) _ _
        (λ g. cc)
        (elim (Option-cases (get_elem? oi.resources i)) [
          | inl missing ↦ rw missing (λ g. cc)
          | inr (r, there) ↦ rw there (
              Ends-bind (instance_step p tlv til i r oi op u) _
                (instance_step-Ends p tlv til i r oi op u)
                (λ (err, oi') _.
                  Ends-if (ltb (til.offset + til.length) n) _ _
                    (instances_loop-Ends fuel p tlv n (til.offset + til.length) i oi' op u
                      (IsEnough-read_til fuel tlv o til h e))
                    (λ g. cc)))
        ])

pub multiple_loop-Ends :
    (call : ℕ → ObjectInstance → Outcome (Error × ObjectInstance)) (id : ℕ)
    → ((i : ℕ) (o : ObjectInstance) → Ends (call i o))
    → (count i : ℕ) (e : Error) (o : ObjectInstance) → Ends (multiple_loop call id count i e o)
unfolding multiple_loop
multiple_loop-Ends call id c zero i e o = λ g. cc
multiple_loop-Ends call id c (suc count) i e o = elim (Option-cases (get_elem? o.resources i)) [
  | inl missing ↦ rw (missing, multiple_loop) (λ g. cc)
  | inr (r, there) ↦
      rw (there, multiple_loop)
        (Ends-if (r.supports_multiple_instances && has_id r.name_id id) _ _
          (Ends-bind (call i o) _ (c i o)
            (λ (e', o') _. multiple_loop-Ends call id c count (i + 1) e' o'))
          (multiple_loop-Ends call id c count (i + 1) e o))
]

pub resource_step-Ends :
    (p : Platform) (tlv : List ℕ) (til : TypeIdLength) (o : ObjectInstance) (op : Operation)
    (u : Bool)
    → Ends (resource_step p tlv til o op u)
unfolding resource_step
resource_step-Ends p tlv til o op u =
    Ends-bind (visit_resources p tlv til u o.resources) _
      (visit_resources-Ends p tlv til u o.resources) (λ x e g. cc)
