-- ===== src/Tlv/Termination/Resources.antt =====
-- The loops over resources and over object instances end.
use mbed_client.Common.{
  ℕ, zero, suc, ◌+◌, ◌≢◌, Bool, true, false, List, [], ◌∷◌, length, Option, none, some, ltb, not,
  ◌==◌, ◌||◌, ◌&&◌, arith,
}
use mbed_client.Tlv.{
  Platform, ObjectInstance, type_resource, type_multiple_resource, type_resource_instance,
  type_object_instance,
}
use mbed_client.Tlv.Header.{
  TypeIdLength, read_til, is_object_instance, is_resource, is_multiple_resource,
}
use mbed_client.Tlv.Deserializer.{Error, Operation, Outcome, out_of_fuel, bounded, ok, is_ok}
use mbed_client.Tlv.Deserializer.Instances.{multiple_loop}
use mbed_client.Tlv.Deserializer.Resources.{
  resource_step, resources_step, resources_loop, deserialize_resources, matching_instances,
  object_instances_loop, deserialise_object_instances,
}
use mbed_client.Tlv.Termination.{
  read_til_bounds, Ends, Ends-bind, Ends-bounded, bounded-done, Ends-if, IsEnough,
  IsEnough-read_til,
}
use mbed_client.Tlv.Termination.Instances.{
  instances_loop-Ends, multiple_loop-Ends, resource_step-Ends,
}

resources_step-Ends :
    (fuel : ℕ) (p : Platform) (tlv : List ℕ) (n : ℕ) (til : TypeIdLength) (o : ObjectInstance)
    (op : Operation) (u : Bool)
    → IsEnough fuel tlv til.offset
    → Ends (resources_step fuel p tlv n til o op u)
unfolding resources_step
resources_step-Ends fuel p tlv n til o op u h =
    Ends-if (type_resource == til.type || type_resource_instance == til.type) _ _
      (Ends-bind (resource_step p tlv til o op u) _ (resource_step-Ends p tlv til o op u)
        (λ x e g. cc))
      (Ends-if (type_multiple_resource == til.type) _ _
        (Ends-bind (multiple_loop _ til.id (length o.resources) 0 ok o) _
          (multiple_loop-Ends _ til.id
            (λ i o'. instances_loop-Ends fuel p tlv n til.offset i o' op u h) (length o.resources) 0
            ok o)
          (λ x e g. cc))
        (λ g. cc))

Ends-elim :
    {A B : Type 0} (x : Option B) (y : Outcome A) (f : B → Outcome A)
    → Ends y
    → ((b : B) → Ends (f b))
    → Ends (elim x [ none ↦ y | some b ↦ f b ])
Ends-elim none y f hy hf = hy
Ends-elim (some b) y f hy hf = hf b

resources_loop-Ends :
    (fuel : ℕ) (p : Platform) (tlv : List ℕ) (n o : ℕ) (oi : ObjectInstance) (op : Operation)
    (u : Bool)
    → IsEnough fuel tlv o
    → Ends (resources_loop fuel p tlv n o oi op u)
unfolding resources_loop
resources_loop-Ends zero p tlv n o oi op u h = absurd (omega arith)
resources_loop-Ends (suc fuel) p tlv n o oi op u h =
    Ends-bind (bounded (read_til tlv o)) _ (Ends-bounded (read_til tlv o)) λ til e.
      Ends-bind (resources_step (suc fuel) p tlv n til oi op u) _
        (resources_step-Ends (suc fuel) p tlv n til oi op u
          (omega (arith, read_til_bounds tlv o (bounded-done (read_til tlv o) e))))
        (λ x _.
          Ends-elim x _ _ (λ g. cc)
            (λ (err, oi').
              Ends-if (ltb (til.offset + til.length) n) _ _
                (resources_loop-Ends fuel p tlv n (til.offset + til.length) oi' op u
                  (IsEnough-read_til fuel tlv o til h e))
                (λ g. cc)))

-- The deserialiser of resources reaches a result, or reads behind the array, whatever the array,
-- its stated size, the object instance and the operation are: the fuel never runs out.
pub deserialize_resources-ne-out_of_fuel :
    (p : Platform) (tlv : List ℕ) (n : ℕ) (o : ObjectInstance) (op : Operation)
    → deserialize_resources p tlv n o op ≢ out_of_fuel
unfolding deserialize_resources
deserialize_resources-ne-out_of_fuel p tlv n o op =
    Ends-bind (bounded (is_resource tlv)) _ (Ends-bounded (is_resource tlv)) λ a _.
      Ends-bind (bounded (is_multiple_resource tlv)) _ (Ends-bounded (is_multiple_resource tlv))
        λ b _.
          Ends-if (not a && not b) _ _ (λ g. cc)
            (Ends-bind (resources_loop (suc (length tlv)) p tlv n 0 o op false) _
              (resources_loop-Ends (suc (length tlv)) p tlv n 0 o op false (omega arith))
              (λ (e, o') _.
                Ends-if (is_ok e) _ _
                  (resources_loop-Ends (suc (length tlv)) p tlv n 0 o' op true (omega arith))
                  (λ g. cc)))

matching_instances-Ends :
    (call : ObjectInstance → Outcome (Error × ObjectInstance)) (id : ℕ)
    → ((o : ObjectInstance) → Ends (call o))
    → (e : Error) (os : List ObjectInstance) → Ends (matching_instances call id e os)
unfolding matching_instances
matching_instances-Ends call id c e [] = λ g. cc
matching_instances-Ends call id c e (o ∷ os) =
    Ends-if (o.instance_id == id) _ _
      (Ends-bind (call o) _ (c o) (λ (e', o') _.
        Ends-bind (matching_instances call id e' os) _ (matching_instances-Ends call id c e' os)
          (λ x _ g. cc)))
      (Ends-bind (matching_instances call id e os) _ (matching_instances-Ends call id c e os)
        (λ x _ g. cc))

object_instances_loop-Ends :
    (fuel : ℕ) (p : Platform) (tlv : List ℕ) (n o : ℕ) (os : List ObjectInstance) (op : Operation)
    (u : Bool)
    → IsEnough fuel tlv o
    → Ends (object_instances_loop fuel p tlv n o os op u)
unfolding object_instances_loop
object_instances_loop-Ends zero p tlv n o os op u h = absurd (omega arith)
object_instances_loop-Ends (suc fuel) p tlv n o os op u h =
    Ends-bind (bounded (read_til tlv o)) _ (Ends-bounded (read_til tlv o)) λ til e.
      Ends-if (not (type_object_instance == til.type)) _ _ (λ g. cc)
        (Ends-bind (matching_instances _ til.id ok os) _
          (matching_instances-Ends _ til.id
            (λ oi.
              resources_loop-Ends (suc fuel) p tlv n til.offset oi op u
                (omega (arith, read_til_bounds tlv o (bounded-done (read_til tlv o) e))))
            ok os)
          (λ (err, os') _.
            Ends-if (ltb (til.offset + til.length) n) _ _
              (object_instances_loop-Ends fuel p tlv n (til.offset + til.length) os' op u
                (IsEnough-read_til fuel tlv o til h e))
              (λ g. cc)))

-- The deserialiser of object instances reaches a result, or reads behind the array, whatever its
-- arguments are: the fuel never runs out.
pub deserialise_object_instances-ne-out_of_fuel :
    (p : Platform) (tlv : List ℕ) (n : ℕ) (os : List ObjectInstance) (op : Operation)
    → deserialise_object_instances p tlv n os op ≢ out_of_fuel
unfolding deserialise_object_instances
deserialise_object_instances-ne-out_of_fuel p tlv n os op =
    Ends-bind (bounded (is_object_instance tlv)) _ (Ends-bounded (is_object_instance tlv)) λ a _.
      Ends-if (not a) _ _ (λ g. cc)
        (Ends-bind (object_instances_loop (suc (length tlv)) p tlv n 0 os op false) _
          (object_instances_loop-Ends (suc (length tlv)) p tlv n 0 os op false (omega arith))
          (λ (e, os') _.
            Ends-if (is_ok e) _ _
              (object_instances_loop-Ends (suc (length tlv)) p tlv n 0 os' op true (omega arith))
              (λ g. cc)))
