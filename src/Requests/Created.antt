-- ===== src/Requests/Created.antt =====
-- The object instance that a POST to an object makes.
use mbed_client.Common.{
  ℕ, zero, suc, ◌+◌, ◌≡◌, ◌≤◌, ◌<◌, refl, ap, ◌∙◌, Bool, true, false, List, [], ◌∷◌, ◌++◌, length,
  ◌==◌, Option, none, some, if◌then◌else◌, arith, Bool-cases, inl, inr,
}
use mathlib.Core.Path.{subst}
use mbed_client.Buffer.Room.{create_object_instance_path_lem}
use mbed_client.Tlv.{Platform, ObjectInstance}
use mbed_client.Tlv.Header.{is_object_instance, is_resource, is_multiple_resource}
use mbed_client.Objects.Make.{content_tlv}
use mbed_client.Requests.{
  changed, bad_request, unsupported_content_format, Response, Request, Coap, with_code, allows,
}
use mbed_client.Requests.Put.{Served, put_content_type}
use mbed_client.Requests.Post.{
  has_object_instance, free_id, add_object_instance, post_instances, object_post,
  post_object_payload, finish_post,
}

-- The answer of the loop over `left` numbers from `id` on: the least that no instance has, or none if
-- each is taken.
abbrev pub IsNext : ℕ → ℕ → List ObjectInstance → Option ℕ → Type 0
IsNext left id os none = (n : ℕ) → id ≤ n → n < id + left → has_object_instance n os ≡ true
IsNext left id os (some m) =
    (has_object_instance m os ≡ false)
    × (id ≤ m)
    × (m < id + left)
    × ((n : ℕ) → id ≤ n → n < m → has_object_instance n os ≡ true)

from_next :
    (id n : ℕ) (os : List ObjectInstance)
    → has_object_instance id os ≡ true
    → id ≤ n
    → (suc id ≤ n → has_object_instance n os ≡ true)
    → has_object_instance n os ≡ true
from_next id n os taken from later = elim (Bool-cases (n == id)) [
  | inl same ↦ subst (λ k. has_object_instance k os ≡ true) (ground (arith, same)) taken
  | inr other ↦ later (ground (arith, other))
]

widen-IsNext :
    (left id : ℕ) (os : List ObjectInstance) (o : Option ℕ)
    → has_object_instance id os ≡ true
    → IsNext left (suc id) os o
    → IsNext (suc left) id os o
widen-IsNext left id os none taken h =
    λ n from to. from_next id n os taken from (λ later. h n later (omega arith))
widen-IsNext left id os (some m) taken h = (
  h.0,
  omega (arith, h.1),
  omega (arith, h.2),
  λ n from to. from_next id n os taken from (λ later. h.3 n later to),
)

-- The number of a new object instance is the least that is free; where there is none, all of them
-- are taken.
pub free_id-IsNext :
    (left id : ℕ) (os : List ObjectInstance) → IsNext left id os (free_id left id os)
unfolding free_id
free_id-IsNext zero id os = λ n from to. absurd (omega arith)
free_id-IsNext (suc left) id os = elim (Bool-cases (has_object_instance id os)) [
  | inl taken ↦
      rw taken
        (widen-IsNext left id os (free_id left (suc id) os) taken (free_id-IsNext left (suc id) os))
  | inr free ↦ rw free (free, omega arith, omega arith, λ n from to. absurd (omega arith))
]

add_object_instance-made :
    (malloc : ℕ → Bool) (name : List ℕ) (id : ℕ) (os : List ObjectInstance)
    → ((n : ℕ) → malloc n ≡ true)
    → length name ≤ 64
    → id < 65536
    → has_object_instance id os ≡ false
    → add_object_instance malloc name id os
      ≡ (true, os ++ (record { instance_id = id; resources = [] } ∷ []))
unfolding add_object_instance
add_object_instance-made malloc name id os ample short small free =
    rw (free, create_object_instance_path_lem malloc name id ample short small) refl

payload-leftover :
    {F : Type 0} (malloc : ℕ → Bool) (nsdl : Coap) (name : List ℕ) (p : Platform)
    (has_handler : Bool) (tlv : List ℕ) (response : Option Response)
    (s : Served F (List ObjectInstance)) (id : ℕ)
    → ((n : ℕ) → malloc n ≡ true)
    → length name ≤ 64
    → free_id 65536 0 s.values ≡ some id
    → is_object_instance tlv ≡ some false
    → is_resource tlv ≡ some false
    → is_multiple_resource tlv ≡ some false
    → post_object_payload malloc nsdl name p has_handler tlv response s
      ≡ some (
        with_code bad_request response,
        record s { values = s.values ++ (record { instance_id = id; resources = [] } ∷ []) },
      )
unfolding post_object_payload
payload-leftover malloc nsdl name p has_handler tlv response s id ample short next no_instance
      no_resource no_multiple =
    let found : IsNext 65536 0 s.values (some id) =
      subst (IsNext 65536 0 s.values) next (free_id-IsNext 65536 0 s.values) in
    let made =
      add_object_instance-made malloc name id s.values ample short (omega (arith, found.2))
        (found.0) in
    rw
      (
        post_object_payload, next, no_instance, made, post_instances, no_resource, no_multiple,
        finish_post,
      )
      refl

-- A POST, to an object that allows it, of a payload in the TLV format that is neither an object
-- instance nor a resource is refused with 4.00, and leaves a new, empty object instance behind, of the
-- least number that was free; if there is one, no allocation fails and the object's name has 64
-- characters at most.
pub object_post-leftover :
    {F : Type 0} (malloc : ℕ → Bool) (nsdl : Coap) (name : List ℕ) (p : Platform)
    (has_handler : Bool) (request : Request) (tlv : List ℕ) (s : Served F (List ObjectInstance))
    (id : ℕ)
    → ((n : ℕ) → malloc n ≡ true)
    → length name ≤ 64
    → allows 4 s.node ≡ true
    → request.payload ≡ some tlv
    → (put_content_type request (nsdl.build_response (some request) changed) s.node == content_tlv)
      ≡ true
    → free_id 65536 0 s.values ≡ some id
    → is_object_instance tlv ≡ some false
    → is_resource tlv ≡ some false
    → is_multiple_resource tlv ≡ some false
    → object_post malloc nsdl name p has_handler (some request) s
      ≡ some (
        with_code bad_request (nsdl.build_response (some request) changed),
        record s { values = s.values ++ (record { instance_id = id; resources = [] } ∷ []) },
      )
unfolding object_post
object_post-leftover malloc nsdl name p has_handler request tlv s id ample short access payload type
      next no_instance no_resource no_multiple =
    let response = nsdl.build_response (some request) changed in
    rw access (
      ap
        (λ (o : Option (List ℕ)). elim o [
          | none ↦ some (with_code bad_request response, s)
          | some tlv ↦
              if put_content_type request response s.node == content_tlv
              then post_object_payload malloc nsdl name p has_handler tlv response s
              else some (with_code unsupported_content_format response, s)
        ])
        payload
      ∙ rw type (
          payload-leftover malloc nsdl name p has_handler tlv response s id ample short next
            no_instance no_resource no_multiple))
