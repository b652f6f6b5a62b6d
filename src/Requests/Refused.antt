-- ===== src/Requests/Refused.antt =====
-- A PUT to an object instance whose payload does not pass the first look changes nothing.
use mbed_client.Common.{ℕ, suc, ◌≡◌, refl, Bool, true, false, ◌||◌, List, length, ◌==◌, none, some}
use mbed_client.Report.{Float}
use mbed_client.Objects.Make.{content_tlv}
use mbed_client.Requests.{changed, Request, Coap, with_code, allows, query_of}
use mbed_client.Requests.Put.{Served, code_of, put_content_type, instance_put, instance_put_payload}
use mbed_client.Tlv.FirstLook.{deserialize_resources-refused}
use mbed_client.Tlv.{Platform, ObjectInstance}
use mbed_client.Tlv.Header.{is_resource, is_multiple_resource}
use mbed_client.Tlv.Deserializer.{Error, put, done, is_ok}
use mbed_client.Tlv.Deserializer.Resources.{resources_loop}

-- A PUT of values to an object instance that allows it, whose payload starts with a resource: if the
-- first look at the payload ends in an error, the response has the code of that error, and the
-- object instance, its values and what the application is told are as they were.
pub instance_put-refused :
    (f : Float) (malloc : ℕ → Bool) (nsdl : Coap) (p : Platform) (has_handler : Bool)
    (request : Request) (tlv : List ℕ) (s : Served f.F ObjectInstance) (o' : ObjectInstance)
    (e : Error) (single multiple : Bool)
    → query_of request ≡ none
    → allows 2 s.node ≡ true
    → (put_content_type request (nsdl.build_response (some request) changed) s.node == content_tlv)
      ≡ true
    → request.payload ≡ some tlv
    → is_resource tlv ≡ some single
    → is_multiple_resource tlv ≡ some multiple
    → (single || multiple) ≡ true
    → resources_loop (suc (length tlv)) p tlv (length tlv) 0 s.values put false ≡ done (e, o')
    → is_ok e ≡ false
    → instance_put f malloc nsdl p has_handler (some request) s
      ≡ some (with_code (code_of e) (nsdl.build_response (some request) changed), s)
unfolding instance_put
instance_put-refused f malloc nsdl p has_handler request tlv s o' e single multiple query access
      type payload one many either look bad =
    rw
      (
        instance_put,
        query,
        access,
        type,
        instance_put_payload,
        payload,
        deserialize_resources-refused p tlv s.values o' e single multiple one many either look bad,
        bad,
      )
      refl
