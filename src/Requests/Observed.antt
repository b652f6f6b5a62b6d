-- ===== src/Requests/Observed.antt =====
-- From a request to the observer: a GET that observes an object, and a PUT that changes a value below
-- it.
use mbed_client.Common.{
  ℕ, ◌%◌, bit_and, bit_or, not, ◌&&◌, ◌≡◌, ◌<◌, arith, Option-cases, inl, inr, refl, sym, ap, ◌∙◌,
  Bool, true, false, List, ◌∷◌, length, Option, none, some,
}
use mathlib.Core.Path.{subst}
use mbed_client.Common.Bits.{mask_4, or_4}
use mbed_client.Report
use mbed_client.Report.{Float, Handler, handler}
use mbed_client.Report.Attributes.{object}
use mbed_client.Objects.{Node, ObjectNode}
use mbed_client.Objects.Base.{is_value_changed, o_attribute}
use mbed_client.Objects.Line.{Line, set_value, self, id_of, is_string}
use mbed_client.Objects.After.{IsAfter}
use mbed_client.Objects.Delivery.{IsWatched, notification, set_value-delivered}
use mbed_client.Requests.{changed, Request, Response, Coap, allows, query_of, with_token}
use mbed_client.Requests.Get.{object_subject}
use mbed_client.Requests.Value.{Written, is_tlv, put_value, put_payload, mark_updated, write_value}

-- The report handler that a GET which starts an observation finds, or makes.
abbrev pub handler_of : (f : Float) → Node f.F → Handler f.F
handler_of f n = elim n.report_handler [ none ↦ handler f | some h ↦ h ]

-- An object after a GET with the observe option 0, and with a token or without.
abbrev pub after_get :
    (f : Float) → (ℕ → Bool) → Coap → Option (List ℕ) → ObjectNode f.F → ObjectNode f.F
after_get f malloc nsdl token o =
    let subject = object_subject f malloc nsdl true in with_token subject token (subject.start o)

set_under_observation-kept :
    (f : Float) (h : Handler f.F)
    → let h' = Report.set_under_observation f true h in
      (h'.attribute_state ≡ h.attribute_state) × (h'.is_under_observation ≡ true)
unfolding Report.set_under_observation Report.stop_timers Report.handle_timers
    Report.handle_pmin_timer Report.handle_pmax_timer
set_under_observation-kept f h = (ground arith, ground arith)

object_level : (level : ℕ) → bit_and o_attribute (bit_or level o_attribute % 16) ≡ o_attribute
object_level level =
    omega (arith, mask_4 (bit_or level 4 % 16), mask_4 (bit_or level 4), or_4 level 4, mask_4 4)

-- The handler of an object after the GET, but for the token.
abbrev started : (f : Float) → Handler f.F → Handler f.F
started f h = Report.add_observation_level f o_attribute (Report.set_under_observation f true h)

started-due :
    (f : Float) (h : Handler f.F)
    → h.attribute_state.pmin ≡ false
    → ((started f h).is_under_observation ≡ true)
      × (bit_and o_attribute (started f h).observation_level ≡ o_attribute)
      × (((started f h).attribute_state.pmin && not (started f h).pmin_exceeded) ≡ false)
unfolding Report.add_observation_level
started-due f h free =
    let (same, observed) = set_under_observation-kept f h in
    (
      observed,
      object_level (Report.set_under_observation f true h).observation_level,
      rw (ap (λ a. a.pmin) same ∙ free) refl,
    )

-- The handler that the GET starts: one that was there is set under observation once more.
abbrev found : (f : Float) → Option (Handler f.F) → Handler f.F
found f none = handler f
found f (some h) = Report.set_under_observation f true h

-- A handler that is there goes through the two calls of `set_under_observation` and that of the
-- level.
driven :
    (f : Float) (r : Option (Handler f.F)) (h : Handler f.F)
    → r ≡ some h
    → elim (elim (elim r as (λ x. Option (Handler f.F)) [
      | none ↦ none
      | some g ↦ some (Report.set_under_observation f true g)
    ])
          as (λ x. Option (Handler f.F)) [
            | none ↦ none
            | some g ↦ some (Report.set_under_observation f true g)
          ])
        as (λ x. Option (Handler f.F)) [
          | none ↦ none
          | some g ↦ some (Report.add_observation_level f o_attribute g)
        ]
      ≡ some (started f (found f (some h)))
driven f r h e = rw e refl

same_handler : (f : Float) (h g : Handler f.F) → some h ≡ some g → h ≡ g
same_handler f h g e = cc

start-report_handler :
    (f : Float) (malloc : ℕ → Bool) (nsdl : Coap) (o : ObjectNode f.F)
    → o.node.base_type ≡ object
    → (after_get f malloc nsdl none o).node.report_handler
      ≡ some (started f (found f o.node.report_handler))
unfolding object_subject with_token mbed_client.Objects.Base.create_report_handler
start-report_handler f malloc nsdl o kind = elim (Option-cases o.node.report_handler) [
  | inl absent ↦ rw (kind, absent) refl
  | inr (h, e) ↦ rw (kind, e) (driven f o.node.report_handler h e)
]

-- What a handler needs for the values below its object to be watched.
abbrev IsReady : (f : Float) → Handler f.F → Type 0
IsReady f h =
    (h.is_under_observation ≡ true)
    × (bit_and o_attribute h.observation_level ≡ o_attribute)
    × ((h.attribute_state.pmin && not h.pmin_exceeded) ≡ false)

found-free :
    (f : Float) (r : Option (Handler f.F))
    → (elim r as (λ x. Handler f.F) [ none ↦ handler f | some h ↦ h ]).attribute_state.pmin ≡ false
    → (found f r).attribute_state.pmin ≡ false
found-free f none free = free
found-free f (some h) free = ap (λ a. a.pmin) (set_under_observation-kept f h).0 ∙ free

after_get-IsReady :
    (f : Float) (malloc : ℕ → Bool) (nsdl : Coap) (token : Option (List ℕ)) (o : ObjectNode f.F)
    (h : Handler f.F)
    → (handler_of f o.node).attribute_state.pmin ≡ false
    → o.node.base_type ≡ object
    → (after_get f malloc nsdl token o).node.report_handler ≡ some h
    → IsReady f h
unfolding with_token object_subject Report.set_observation_token
after_get-IsReady f malloc nsdl none o h free kind known =
    let started_one = start-report_handler f malloc nsdl o kind in
    let ready =
      started-due f (found f o.node.report_handler) (found-free f o.node.report_handler free) in
    subst (IsReady f)
      (same_handler f (started f (found f o.node.report_handler)) h (sym started_one ∙ known)) ready
after_get-IsReady f malloc nsdl (some token) o h free kind known =
    let started_one = start-report_handler f malloc nsdl o kind in
    let ready =
      started-due f (found f o.node.report_handler) (found-free f o.node.report_handler free) in
    let told =
      ap
        (λ r. elim r as (λ x. Option (Handler f.F)) [
          | none ↦ none
          | some g ↦ some (Report.set_observation_token f malloc token (length token) g)
        ])
        started_one in
    let with_one =
      Report.set_observation_token f malloc token (length token)
        (started f (found f o.node.report_handler)) in
    subst (IsReady f) (same_handler f with_one h (sym told ∙ known)) ready

-- After that GET every value below the object is watched, if the object's attributes set no minimum
-- period: its changes are told to the object's handler.
start-IsWatched :
    (f : Float) (malloc : ℕ → Bool) (nsdl : Coap) (token : Option (List ℕ)) (o : ObjectNode f.F)
    (l : Line f.F) (h : Handler f.F)
    → (handler_of f o.node).attribute_state.pmin ≡ false
    → o.node.base_type ≡ object
    → l.object ≡ (after_get f malloc nsdl token o).node
    → l.observation_handler ≡ (after_get f malloc nsdl token o).observation_handler
    → l.object.report_handler ≡ some h
    → IsWatched f l h
unfolding object_subject with_token
start-IsWatched f malloc nsdl token o l h free kind at same known =
    let ready =
      after_get-IsReady f malloc nsdl token o h free kind
        (sym (ap (λ n. n.report_handler) at) ∙ known) in
    record {
      handled = known;
      observed = ready.0;
      level = ready.1;
      due = ready.2;
      heard = same ∙ heard token;
    }
  where
    heard : (t : Option (List ℕ)) → (after_get f malloc nsdl t o).observation_handler ≡ true
    heard none = refl
    heard (some bytes) = refl

mark_updated-line :
    (f : Float) (malloc : ℕ → Bool) (nsdl : Coap) (has_handler : Bool) (payload : Option (List ℕ))
    (s : Written f.F)
    → (mark_updated f malloc nsdl has_handler payload s).line ≡ s.line
unfolding mark_updated
mark_updated-line f malloc nsdl has_handler none s = refl
mark_updated-line f malloc nsdl has_handler (some bytes) s = refl

-- A PUT that a value which takes no blocks allows, with neither query nor TLV: the answer to what
-- `set_value` makes of the payload.
put_value-written :
    (f : Float) (malloc : ℕ → Bool) (nsdl : Coap) (limit : ℕ) (has_callback has_handler : Bool)
    (request : Request) (response : Response) (s : Written f.F)
    → nsdl.build_response (some request) changed ≡ some response
    → query_of request ≡ none
    → allows 2 (self s.line) ≡ true
    → is_tlv request.content_format ≡ false
    → s.block_message ≡ none
    → put_value f malloc nsdl limit has_callback has_handler (some request) s
      ≡ some (
        some (record response { msg_code = changed }),
        mark_updated f malloc nsdl has_handler request.payload
            (write_value f malloc nsdl request.payload s),
      )
unfolding put_value put_payload
put_value-written f malloc nsdl limit has_callback has_handler request response s built query access
      plain whole =
    rw (put_value, built, query, access, plain)
      (ap
        (λ b.
          let (response', s') = put_payload f malloc nsdl limit has_callback request response b s in
          some (
            some (record response' { msg_code = changed }),
            mark_updated f malloc nsdl has_handler request.payload s',
          ))
        whole)

-- A PUT of a new value to a resource, or to an instance of one, below an object that a GET with the
-- observe option 0 has put under observation, with a token or without. The value is no string, takes
-- no blocks and allows PUT, the request has no query and is not TLV, the object's attributes set no
-- minimum period, there is a response, no allocation fails, and 0 is not 1 in `float`. The PUT is
-- answered with 2.04, and the observer of the object is sent the number of the object instance, with
-- the next number of the object's handler `h`.
pub put_value-delivered :
    (f : Float) (malloc : ℕ → Bool) (nsdl : Coap) (limit : ℕ) (has_callback has_handler : Bool)
    (request : Request) (response : Response) (value : List ℕ) (token : Option (List ℕ))
    (o : ObjectNode f.F) (s : Written f.F) (h : Handler f.F)
    → f.eqb f.null f.one ≡ false
    → ((n : ℕ) → malloc n ≡ true)
    → (handler_of f o.node).attribute_state.pmin ≡ false
    → o.node.base_type ≡ object
    → s.line.object ≡ (after_get f malloc nsdl token o).node
    → s.line.observation_handler ≡ (after_get f malloc nsdl token o).observation_handler
    → s.line.object.report_handler ≡ some h
    → nsdl.build_response (some request) changed ≡ some response
    → query_of request ≡ none
    → request.payload ≡ some value
    → allows 2 (self s.line) ≡ true
    → is_tlv request.content_format ≡ false
    → s.block_message ≡ none
    → is_string (self s.line).data_type ≡ false
    → 0 < length value
    → is_value_changed (some value) (self s.line) ≡ true
    → (s' : Written f.F) × (put_value f malloc nsdl limit has_callback has_handler (some request) s
        ≡ some (some (record response { msg_code = changed }), s'))
      × IsAfter
          (notification f s.line.object.base_type (id_of s.line.object_instance) h
            ∷ s.line.messages)
          s'.line
unfolding write_value
put_value-delivered f malloc nsdl limit has_callback has_handler request response value token o s h
      differ ample free kind at same known built query payload access plain whole number long new =
    let watched = start-IsWatched f malloc nsdl token o s.line h free kind at same known in
    let told =
      notification f s.line.object.base_type (id_of s.line.object_instance) h ∷ s.line.messages in
    let written = write_value f malloc nsdl request.payload s in
    let delivered =
      set_value-delivered f malloc value s.line h differ ample watched number long new in
    (
      mark_updated f malloc nsdl has_handler request.payload written,
      put_value-written f malloc nsdl limit has_callback has_handler request response s built query
          access plain whole,
      subst (IsAfter told)
          (sym (mark_updated-line f malloc nsdl has_handler request.payload written))
          (subst (λ v. IsAfter told (set_value f malloc v s.line).1) (sym payload) delivered),
    )
