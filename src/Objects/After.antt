-- ===== src/Objects/After.antt =====
-- What a change of a value does to the messages: they are only ever added to.
use mbed_client.Common.{
  ◌≡◌, refl, sym, ap, ◌∙◌, List, ◌∷◌, ◌++◌, append_assoc, Option-cases, inl, inr,
}
use mbed_client.Objects.{Node}
use mbed_client.Objects.Closure.{IsClosed}
use mbed_client.Objects.Line.{
  Line, Message, drive, drive_object, drive_object_instance, drive_resource, drive_self, with_self,
  self,
}

-- The messages of a line are some newer ones before those of earlier.
pub record IsAfter {F : Type 0} (ms : List Message) (l : Line F) : Type 0 where
  pub newer : List Message
  pub order : l.messages ≡ newer ++ ms

more-IsAfter :
    (ms sent newer all : List Message) → all ≡ newer ++ ms → sent ++ all ≡ (sent ++ newer) ++ ms
more-IsAfter ms sent newer all e = ap (λ s. sent ++ s) e ∙ sym (append_assoc sent newer ms)

module _ {F : Type 0} where
  pub with_self-messages : (n : Node F) (l : Line F) → (with_self n l).messages ≡ l.messages
  with_self-messages n l = elim (Option-cases l.leaf) [
    | inl absent ↦ rw absent refl
    | inr (m, e) ↦ rw e refl
  ]

  pub IsAfter-IsClosed : (ms : List Message) → IsClosed {F = F} (IsAfter ms)
  unfolding drive_object drive_object_instance drive_resource drive_self
  IsAfter-IsClosed ms = record {
    on_object = λ op l h. record {
      newer = (drive l.observation_handler op l.object).0 ++ h.newer;
      order =
          more-IsAfter ms (drive l.observation_handler op l.object).0 h.newer l.messages h.order;
    };
    on_instance = λ op l h. record {
      newer = (drive l.observation_handler op l.object_instance).0 ++ h.newer;
      order =
          more-IsAfter ms (drive l.observation_handler op l.object_instance).0 h.newer l.messages
            h.order;
    };
    on_resource = λ op l h. record {
      newer = (drive l.observation_handler op l.resource).0 ++ h.newer;
      order =
          more-IsAfter ms (drive l.observation_handler op l.resource).0 h.newer l.messages h.order;
    };
    on_self = λ op l h. record {
      newer = (drive l.observation_handler op (self l)).0 ++ h.newer;
      order =
          with_self-messages (drive l.observation_handler op (self l)).1
            (record l { messages = (drive l.observation_handler op (self l)).0 ++ l.messages })
          ∙ more-IsAfter ms (drive l.observation_handler op (self l)).0 h.newer l.messages h.order;
    };
    on_change = λ n l h. record { newer = h.newer; order = with_self-messages n l ∙ h.order };
    on_message = λ m l is_set h. record { newer = m ∷ h.newer; order = ap (◌∷◌ m) h.order };
  }

  pub self-with_self : (n : Node F) (l : Line F) → self (with_self n l) ≡ n
  self-with_self n l = elim (Option-cases l.leaf) [
    | inl absent ↦ rw absent refl
    | inr (m, e) ↦ rw e refl
  ]
