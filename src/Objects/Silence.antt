-- ===== src/Objects/Silence.antt =====
-- An object without observation handler sends nothing.
use mbed_client.Common.{◌≡◌, false, List}
use mbed_client.Report.{Float}
use mbed_client.Tlv.{ResourceType}
use mbed_client.Objects.Line.{Line, Message, self, with_self}

-- No observation handler is set, and no message was added to some earlier ones.
pub record IsSilent {F : Type 0} (ms : List Message) (l : Line F) : Type 0 where
  pub unset : l.observation_handler ≡ false
  pub unsent : l.messages ≡ ms

module _ (f : Float) where
  open f use {F}

  -- The value at the end of a line with another type.
  abbrev pub of_type : ResourceType → Line F → Line F
  of_type type l = with_self (record (self l) { data_type = type }) l
