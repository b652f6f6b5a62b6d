-- ===== src/Block.antt =====
-- source/m2mblockmessage.cpp: one block of an incoming message. `malloc` and the limit
-- `SN_COAP_MAX_INCOMING_MESSAGE_SIZE` of nsdl-c are parameters. `none` stands for NULL.
pub mod Sequence
pub mod Tests
use mbed_client.Common.{
  ℕ, zero, suc, ◌-◌, ◌&&◌, take, ◌/◌, ◌%◌, Bool, true, false, not, List, [], length, bit_and, ltb,
  ◌==◌, Option, none, some, if◌then◌else◌,
}
use mbed_client.Common.Int.{ℤ, pos, negsuc}

-- `M2MBlockMessage::Error`
pub data Error : Type 0 where
  error_none entity_too_large : Error

-- The options of a CoAP message: `block1` is -1 when it has none, `size1` is there if it is used.
pub record Options : Type 0 where
  pub size1 : Option ℕ
  pub block1 : ℤ

-- The header of a CoAP message, as far as it is read; the payload's length is its own.
pub record Header : Type 0 where
  pub options : Option Options
  pub payload : List ℕ

pub record BlockMessage : Type 0 where
  pub block_data : Option (List ℕ)
  pub block_data_len : ℕ
  pub block_number : ℕ
  pub total_message_size : ℕ
  pub error_code : Error
  pub is_last_block : Bool
  pub is_block_message : Bool

unfoldable pub block_message : BlockMessage
block_message = record {
  block_data = none;
  block_data_len = 0;
  block_number = 0;
  total_message_size = 0;
  error_code = error_none;
  is_last_block = false;
  is_block_message = false;
}

unfoldable pub clear_values : BlockMessage → BlockMessage
clear_values m = record m {
  block_data = none;
  block_data_len = 0;
  block_number = 0;
  total_message_size = 0;
  error_code = error_none;
  is_last_block = false;
}

abbrev pub has_block1 : ℤ → Bool
has_block1 (pos n) = true
has_block1 (negsuc zero) = false
has_block1 (negsuc (suc n)) = true

-- `block1 & 0x08`, which is set when more blocks follow. In two's complement, the bits of
-- -(n + 1) are those of n turned over.
abbrev pub has_more : ℤ → Bool
has_more (pos n) = not (bit_and n 8 == 0)
has_more (negsuc n) = bit_and n 8 == 0

-- `(uint16_t)(block1 >> 4)`, an arithmetic shift.
abbrev pub number_of : ℤ → ℕ
number_of (pos n) = n / 16 % 65536
number_of (negsuc n) = 65535 - n / 16 % 65536

-- The payload of a block that is taken.
unfoldable pub take_payload : (ℕ → Bool) → List ℕ → BlockMessage → BlockMessage
take_payload malloc payload m =
    let size = length payload % 65536 in
    record m {
      block_data_len = size;
      block_data = if ltb 0 size && malloc size then some (take size payload) else none;
    }

unfoldable pub set_message_info : (ℕ → Bool) → ℕ → Option Header → BlockMessage → BlockMessage
unfolding take_payload
set_message_info malloc max_size none m = record m { is_block_message = false }
set_message_info malloc max_size (some header) m = elim header.options [
  | none ↦ record m { is_block_message = false }
  | some o ↦
      let total : ℕ = elim o.size1 [ none ↦ m.total_message_size | some size ↦ size ] in
      let m1 = record m { is_block_message = has_block1 o.block1; total_message_size = total } in
      if ltb max_size total
      then record m1 { error_code = entity_too_large }
      else take_payload malloc header.payload (record m1 {
        error_code = error_none;
        is_last_block = if has_block1 o.block1 then not (has_more o.block1) else m1.is_last_block;
        block_number = number_of o.block1;
      })
]
