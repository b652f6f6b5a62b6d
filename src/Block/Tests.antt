-- ===== src/Block/Tests.antt =====
-- Blocks at concrete inputs.
use mbed_client.Common.{ℕ, ◌≡◌, refl, Bool, true, false, [], ◌∷◌, none, some, arith}
use mbed_client.Block.{BlockMessage, block_message, set_message_info, error_none, entity_too_large}
use mbed_client.Block.Sequence.{Part, header_of, set_message_info_lem}

abbrev malloc : ℕ → Bool
malloc n = true

abbrev first_part : Part
first_part = record { number = 0; more = true; exponent = 6; payload = 1 ∷ 2 ∷ [] }

abbrev last_part : Part
last_part = record { number = 1; more = false; exponent = 6; payload = 3 ∷ [] }

set_message_info_lem_example :
    set_message_info malloc 65535 (some (header_of none last_part)) block_message ≡ record {
      block_data = some (3 ∷ []);
      block_data_len = 1;
      block_number = 1;
      total_message_size = 0;
      error_code = error_none;
      is_last_block = true;
      is_block_message = true;
    }
unfolding block_message
set_message_info_lem_example =
    set_message_info_lem malloc 65535 none last_part block_message (λ n. refl)
      (omega arith, omega arith, omega arith) (omega arith)

-- A size of 70000 was stated with the first block.
abbrev refused_message : BlockMessage
refused_message = record block_message {
  total_message_size = 70000;
  error_code = entity_too_large;
  is_block_message = true;
}

refused_message_lem :
    set_message_info malloc 65535 (some (header_of (some 70000) first_part)) block_message
    ≡ refused_message
unfolding set_message_info block_message
refused_message_lem = refl

-- Without memory the payload is lost while its length is kept.
abbrev no_memory : ℕ → Bool
no_memory n = false

set_message_info-no_memory :
    set_message_info no_memory 65535 (some (header_of none last_part)) block_message ≡ record {
      block_data = none;
      block_data_len = 1;
      block_number = 1;
      total_message_size = 0;
      error_code = error_none;
      is_last_block = true;
      is_block_message = true;
    }
unfolding set_message_info block_message
set_message_info-no_memory = refl
