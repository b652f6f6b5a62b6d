-- ===== src/Block/Sequence.antt =====
-- What `set_message_info` of source/m2mblockmessage.cpp reads of a block.
use mbed_client.Common.{
  ℕ, ◌+◌, ◌*◌, ◌%◌, ◌≤◌, ◌<◌, ◌≡◌, refl, Bool, true, false, not, List, [], ◌∷◌, length, take, ltb,
  Option, none, some, if◌then◌else◌, arith,
}
use mbed_client.Common.Int.{pos}
use mbed_client.Common.Bits.{mask_8}
use mbed_client.Block.{
  error_none, Header, BlockMessage, set_message_info, take_payload, has_more, number_of,
}

-- A block by its number, whether more follow, its size exponent and its payload.
pub record Part : Type 0 where
  pub number : ℕ
  pub more : Bool
  pub exponent : ℕ
  pub payload : List ℕ

abbrev pub code : Part → ℕ
code p = p.number * 16 + (if p.more then 8 else 0) + p.exponent

abbrev pub header_of : Option ℕ → Part → Header
header_of size1 p = record {
  options = some (record { size1 = size1; block1 = pos (code p) });
  payload = p.payload;
}

abbrev pub IsPart : Part → Type 0
IsPart p = (p.number < 65536) × (p.exponent < 8) × (length p.payload < 65536)

number_lem : (p : Part) → IsPart p → number_of (pos (code p)) ≡ p.number
number_lem p part = ground arith

more_lem : (p : Part) → IsPart p → has_more (pos (code p)) ≡ p.more
more_lem p part = ground (arith, mask_8 (code p))

take_whole : (xs : List ℕ) → take (length xs) xs ≡ xs
take_whole [] = refl
take_whole (x ∷ xs) = ground (arith, take_whole xs)

take_payload_lem :
    (malloc : ℕ → Bool) (payload : List ℕ) (m : BlockMessage)
    → ((n : ℕ) → malloc n ≡ true)
    → length payload < 65536
    → take_payload malloc payload m ≡ record m {
      block_data_len = length payload;
      block_data = if ltb 0 (length payload) then some payload else none;
    }
unfolding take_payload
take_payload_lem malloc payload m ample short =
    rw
      (
        let whole : length payload % 65536 ≡ length payload = omega arith in whole,
        ample (length payload),
        take_whole payload,
      )
      (ground arith)

within : (limit n : ℕ) → n ≤ limit → ltb limit n ≡ false
within limit n fits = ground arith

-- The size of the message: the block's, or the one that was stated before.
abbrev pub total_of : Option ℕ → BlockMessage → ℕ
total_of none m = m.total_message_size
total_of (some size) m = size

read_back :
    (malloc : ℕ → Bool) (max_size : ℕ) (size1 : Option ℕ) (p : Part) (m : BlockMessage) (total : ℕ)
    → ((n : ℕ) → malloc n ≡ true)
    → IsPart p
    → elim size1 [ none ↦ m.total_message_size | some size ↦ size ] ≡ total
    → total ≤ max_size
    → set_message_info malloc max_size (some (header_of size1 p)) m ≡ record {
      block_data = if ltb 0 (length p.payload) then some p.payload else none;
      block_data_len = length p.payload;
      block_number = p.number;
      total_message_size = total;
      error_code = error_none;
      is_last_block = not p.more;
      is_block_message = true;
    }
unfolding set_message_info
read_back malloc max_size size1 p m total ample part stated fits =
    rw (stated, within max_size total fits, number_lem p part, more_lem p part)
      (take_payload_lem malloc p.payload taken ample part.2)
  where
    taken : BlockMessage
    taken = record m {
      block_number = p.number;
      total_message_size = total;
      error_code = error_none;
      is_last_block = not p.more;
      is_block_message = true;
    }

-- A block of a message within the limit is read back: its number, whether it is the last, and its
-- payload, if that is not empty and the allocation succeeds. Nothing else is kept of the blocks
-- before but the total size, where the block does not state it.
pub set_message_info_lem :
    (malloc : ℕ → Bool) (max_size : ℕ) (size1 : Option ℕ) (p : Part) (m : BlockMessage)
    → ((n : ℕ) → malloc n ≡ true)
    → IsPart p
    → total_of size1 m ≤ max_size
    → set_message_info malloc max_size (some (header_of size1 p)) m ≡ record {
      block_data = if ltb 0 (length p.payload) then some p.payload else none;
      block_data_len = length p.payload;
      block_number = p.number;
      total_message_size = total_of size1 m;
      error_code = error_none;
      is_last_block = not p.more;
      is_block_message = true;
    }
unfolding set_message_info
set_message_info_lem malloc max_size none p m ample part fits =
    read_back malloc max_size none p m m.total_message_size ample part refl fits
set_message_info_lem malloc max_size (some size) p m ample part fits =
    read_back malloc max_size (some size) p m size ample part refl fits
