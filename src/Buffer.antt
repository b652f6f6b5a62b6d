-- ===== src/Buffer.antt =====
-- `StringBuffer` of mbed-client/m2mstringbuffer.h over source/m2mstringbufferbase.cpp, and the paths
-- that source/m2mbase.cpp builds in it. A buffer is its size and the characters before the NUL.
pub mod Paths
pub mod Room
pub mod Tests
use mbed_client.Common.{
  ℕ, suc, ◌+◌, ◌-◌, ◌<◌, Bool, true, false, List, [], ◌∷◌, ◌++◌, length, leb, ltb, ◌==◌, Option,
  none, some, if◌then◌else◌,
}
use mbed_client.Common.Int.{pos}
use mbed_client.Text.{itoa_c}
use mbed_client.Interface.Address.{find_last_of}

pub record Buffer : Type 0 where
  pub size : ℕ
  pub chars : List ℕ

abbrev pub empty : ℕ → Buffer
empty n = record { size = n; chars = [] }

unfoldable pub ensure_space : ℕ → Buffer → Bool
ensure_space required b = leb required (b.size - length b.chars)

unfoldable pub append_char : ℕ → Buffer → Bool × Buffer
unfolding ensure_space
append_char c b =
    if ensure_space 2 b then (true, record b { chars = b.chars ++ (c ∷ []) }) else (false, b)

unfoldable pub append : List ℕ → Buffer → Bool × Buffer
unfolding ensure_space
append s b =
    if ensure_space (length s + 1) b then (true, record b { chars = b.chars ++ s }) else (false, b)

-- A block of `length s` characters; the empty block needs no room.
unfoldable pub append_block : List ℕ → Buffer → Bool × Buffer
unfolding ensure_space
append_block s b =
    if ltb 0 (length s)
    then if ensure_space (length s + 1) b
      then (true, record b { chars = b.chars ++ s })
      else (false, b)
    else (true, b)

unfoldable pub append_int : ℕ → Buffer → Bool × Buffer
unfolding append_block
append_int n b = append_block (itoa_c (pos n)) b

-- The search starts at the NUL.
unfoldable pub last_index : ℕ → Buffer → Option ℕ
unfolding find_last_of
last_index c b = if c == 0 then some (length b.chars) else find_last_of c b.chars
