-- ===== src/Requests/Blocks.antt =====
-- The blocks of one message, as `handle_put_request` of source/m2mresourcebase.cpp takes them one
-- after another.
use mbed_client.Common.{
  ℕ, ◌<◌, ◌≡◌, refl, ap, ◌∙◌, Bool, true, not, List, [], ◌∷◌, length, map, All, ltb, Option, none,
  some, if◌then◌else◌, arith,
}
use mbed_client.Common.Int.{pos}
use mbed_client.Report.{Float}
use mbed_client.Block.{BlockMessage, error_none, entity_too_large, set_message_info, clear_values}
use mbed_client.Block.Sequence.{Part, IsPart, code, header_of, set_message_info_lem}
use mbed_client.Requests.{Request, Response, Coap}
use mbed_client.Requests.Value.{Written, put_payload, take_block, after_block}

-- A request with a block of a message, that states the message's size or not.
abbrev pub block_request : Request → Option ℕ → Part → Request
block_request request size1 p = record request {
  options = some (record {
    block = record { size1 = size1; block1 = pos (code p) };
    observe = none;
    uri_query = none;
  });
  payload = some p.payload;
}

-- A block that is taken, of a message with no size known.
abbrev pub taken : Part → BlockMessage
taken p = record {
  block_data = if ltb 0 (length p.payload) then some p.payload else none;
  block_data_len = length p.payload;
  block_number = p.number;
  total_message_size = 0;
  error_code = error_none;
  is_last_block = not p.more;
  is_block_message = true;
}

-- What the function for blocks is called with for these, the latest first.
abbrev pub handed : List Part → List BlockMessage → List BlockMessage
handed [] before = before
handed (p ∷ ps) before = handed ps (taken p ∷ before)

-- The message after a block that states a size above the limit.
abbrev pub too_large : ℕ → BlockMessage → BlockMessage
too_large size m = record m {
  total_message_size = size;
  error_code = entity_too_large;
  is_block_message = true;
}

after_block-too_large :
    (size : ℕ) (m : BlockMessage) → (after_block (too_large size m)).total_message_size ≡ 0
unfolding after_block clear_values
after_block-too_large size m = ground arith

after_block-taken : (p : Part) → (after_block (taken p)).total_message_size ≡ 0
unfolding after_block clear_values
after_block-taken p = ground arith

module _ (f : Float) (malloc : ℕ → Bool) (nsdl : Coap) (limit : ℕ) (request : Request)
    (response : Response) where
  open f use {F}

  -- The requests in their order, each with a fresh response.
  abbrev pub put_all : List Request → Written F → Written F
  put_all [] s = s
  put_all (r ∷ rs) s =
      put_all rs (put_payload f malloc nsdl limit true r response s.block_message s).1

  put_taken :
      (p : Part) (m : BlockMessage) (s : Written F)
      → ((n : ℕ) → malloc n ≡ true)
      → IsPart p
      → s.block_message ≡ some m
      → m.total_message_size ≡ 0
      → (put_payload f malloc nsdl limit true
          (block_request request none p)
          response
          s.block_message
          s).1
        ≡ record s { block_message = some (after_block (taken p)); blocks = taken p ∷ s.blocks }
  unfolding put_payload take_block
  put_taken p m s ample part given zero_size =
      let read : set_message_info malloc limit (some (header_of none p)) m ≡ taken p =
        set_message_info_lem malloc limit none p m ample part (omega (arith, zero_size))
        ∙ ap (λ n. record (taken p) { total_message_size = n }) zero_size in
      rw (given, read) refl

  put_all-step :
      (p : Part) (ps : List Part) (m : BlockMessage) (s : Written F)
      → ((n : ℕ) → malloc n ≡ true)
      → IsPart p
      → s.block_message ≡ some m
      → m.total_message_size ≡ 0
      → put_all (map (block_request request none) (p ∷ ps)) s
        ≡ put_all
            (map (block_request request none) ps)
            (record s { block_message = some (after_block (taken p)); blocks = taken p ∷ s.blocks })
  put_all-step p ps m s ample part given zero_size =
      ap (put_all (map (block_request request none) ps))
        (put_taken p m s ample part given zero_size)

  put_rest :
      (ps : List Part) (m : BlockMessage) (s : Written F)
      → ((n : ℕ) → malloc n ≡ true)
      → All IsPart ps
      → s.block_message ≡ some m
      → m.total_message_size ≡ 0
      → let s' = put_all (map (block_request request none) ps) s in
        (s'.blocks ≡ handed ps s.blocks) × (s'.line ≡ s.line)
  put_rest [] m s ample parts given zero_size = (refl, refl)
  put_rest (p ∷ ps) m s ample parts given zero_size =
      let next = put_all-step p ps m s ample parts.0 given zero_size in
      let rest =
        put_rest ps (after_block (taken p))
          (record s { block_message = some (after_block (taken p)); blocks = taken p ∷ s.blocks })
          ample parts.1 refl (after_block-taken p) in
      (ap (λ s'. s'.blocks) next ∙ rest.0, ap (λ s'. s'.line) next ∙ rest.1)

  put_too_large :
      (size : ℕ) (p : Part) (m : BlockMessage) (s : Written F)
      → limit < size
      → s.block_message ≡ some m
      → (put_payload f malloc nsdl limit true
          (block_request request (some size) p)
          response
          s.block_message
          s).1
        ≡ record s {
          block_message = some (after_block (too_large size m));
          blocks = too_large size m ∷ s.blocks;
        }
  unfolding put_payload take_block set_message_info
  put_too_large size p m s large given =
      let over : ltb limit size ≡ true = ground arith in rw (given, over) refl

  -- Of a message in blocks whose first states a size above the limit, and whose others state none,
  -- only the first is refused, where each request may be put and has neither a query nor TLVs. The
  -- function for blocks, which is set, is called with the error, and then with every other block in
  -- its order as one that is taken, if no allocation fails and each of these has a number and a
  -- length below 2 ^ 16. The value is left as it was.
  pub put_all-too_large :
      (size : ℕ) (p : Part) (ps : List Part) (m : BlockMessage) (s : Written F)
      → ((n : ℕ) → malloc n ≡ true)
      → All IsPart ps
      → s.block_message ≡ some m
      → limit < size
      → let requests = block_request request (some size) p ∷ map (block_request request none) ps in
        let s' = put_all requests s in
        (s'.blocks ≡ handed ps (too_large size m ∷ s.blocks)) × (s'.line ≡ s.line)
  put_all-too_large size p ps m s ample parts given large =
      let next =
        ap (put_all (map (block_request request none) ps)) (put_too_large size p m s large given) in
      let rest =
        put_rest ps (after_block (too_large size m))
          (record s {
            block_message = some (after_block (too_large size m));
            blocks = too_large size m ∷ s.blocks;
          })
          ample parts refl (after_block-too_large size m) in
      (ap (λ s'. s'.blocks) next ∙ rest.0, ap (λ s'. s'.line) next ∙ rest.1)
