-- ===== src/Requests/Value.antt =====
-- `handle_put_request` of source/m2mresourcebase.cpp: a value that is written goes through
-- `set_value` and is reported, or is handed block by block to the application.
use mbed_client.Common.{
  ℕ, Bool, true, false, not, List, ◌∷◌, ◌==◌, Option, none, some, ◌>>=◌, if◌then◌else◌,
}
use mbed_client.Report.{Float}
use mbed_client.Block
use mbed_client.Block.{BlockMessage, error_none, entity_too_large, set_message_info, clear_values}
use mbed_client.Objects.Line.{Line, self, with_self, set_value}
use mbed_client.Objects.Base.{text_of}
use mbed_client.Objects.Make.{content_tlv}
use mbed_client.Requests.{
  changed, method_not_allowed, unsupported_content_format, Request, Response, Coap, with_code,
  allows, query_of, put_query,
}

-- A value with its object above it, the message whose blocks it takes, whether the application is to
-- be told (`execute_value_updated`), and what its function for blocks was called with.
pub record Written (F : Type 0) : Type 0 where
  pub line : Line F
  pub block_message : Option BlockMessage
  pub execute_value_updated : Bool
  pub blocks : List BlockMessage

-- The header of a request as a block reads it.
abbrev pub block_header : Request → Block.Header
block_header request = record {
  options = elim request.options [ none ↦ none | some o ↦ some o.block ];
  payload = text_of request.payload;
}

abbrev pub is_tlv : Option ℕ → Bool
is_tlv none = false
is_tlv (some type) = type == content_tlv

-- A block that was taken: the application's function is called, if it is set, and what is kept of
-- the message is cleared after the last block and after an error.
unfoldable pub after_block : BlockMessage → BlockMessage
after_block m =
    let m1 = if m.is_last_block then clear_values m else m in
    elim m1.error_code [ error_none ↦ m1 | entity_too_large ↦ clear_values m1 ]

module _ (f : Float) (malloc : ℕ → Bool) (nsdl : Coap) where
  open f use {F}

  -- A block goes to the application; `coap_status` says whether it was the last.
  unfoldable pub take_block : Bool → BlockMessage → Response → Written F → Response × Written F
  unfolding after_block clear_values
  take_block has_callback m response s = (
    record response { coap_status = some m.is_last_block },
    record s {
      block_message = some (after_block m);
      blocks = if has_callback then m ∷ s.blocks else s.blocks;
    },
  )

  unfoldable pub write_value : Option (List ℕ) → Written F → Written F
  unfolding set_value
  write_value value s = record s { line = (set_value f malloc value s.line).1 }

  -- The payload of a request that is allowed and not TLV, with the message that takes blocks, if
  -- there is one. `limit` is that of nsdl-c on messages.
  unfoldable pub put_payload :
      ℕ → Bool → Request → Response → Option BlockMessage → Written F → Response × Written F
  unfolding take_block write_value set_message_info
  put_payload limit has_callback request response none s = (response, write_value request.payload s)
  put_payload limit has_callback request response (some m) s =
      let m' = set_message_info malloc limit (some (block_header request)) m in
      let s' : Written F = record s { block_message = some m' } in
      if m'.is_block_message
      then take_block has_callback m' response s'
      else (response, write_value request.payload s')

  -- With a payload, and an observation handler in the request's hands, the application is told.
  unfoldable pub mark_updated : Bool → Option (List ℕ) → Written F → Written F
  mark_updated has_handler none s = s
  mark_updated has_handler (some bytes) s = record s {
    execute_value_updated = if has_handler then true else s.execute_value_updated;
  }

  unfoldable pub put_value :
      ℕ → Bool → Bool → Option Request → Written F → Option (Option Response × Written F)
  unfolding put_payload mark_updated put_query query_of
  put_value limit has_callback has_handler none s =
      some (with_code method_not_allowed (nsdl.build_response none changed), s)
  put_value limit has_callback has_handler (some request) s =
      elim (nsdl.build_response (some request) changed) [
        | none ↦ some (none, s)
        | some response ↦ elim (query_of request) [
          | some query ↦ (do
            (code, n) ← put_query f malloc (self s.line).data_type query (self s.line)
            some (
              some (record response { msg_code = code }),
              record s { line = with_self n s.line },
            ))
          | none ↦
              if not (allows 2 (self s.line))
              then some (some (record response { msg_code = method_not_allowed }), s)
              else if is_tlv request.content_format
              then some (some (record response { msg_code = unsupported_content_format }), s)
              else (let (response', s') =
                    put_payload limit has_callback request response s.block_message s in
                  some (
                    some (record response' { msg_code = changed }),
                    mark_updated has_handler request.payload s',
                  ))
        ]
      ]
