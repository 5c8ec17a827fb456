-- ===== src/Core/Sending.antt =====
-- `handle_request_range` of v3-core/src/lib.rs: the queued messages of a requested range are sent,
-- each in one frame or in fragments.
use todero_protocol_native.Base.{
  ℕ, zero, suc, ◌+◌, ◌-◌, ◌/◌, List, [], ◌∷◌, ◌++◌, none, some, ltb, leb, ◌==◌, if◌then◌else◌,
  length, take, drop,
}
use todero_protocol_native.Base.Words.{to_be_bytes, saturating_sub}
use todero_protocol_native.Base.BTreeMap.{get}
use todero_protocol_native.Wire.Buffer.{Buf}
use todero_protocol_native.Wire.{MessageType}
use todero_protocol_native.Core.Types.{
  malformed_request_range, malformed_data, Ctx, Outcome, done, failed, ◌>>=◌,
}
use todero_protocol_native.Core.Codec.{encode_frame_with_tlvs, encode_msr_signal_tlv, decode_range}
use todero_protocol_native.Core.Handlers.{
  push_datagram, max_pending_id, max_data_payload_per_frame, fragment_header_len,
}

abbrev pub chunk_size : ℕ
chunk_size = saturating_sub max_data_payload_per_frame fragment_header_len

-- `msg.chunks(n)`, with the rounds left first: pieces of `n` elements, and a shorter last one.
unfoldable pub chunks_loop : ℕ → ℕ → List ℕ → List (List ℕ)
chunks_loop zero n msg = []
chunks_loop (suc rounds) n [] = []
chunks_loop (suc rounds) n (b ∷ bs) = take n (b ∷ bs) ∷ chunks_loop rounds n (drop n (b ∷ bs))

-- A piece is not empty, so the message's length is enough rounds.
unfoldable pub chunks : ℕ → List ℕ → List (List ℕ)
chunks n msg = chunks_loop (length msg) n msg

-- `len.div_ceil(n)`
abbrev pub div_ceil : ℕ → ℕ → ℕ
div_ceil len n = (len + (n - 1)) / n

unfoldable pub data_payload : ℕ → List ℕ → List ℕ
data_payload id msg = to_be_bytes 8 id ++ msg

unfoldable pub fragment_payload : ℕ → ℕ → ℕ → List ℕ → List ℕ
fragment_payload id idx total chunk =
    to_be_bytes 8 id ++ (to_be_bytes 2 idx ++ (to_be_bytes 2 total ++ chunk))

module _ ⦃buf : Buf⦄ where
  -- A frame of the message's own bytes, with the signal TLV on it.
  unfoldable pub push_with_signal : ℕ → MessageType → List ℕ → Ctx → Outcome
  push_with_signal src_path_id message_type payload c =
      let tlv = encode_msr_signal_tlv c.self.last_ordered_rx (max_pending_id c.self) in
      push_datagram src_path_id (encode_frame_with_tlvs message_type c.self.cid payload (tlv ∷ []))
        c

  -- `msg.chunks(chunk_size).enumerate()`, from the index on.
  unfoldable pub send_fragments : ℕ → ℕ → ℕ → ℕ → List (List ℕ) → Ctx → Outcome
  send_fragments src_path_id id total idx [] c = done c
  send_fragments src_path_id id total idx (chunk ∷ pieces) c =
      if ltb 0xffff idx then failed malformed_data c else do
        c1 ←
            push_with_signal src_path_id MessageType.fragment (fragment_payload id idx total chunk)
              c
        send_fragments src_path_id id total (idx + 1) pieces c1

  -- One round of the loop over the requested range.
  unfoldable pub send_message : ℕ → ℕ → Ctx → Outcome
  send_message src_path_id id c = elim (get id c.self.outbound_messages) [
    | none ↦ done c
    | some msg ↦
        let total_frags = div_ceil (length msg) chunk_size in
        if leb (8 + length msg) max_data_payload_per_frame
        then push_with_signal src_path_id MessageType.data_frame (data_payload id msg) c
        else if chunk_size == 0
        then failed malformed_data c
        else if ltb 0xffff total_frags
        then failed malformed_data c
        else send_fragments src_path_id id total_frags 0 (chunks chunk_size msg) c
  ]

  -- `for id in start..=end`, with the number of rounds first.
  unfoldable pub send_range : ℕ → ℕ → ℕ → Ctx → Outcome
  send_range zero src_path_id id c = done c
  send_range (suc rounds) src_path_id id c = do
    c1 ← send_message src_path_id id c
    send_range rounds src_path_id (id + 1) c1

  -- An inclusive range has `end + 1 - start` rounds, none where `end` is below `start`.
  unfoldable pub handle_request_range : ℕ → List ℕ → Ctx → Outcome
  handle_request_range src_path_id payload c = elim (decode_range payload) [
    | none ↦ failed malformed_request_range c
    | some (start, end) ↦ send_range (end + 1 - start) src_path_id start c
  ]
