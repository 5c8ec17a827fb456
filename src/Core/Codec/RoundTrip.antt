-- ===== src/Core/Codec/RoundTrip.antt =====
-- The payloads and TLVs of v3-core/src/lib.rs are read back as they were written.
use todero_protocol_native.Base.{
  ℕ, ◌+◌, ◌-◌, ◌≤◌, ◌≡◌, refl, sym, ◌∙◌, ap, Bool, true, false, List, [], ◌∷◌, ◌++◌, append-nil,
  append_assoc, some, arith, length, length-append, take, take_append, drop-add, take-length,
  le→ltb_false,
}
use todero_protocol_native.Base.Words.{
  to_be_bytes, from_be_bytes, length-to_be_bytes, from_be_bytes-to_be_bytes, IsU64, IsU32,
}
use todero_protocol_native.Wire.{Tlv}
use todero_protocol_native.Core.Types.{TimerProposal}
use todero_protocol_native.Core.Codec.{
  slice, encode_msr_payload, decode_msr_payload, encode_msr_signal_tlv, find_msr_signal_tlv,
  encode_range, decode_range, encode_timer_proposal_tlv, byte_at, decode_timer_proposal_tlv,
  encode_timer_ack_tlv, decode_timer_ack_tlv,
}

-- The front of a given length.
pub slice_front : (n : ℕ) (xs ys : List ℕ) → length xs ≡ n → slice 0 n (xs ++ ys) ≡ xs
slice_front n xs ys e = let z : n - 0 ≡ n = omega arith in rw (z, ← e) (take_append xs ys)

-- A slice behind a front of a given length.
pub slice_skip :
    (n a b : ℕ) (xs ys : List ℕ) → length xs ≡ n → slice (n + a) (n + b) (xs ++ ys) ≡ slice a b ys
slice_skip n a b xs ys e =
    let width : n + b - (n + a) ≡ b - a = omega arith in
    rw width (ap (take (b - a)) (drop-add n a xs ys e))

slice_all : (n : ℕ) (xs : List ℕ) → length xs ≡ n → slice 0 n xs ≡ xs
slice_all n xs e = let z : n - 0 ≡ n = omega arith in rw (z, ← e) (take-length xs)

two_words :
    (a b : ℕ) (rest : List ℕ)
    → (slice 0 8 (to_be_bytes 8 a ++ (to_be_bytes 8 b ++ rest)) ≡ to_be_bytes 8 a)
      × (slice 8 16 (to_be_bytes 8 a ++ (to_be_bytes 8 b ++ rest)) ≡ to_be_bytes 8 b)
two_words a b rest =
    let ha = length-to_be_bytes 8 a in
    let hb = length-to_be_bytes 8 b in
    (
      slice_front 8 (to_be_bytes 8 a) _ ha,
      slice_skip 8 0 8 (to_be_bytes 8 a) (to_be_bytes 8 b ++ rest) ha
          ∙ slice_front 8 (to_be_bytes 8 b) rest hb,
    )

two_words-length :
    (a b : ℕ) (rest : List ℕ) → 16 ≤ length (to_be_bytes 8 a ++ (to_be_bytes 8 b ++ rest))
two_words-length a b rest = simp (length-append, length-to_be_bytes) (omega arith)

read_u64 : (v : ℕ) → IsU64 v → from_be_bytes (to_be_bytes 8 v) ≡ v
read_u64 v h = from_be_bytes-to_be_bytes 8 v (omega arith)

read_u32 : (v : ℕ) → IsU32 v → from_be_bytes (to_be_bytes 4 v) ≡ v
read_u32 v h = from_be_bytes-to_be_bytes 4 v (omega arith)

-- An MSR payload of two 64-bit words, with any bytes behind it, is read back as the words that were
-- written.
pub decode_msr-encode_msr :
    (acked next_pending : ℕ) (rest : List ℕ)
    → IsU64 acked
    → IsU64 next_pending
    → decode_msr_payload (encode_msr_payload acked next_pending ++ rest)
      ≡ some (acked, next_pending)
unfolding encode_msr_payload decode_msr_payload
decode_msr-encode_msr a b rest ha hb = rw (append_assoc (to_be_bytes 8 a) (to_be_bytes 8 b) rest) (
    rw (le→ltb_false _ _ (two_words-length a b rest))
      (rw ((two_words a b rest).0, (two_words a b rest).1, read_u64 a ha, read_u64 b hb)))

-- A range of 64-bit ids is read back as it was written.
pub decode_range-encode_range :
    (start end : ℕ)
    → IsU64 start
    → IsU64 end
    → decode_range (encode_range start end) ≡ some (start, end)
unfolding encode_range decode_range
decode_range-encode_range a b ha hb = rw (← append-nil (to_be_bytes 8 b)) (
    rw (le→ltb_false _ _ (two_words-length a b []))
      (rw ((two_words a b []).0, (two_words a b []).1, read_u64 a ha, read_u64 b hb)))

-- A signal TLV of two 64-bit words at the front of a frame's TLVs is found and read back.
pub find_msr_signal_tlv-encode :
    (acked next_pending : ℕ) (tlvs : List Tlv)
    → IsU64 acked
    → IsU64 next_pending
    → find_msr_signal_tlv (encode_msr_signal_tlv acked next_pending ∷ tlvs)
      ≡ some (acked, next_pending)
unfolding find_msr_signal_tlv encode_msr_signal_tlv
find_msr_signal_tlv-encode a b tlvs ha hb =
    ap decode_msr_payload (sym (append-nil (encode_msr_payload a b)))
    ∙ decode_msr-encode_msr a b [] ha hb

-- A timer proposal's TLV is read back as the 32-bit id and the proposal, of 64-bit fields, that were
-- written.
decode_timer_proposal-encode :
    (proposal_id : ℕ) (p : TimerProposal)
    → IsU32 proposal_id
    → IsU64 p.msr_interval_ms
    → IsU64 p.miss_window_count
    → IsU64 p.disconnect_window_ms
    → decode_timer_proposal_tlv (encode_timer_proposal_tlv proposal_id p) ≡ some (proposal_id, p)
unfolding encode_timer_proposal_tlv decode_timer_proposal_tlv
decode_timer_proposal-encode id p hid hm hc hd =
    let i = to_be_bytes 4 id in
    let m = to_be_bytes 8 p.msr_interval_ms in
    let c = to_be_bytes 8 p.miss_window_count in
    let d = to_be_bytes 8 p.disconnect_window_ms in
    let li = length-to_be_bytes 4 id in
    let lm = length-to_be_bytes 8 p.msr_interval_ms in
    let lc = length-to_be_bytes 8 p.miss_window_count in
    let ld = length-to_be_bytes 8 p.disconnect_window_ms in
    let size : length (i ++ (m ++ (c ++ d))) ≡ 28 = simp (length-append, length-to_be_bytes) in
    let at0 : slice 0 4 (i ++ (m ++ (c ++ d))) ≡ i = slice_front 4 i (m ++ (c ++ d)) li in
    let at4 : slice 4 12 (i ++ (m ++ (c ++ d))) ≡ m =
      slice_skip 4 0 8 i (m ++ (c ++ d)) li ∙ slice_front 8 m (c ++ d) lm in
    let at12 : slice 12 20 (i ++ (m ++ (c ++ d))) ≡ c =
      slice_skip 4 8 16 i (m ++ (c ++ d)) li
      ∙ slice_skip 8 0 8 m (c ++ d) lm
      ∙ slice_front 8 c d lc in
    let at20 : slice 20 28 (i ++ (m ++ (c ++ d))) ≡ d =
      slice_skip 4 16 24 i (m ++ (c ++ d)) li
      ∙ slice_skip 8 8 16 m (c ++ d) lm
      ∙ slice_skip 8 0 8 c d lc
      ∙ slice_all 8 d ld in
    rw size (
      rw (at0, at4, at12, at20)
        (rw (read_u32 id hid, read_u64 p.msr_interval_ms hm)
          (rw (read_u64 p.miss_window_count hc, read_u64 p.disconnect_window_ms hd))))

byte_behind : (n : ℕ) (xs : List ℕ) (b : ℕ) → length xs ≡ n → byte_at (xs ++ (b ∷ [])) n ≡ b
byte_behind n [] b e = rw (← e)
byte_behind n (x ∷ xs) b e = rw (← e) (byte_behind (length xs) xs b refl)

ack_size : (id b : ℕ) → length (to_be_bytes 4 id ++ (b ∷ [])) ≡ 5
ack_size id b = simp (length-append, length-to_be_bytes)

ack_id : (id b : ℕ) → slice 0 4 (to_be_bytes 4 id ++ (b ∷ [])) ≡ to_be_bytes 4 id
ack_id id b = slice_front 4 (to_be_bytes 4 id) (b ∷ []) (length-to_be_bytes 4 id)

-- A timer acknowledgement's TLV is read back as the 32-bit id and the answer that were written.
pub decode_timer_ack-encode :
    (proposal_id : ℕ) (accepted : Bool)
    → IsU32 proposal_id
    → decode_timer_ack_tlv (encode_timer_ack_tlv proposal_id accepted)
      ≡ some (proposal_id, accepted)
unfolding encode_timer_ack_tlv decode_timer_ack_tlv
decode_timer_ack-encode id true h =
    rw (ack_size id 1, ack_id id 1, byte_behind 4 _ 1 (length-to_be_bytes 4 id), read_u32 id h)
decode_timer_ack-encode id false h =
    rw (ack_size id 0, ack_id id 0, byte_behind 4 _ 0 (length-to_be_bytes 4 id), read_u32 id h)
