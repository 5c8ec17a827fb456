-- ===== src/Core/Settled.antt =====
-- The handlers of v3-core/src/lib.rs that only send frames of their own never fail.
use todero_protocol_native.Base.{
  ℕ, ◌≤◌, ◌≡◌, ◌&&◌, not, List, [], ◌∷◌, Option-cases, Result, ok, if-elim, inl, inr, ltb, leb,
  length, arith,
}
use todero_protocol_native.Base.Words.{saturating_add_u32, add_u64}
use todero_protocol_native.Wire.Buffer.{Buf}
use todero_protocol_native.Wire.{MessageType, WireFrame, Tlv, max_payload_len}
use todero_protocol_native.Wire.Encode.{IsShort}
use todero_protocol_native.Core.Types.{
  is_client, is_established, CoreError, MsrSource, piggyback_tlv, Ctx, Outcome, done, ◌>>=◌,
}
use todero_protocol_native.Core.Codec.{
  encode_frame, encode_frame_with_tlvs, encode_msr_payload, find_msr_signal_tlv,
}
use todero_protocol_native.Core.Codec.Frames.{
  encode_frame_lem, encode_frame_with_tlvs_lem, length-encode_msr_payload, length-encode_range,
  signal_IsShort,
}
use todero_protocol_native.Core.Handlers.{push_datagram, client_keepalive_every_server_msr}
use todero_protocol_native.Core.Signals.{
  is_control, count_server_msr, client_signal, server_signal, request_pending, handle_msr_signal,
}
use todero_protocol_native.Core.Machine.{is_msr, piggyback}

-- An outcome that is no error.
pub data Settled : Outcome → Type 0 where
  settled : {c : Ctx} → Settled (done c)

pub Settled-bind :
    {m : Outcome} {f : Ctx → Outcome} → Settled m → ((c : Ctx) → Settled (f c)) → Settled (m >>= f)
Settled-bind (settled {c = c}) k = k c

pub push_datagram-Settled :
    (path : ℕ) {r : Result CoreError (List ℕ)} {bytes : List ℕ} (c : Ctx)
    → r ≡ ok bytes
    → Settled (push_datagram path r c)
push_datagram-Settled path c e = rw e settled

module _ ⦃buf : Buf⦄ where
  pub push_frame-Settled :
      (path : ℕ) (m : MessageType) (cid : ℕ) (payload : List ℕ) (c : Ctx)
      → length payload ≤ max_payload_len
      → Settled (push_datagram path (encode_frame m cid payload) c)
  push_frame-Settled path m cid payload c h =
      push_datagram-Settled path c (encode_frame_lem m cid payload h)

  pub push_frame_with_tlvs-Settled :
      (path : ℕ) (m : MessageType) (cid : ℕ) (payload : List ℕ) (tlv : Tlv) (c : Ctx)
      → length payload ≤ max_payload_len
      → IsShort tlv
      → Settled (push_datagram path (encode_frame_with_tlvs m cid payload (tlv ∷ [])) c)
  push_frame_with_tlvs-Settled path m cid payload tlv c h short =
      push_datagram-Settled path c (encode_frame_with_tlvs_lem m cid payload tlv h short)

  pub push_msr-Settled :
      (path acked pending cid : ℕ) (c : Ctx)
      → Settled (
          push_datagram path
            (encode_frame MessageType.msr cid (encode_msr_payload acked pending))
            c)
  push_msr-Settled path acked pending cid c =
      push_frame-Settled path MessageType.msr cid _ c
        (omega (arith, length-encode_msr_payload acked pending))

  count_server_msr-Settled :
      (path : ℕ) (source : MsrSource) (c : Ctx) → Settled (count_server_msr path source c)
  unfolding count_server_msr
  count_server_msr-Settled path source c =
      if-elim Settled (not (is_control source)) (λ _. settled)
        (λ _.
          if-elim Settled
            (leb client_keepalive_every_server_msr
              (saturating_add_u32 c.self.client_server_msr_rx_since_last_keepalive 1))
            (λ _. push_msr-Settled path _ _ _ _) (λ _. settled))

  client_signal-Settled :
      (now path : ℕ) (source : MsrSource) (c : Ctx) → Settled (client_signal now path source c)
  unfolding client_signal
  client_signal-Settled now path source c =
      if-elim Settled (is_client c.self.role)
        (λ _. Settled-bind (count_server_msr-Settled path source _) (λ _. settled)) (λ _. settled)

  request_pending-Settled : (path next : ℕ) (c : Ctx) → Settled (request_pending path next c)
  unfolding request_pending
  request_pending-Settled path next c =
      if-elim Settled (is_established c.self.state && ltb c.self.last_requested_end next)
        (λ _.
          Settled-bind
            (push_frame_with_tlvs-Settled path MessageType.request_range _ _ _ _
              (omega (arith, length-encode_range (add_u64 c.self.last_requested_end 1) next))
              (signal_IsShort _ _))
            (λ _. settled))
        (λ _. settled)

  pub handle_msr_signal-Settled :
      (now path next : ℕ) (source : MsrSource) (c : Ctx)
      → Settled (handle_msr_signal now path next source c)
  unfolding handle_msr_signal
  handle_msr_signal-Settled now path next source c =
      Settled-bind (client_signal-Settled now path source c)
        (λ c1. request_pending-Settled path next (server_signal c1))

  -- The signal on a frame that is no MSR is always handled without an error: what was delivered before
  -- it is not lost with the output.
  pub piggyback-Settled :
      (now path : ℕ) (frame : WireFrame) (c : Ctx) → Settled (piggyback now path frame c)
  unfolding piggyback
  piggyback-Settled now path frame c = elim (Option-cases (find_msr_signal_tlv frame.tlvs)) [
    | inl e ↦
        rw (e, piggyback)
          (if-elim Settled (is_msr frame.message_type) (λ _. settled) (λ _. settled))
    | inr ((acked, next), e) ↦
        rw (e, piggyback)
          (if-elim Settled (is_msr frame.message_type) (λ _. settled)
            (λ _. handle_msr_signal-Settled now path next piggyback_tlv c))
  ]
