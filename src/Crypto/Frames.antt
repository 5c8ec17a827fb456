-- ===== src/Crypto/Frames.antt =====
-- Sequences of frames at `HmacSha256FrameAuth::verify` of v3-crypto/src/lib.rs.
use todero_protocol_native.Base.{
  ℕ, ◌≡◌, refl, sym, ap, ◌∙◌, true, false, List, [], ◌∷◌, Result, ok, err,
}
use todero_protocol_native.Crypto.Replay
use todero_protocol_native.Crypto.Replay.{accept}
use todero_protocol_native.Crypto.Refusals.{accept_all, accept-never_twice}
use todero_protocol_native.Crypto.FrameAuth.{
  CryptoError, auth_failed, Hmac, HmacSha256FrameAuth, new, message_of, check_tag, verify,
  verify-window, verify-replayed, verify-fresh, verify-accepted, tag_fails,
}

-- A frame that is handed to `verify`.
pub record Frame : Type 0 where
  pub sequence : ℕ
  pub cid : ℕ
  pub path_id : ℕ
  pub payload : List ℕ
  pub tag : List ℕ

abbrev pub sequences : List Frame → List ℕ
sequences [] = []
sequences (f ∷ fs) = f.sequence ∷ sequences fs

module _ (hmac : Hmac) where
  unfoldable pub verify_frame :
      Frame → HmacSha256FrameAuth → HmacSha256FrameAuth × Result CryptoError (Unit {0})
  verify_frame f self = verify hmac f.sequence f.cid f.path_id f.payload f.tag self

  unfoldable pub verify_all : List Frame → HmacSha256FrameAuth → HmacSha256FrameAuth
  verify_all [] self = self
  verify_all (f ∷ fs) self = verify_all fs (verify_frame f self).0

  verify_all-window :
      (fs : List Frame) (self : HmacSha256FrameAuth)
      → (verify_all fs self).replay_window ≡ accept_all (sequences fs) self.replay_window
  unfolding verify_all verify_frame accept_all
  verify_all-window [] self = refl
  verify_all-window (f ∷ fs) self =
      verify_all-window fs (verify_frame f self).0
      ∙ ap (λ (a : HmacSha256FrameAuth). accept_all (sequences fs) a.replay_window)
          (verify-window hmac f.sequence f.cid f.path_id f.payload f.tag self)

  -- A number that the window has taken is refused from then on.
  verify_frame-used :
      (key : List ℕ) (size : ℕ) (before between : List Frame) (first second : Frame)
      → (accept first.sequence (verify_all before (new key size)).replay_window).0 ≡ true
      → second.sequence ≡ first.sequence
      → (verify_frame second
          (verify_all between (verify_frame first (verify_all before (new key size))).0)).1
        ≡ err (auth_failed (hmac.replay_text first.sequence))
  unfolding verify_frame
  verify_frame-used key size before between first second taken same =
      let start = verify_all before (new key size) in
      let next = (verify_frame first start).0 in
      let s = first.sequence in
      let at_start = verify_all-window before (new key size) in
      let fresh : (accept s (accept_all (sequences before) (Replay.new size))).0 ≡ true =
        ap (λ w. (accept s w).0) (sym at_start) ∙ taken in
      let at_next : next.replay_window
          ≡ (accept s (accept_all (sequences before) (Replay.new size))).1 =
        ap (λ (a : HmacSha256FrameAuth). a.replay_window)
          (verify-window hmac s first.cid first.path_id first.payload first.tag start)
        ∙ ap (λ w. (accept s w).1) at_start in
      let later = verify_all-window between next ∙ ap (accept_all (sequences between)) at_next in
      let refused =
        ap (λ r. r.0) (accept-never_twice size s (sequences before) (sequences between) fresh) in
      verify-replayed hmac second.sequence second.cid second.path_id second.payload second.tag
        (verify_all between next)
        (ap (λ t. (accept t (verify_all between next).replay_window).0) same
          ∙ ap (λ w. (accept s w).0) later
          ∙ refused)
      ∙ ap (λ t. err (auth_failed (hmac.replay_text t))) same

  -- A sequence number that `verify` has let through once is refused as a replay from then on: with any
  -- key and window size, after any frames `before` and any frames `between`, accepted or forged, and
  -- whatever the second frame has besides the number.
  pub verify_frame-never_twice :
      (key : List ℕ) (size : ℕ) (before between : List Frame) (first second : Frame)
      → (verify_frame first (verify_all before (new key size))).1 ≡ ok tt
      → second.sequence ≡ first.sequence
      → (verify_frame second
          (verify_all between (verify_frame first (verify_all before (new key size))).0)).1
        ≡ err (auth_failed (hmac.replay_text first.sequence))
  unfolding verify_frame
  verify_frame-never_twice key size before between first second h same =
      let start = verify_all before (new key size) in
      verify_frame-used key size before between first second
        (verify-accepted hmac first.sequence first.cid first.path_id first.payload first.tag start
          h)
        same

  verify_all-key :
      (fs : List Frame) (self : HmacSha256FrameAuth) → (verify_all fs self).key ≡ self.key
  unfolding verify_all verify_frame
  verify_all-key [] self = refl
  verify_all-key (f ∷ fs) self =
      verify_all-key fs (verify_frame f self).0
      ∙ ap (λ (a : HmacSha256FrameAuth). a.key)
          (verify-window hmac f.sequence f.cid f.path_id f.payload f.tag self)

  -- A forged frame uses up the sequence number that it names: where a genuine frame would be let
  -- through, a frame of the same number with a wrong tag is refused for its tag, and the genuine one,
  -- coming after it, is then refused as a replay.
  pub verify_frame-forged :
      (key : List ℕ) (size : ℕ) (before : List Frame) (genuine forged : Frame)
      → (verify_frame genuine (verify_all before (new key size))).1 ≡ ok tt
      → forged.sequence ≡ genuine.sequence
      → hmac.new_from_slice key ≡ ok tt
      → hmac.verify_slice key
          (message_of forged.sequence forged.cid forged.path_id forged.payload)
          forged.tag
        ≡ false
      → ((verify_frame forged (verify_all before (new key size))).1
          ≡ err (auth_failed "frame auth tag mismatch"))
        × ((verify_frame genuine (verify_frame forged (verify_all before (new key size))).0).1
            ≡ err (auth_failed (hmac.replay_text forged.sequence)))
  unfolding verify_frame verify_all
  verify_frame-forged key size before genuine forged h same fine wrong =
      let start = verify_all before (new key size) in
      let key_is : start.key ≡ key = verify_all-key before (new key size) in
      let taken : (accept forged.sequence start.replay_window).0 ≡ true =
        ap (λ t. (accept t start.replay_window).0) same
        ∙ verify-accepted hmac genuine.sequence genuine.cid genuine.path_id genuine.payload
            genuine.tag start h in
      (
        verify-fresh hmac forged.sequence forged.cid forged.path_id forged.payload forged.tag start
              taken
            ∙ ap
                (λ k.
                  check_tag hmac k forged.sequence forged.cid forged.path_id forged.payload
                    forged.tag)
                key_is
            ∙ tag_fails hmac key forged.payload forged.tag forged.sequence forged.cid forged.path_id
                fine wrong,
        verify_frame-used key size before [] forged genuine taken (sym same),
      )
