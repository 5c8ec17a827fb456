-- ===== src/Crypto/FrameAuth.antt =====
-- `HmacSha256FrameAuth` of v3-crypto/src/lib.rs. The crates hmac and sha2 are the parameter `Hmac`.
use Prim.Native.String.{String}
use todero_protocol_native.Base.{
  ℕ, ◌≡◌, ◌↔◌, sym, ap, ◌∙◌, Bool, true, false, not, List, ◌++◌, Result, ok, err, ◌>>=◌, ◌>>◌,
  refuse_if, if◌then◌else◌, ◌==◌, length, Bool-cases, inl, inr, ==_refl, err-ne-ok, ok-injective,
}
use todero_protocol_native.Base.Words.{to_be_bytes}
use todero_protocol_native.Crypto.Replay
use todero_protocol_native.Crypto.Replay.{ReplayWindow, accept}

pub data CryptoError : Type 0 where
  invalid_config auth_failed provider : String → CryptoError

pub record Hmac : Type 0 where
  -- Whether `new_from_slice` takes the key, the tag of a message, and `verify_slice`.
  pub new_from_slice : List ℕ → Result String (Unit {0})
  pub finalize : List ℕ → List ℕ → List ℕ
  pub verify_slice : List ℕ → List ℕ → List ℕ → Bool
  -- `format!("replay rejected for sequence={sequence}")`
  pub replay_text : ℕ → String
  pub verify_slice_law :
      (key message tag : List ℕ)
      → (verify_slice key message tag ≡ true) ↔ (finalize key message ≡ tag)

pub record HmacSha256FrameAuth : Type 0 where
  pub key : List ℕ
  pub replay_window : ReplayWindow

abbrev pub new : List ℕ → ℕ → HmacSha256FrameAuth
new key replay_window_size = record { key = key; replay_window = Replay.new replay_window_size }

-- What the calls of `update` put together.
abbrev pub message_of : ℕ → ℕ → ℕ → List ℕ → List ℕ
message_of sequence cid path_id payload =
    to_be_bytes 8 sequence
    ++ (to_be_bytes 8 cid ++ (to_be_bytes 4 path_id ++ (to_be_bytes 8 (length payload) ++ payload)))

abbrev pub map_provider {ℓ} : {A : Type ℓ} → Result String A → Result CryptoError A
map_provider (err e) = err (provider e)
map_provider (ok a) = ok a

module _ (hmac : Hmac) where
  unfoldable pub sign_inner : List ℕ → ℕ → ℕ → ℕ → List ℕ → Result CryptoError (List ℕ)
  sign_inner key sequence cid path_id payload =
      map_provider (hmac.new_from_slice key)
      >> ok (hmac.finalize key (message_of sequence cid path_id payload))

  unfoldable pub sign : ℕ → ℕ → ℕ → List ℕ → HmacSha256FrameAuth → Result CryptoError (List ℕ)
  sign sequence cid path_id payload self = sign_inner self.key sequence cid path_id payload

  -- The tests of `verify` behind the window.
  unfoldable pub check_tag : List ℕ → ℕ → ℕ → ℕ → List ℕ → List ℕ → Result CryptoError (Unit {0})
  check_tag key sequence cid path_id payload tag =
      sign_inner key sequence cid path_id payload >>= (λ expected.
        map_provider (hmac.new_from_slice key)
        >> (refuse_if (not (hmac.verify_slice key (message_of sequence cid path_id payload) tag))
              (auth_failed "frame auth tag mismatch")
            >> (refuse_if (not (length expected == length tag))
                  (auth_failed "frame auth tag length mismatch")
                >> ok tt)))

  unfoldable pub verify :
      ℕ
      → ℕ
      → ℕ
      → List ℕ
      → List ℕ
      → HmacSha256FrameAuth
      → HmacSha256FrameAuth × Result CryptoError (Unit {0})
  verify sequence cid path_id payload tag self =
      let r = accept sequence self.replay_window in
      let next = record self { replay_window = r.1 } in
      if not r.0
      then (next, err (auth_failed (hmac.replay_text sequence)))
      else (next, check_tag self.key sequence cid path_id payload tag)

  pub verify-window :
      (sequence cid path_id : ℕ) (payload tag : List ℕ) (self : HmacSha256FrameAuth)
      → (verify sequence cid path_id payload tag self).0
        ≡ record self { replay_window = (accept sequence self.replay_window).1 }
  unfolding verify
  verify-window sequence cid path_id payload tag self =
      elim (Bool-cases (accept sequence self.replay_window).0) [
        | inl e ↦ rw (e, verify)
        | inr e ↦ rw (e, verify)
      ]

  pub verify-replayed :
      (sequence cid path_id : ℕ) (payload tag : List ℕ) (self : HmacSha256FrameAuth)
      → (accept sequence self.replay_window).0 ≡ false
      → (verify sequence cid path_id payload tag self).1
        ≡ err (auth_failed (hmac.replay_text sequence))
  unfolding verify
  verify-replayed sequence cid path_id payload tag self e = rw (e, verify)

  tag_passes :
      (key payload tag : List ℕ) (sequence cid path_id : ℕ)
      → hmac.new_from_slice key ≡ ok tt
      → hmac.finalize key (message_of sequence cid path_id payload) ≡ tag
      → check_tag key sequence cid path_id payload tag ≡ ok tt
  unfolding check_tag sign_inner
  tag_passes key payload tag sequence cid path_id fine h =
      let m = message_of sequence cid path_id payload in
      let same : hmac.verify_slice key m tag ≡ true = (hmac.verify_slice_law key m tag).1 h in
      let long : (length (hmac.finalize key m) == length tag) ≡ true =
        ap (λ t. length (hmac.finalize key m) == length t) (sym h)
        ∙ ==_refl (length (hmac.finalize key m)) in
      rw (fine, same, long)

  pub tag_fails :
      (key payload tag : List ℕ) (sequence cid path_id : ℕ)
      → hmac.new_from_slice key ≡ ok tt
      → hmac.verify_slice key (message_of sequence cid path_id payload) tag ≡ false
      → check_tag key sequence cid path_id payload tag ≡ err (auth_failed "frame auth tag mismatch")
  unfolding check_tag sign_inner
  tag_fails key payload tag sequence cid path_id fine h = rw (fine, h)

  signed :
      (key payload : List ℕ) (sequence cid path_id : ℕ)
      → hmac.new_from_slice key ≡ ok tt
      → sign_inner key sequence cid path_id payload
        ≡ ok (hmac.finalize key (message_of sequence cid path_id payload))
  unfolding sign_inner
  signed key payload sequence cid path_id fine = rw fine

  check_tag_iff :
      (key payload tag : List ℕ) (sequence cid path_id : ℕ)
      → hmac.new_from_slice key ≡ ok tt
      → (check_tag key sequence cid path_id payload tag ≡ ok tt)
        ↔ (sign_inner key sequence cid path_id payload ≡ ok tag)
  check_tag_iff key payload tag sequence cid path_id fine =
      let m = message_of sequence cid path_id payload in
      let made = signed key payload sequence cid path_id fine in
      (
        λ h. made ∙ (elim (Bool-cases (hmac.verify_slice key m tag)) [
          | inl e ↦ ap ok ((hmac.verify_slice_law key m tag).0 e)
          | inr e ↦
              absurd (err-ne-ok (sym (tag_fails key payload tag sequence cid path_id fine e) ∙ h))
        ]),
        λ h. tag_passes key payload tag sequence cid path_id fine (ok-injective (sym made ∙ h)),
      )

  pub verify-fresh :
      (sequence cid path_id : ℕ) (payload tag : List ℕ) (self : HmacSha256FrameAuth)
      → (accept sequence self.replay_window).0 ≡ true
      → (verify sequence cid path_id payload tag self).1
        ≡ check_tag self.key sequence cid path_id payload tag
  unfolding verify
  verify-fresh sequence cid path_id payload tag self e = rw (e, verify)

  pub verify-accepted :
      (sequence cid path_id : ℕ) (payload tag : List ℕ) (self : HmacSha256FrameAuth)
      → (verify sequence cid path_id payload tag self).1 ≡ ok tt
      → (accept sequence self.replay_window).0 ≡ true
  verify-accepted sequence cid path_id payload tag self h =
      elim (Bool-cases (accept sequence self.replay_window).0) [
        | inl e ↦ e
        | inr e ↦
            absurd (err-ne-ok (sym (verify-replayed sequence cid path_id payload tag self e) ∙ h))
      ]

  -- With a key that the MAC takes, a frame is accepted exactly when its sequence number is fresh to the
  -- window and its tag is the one that `sign` gives for it.
  pub verify_iff :
      (sequence cid path_id : ℕ) (payload tag : List ℕ) (self : HmacSha256FrameAuth)
      → hmac.new_from_slice self.key ≡ ok tt
      → ((verify sequence cid path_id payload tag self).1 ≡ ok tt) ↔ (
          ((accept sequence self.replay_window).0 ≡ true)
          × (sign sequence cid path_id payload self ≡ ok tag))
  unfolding sign
  verify_iff sequence cid path_id payload tag self fine =
      let tests = check_tag_iff self.key payload tag sequence cid path_id fine in
      (
        λ h.
            let fresh = verify-accepted sequence cid path_id payload tag self h in
            (fresh, tests.0 (sym (verify-fresh sequence cid path_id payload tag self fresh) ∙ h)),
        λ h. verify-fresh sequence cid path_id payload tag self h.0 ∙ tests.1 h.1,
      )
