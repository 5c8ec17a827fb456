-- ===== src/Examples/Frames.antt =====
-- The theorems of frame authentication and of the handshake adapter, at concrete inputs: a MAC that
-- puts the key before the message.
use Prim.Native.String.{String}
use todero_protocol_native.Base.{
  ℕ, ◌≡◌, ◌↔◌, refl, sym, ap, ◌∙◌, Bool, true, false, ◌&&◌, List, [], ◌∷◌, ◌++◌, none, some, ok,
  err, ==_iff, ◌==◌, ==_refl, Bool-cases, inl, inr,
}
use todero_protocol_native.Base.Words.{to_be_bytes}
use todero_protocol_native.Crypto.Replay.{accept}
use todero_protocol_native.Crypto.FrameAuth
use todero_protocol_native.Crypto.FrameAuth.{
  Hmac, HmacSha256FrameAuth, auth_failed, verify, sign, sign_inner, check_tag, verify_iff,
  message_of,
}
use todero_protocol_native.Crypto.Frames.{
  Frame, verify_frame, verify_all, verify_frame-never_twice, verify_frame-forged,
}
use todero_protocol_native.Crypto.Handshake.{
  HandshakeConfig, server_auth, dtls12, same_bytes, client_hello, start, progress, on_datagram,
  validate_cfg,
}
use todero_protocol_native.Crypto.Handshake
use todero_protocol_native.Crypto.Policy.{
  call_start_server, call_datagram, perform, run, IsAllowed, run-IsAllowed,
}

same_bytes_refl : (xs : List ℕ) → same_bytes xs xs ≡ true
same_bytes_refl [] = refl
same_bytes_refl (x ∷ xs) = rw (==_refl x, same_bytes_refl xs)

true-ne-false : true ≡ false → ⊥
true-ne-false e = cc

same_bytes-eq : (xs ys : List ℕ) → same_bytes xs ys ≡ true → xs ≡ ys
same_bytes-eq [] [] h = refl
same_bytes-eq [] (y ∷ ys) h = cc
same_bytes-eq (x ∷ xs) [] h = cc
same_bytes-eq (x ∷ xs) (y ∷ ys) h = elim (Bool-cases (x == y)) [
  | inl e ↦
      let rest : xs ≡ ys = same_bytes-eq xs ys (sym (ap (λ b. b && same_bytes xs ys) e) ∙ h) in
      let first : x ≡ y = (==_iff x y).0 e in cc
  | inr e ↦ absurd (true-ne-false (sym h ∙ ap (λ b. b && same_bytes xs ys) e))
]

abbrev prefixing : Hmac
prefixing = record {
  new_from_slice = λ key. ok tt;
  finalize = λ key message. key ++ message;
  verify_slice = λ key message tag. same_bytes (key ++ message) tag;
  replay_text = λ sequence. "replay rejected";
  verify_slice_law = λ key message tag. (
    same_bytes-eq (key ++ message) tag,
    λ e. ap (same_bytes (key ++ message)) (sym e) ∙ same_bytes_refl (key ++ message),
  );
}

abbrev key : List ℕ
key = 3 ∷ 3 ∷ []

abbrev genuine : Frame
genuine = record {
  sequence = 5;
  cid = 7;
  path_id = 1;
  payload = 42 ∷ [];
  tag = key ++ message_of 5 7 1 (42 ∷ []);
}

abbrev forged : Frame
forged = record { sequence = 5; cid = 7; path_id = 1; payload = 43 ∷ []; tag = 0 ∷ [] }

abbrev auth : HmacSha256FrameAuth
auth = FrameAuth.new key 32

verify_iff_example : ((verify prefixing 5 7 1 (42 ∷ []) genuine.tag auth).1 ≡ ok tt) ↔ (
    ((accept 5 auth.replay_window).0 ≡ true)
    × (sign prefixing 5 7 1 (42 ∷ []) auth ≡ ok genuine.tag))
verify_iff_example = verify_iff prefixing 5 7 1 (42 ∷ []) genuine.tag auth refl

verify_frame-never_twice_example :
    (verify_frame prefixing genuine
      (verify_all prefixing (forged ∷ []) (verify_frame prefixing genuine auth).0)).1
    ≡ err (auth_failed "replay rejected")
unfolding verify_frame verify_all verify accept check_tag sign_inner to_be_bytes
verify_frame-never_twice_example =
    verify_frame-never_twice prefixing key 32 [] (forged ∷ []) genuine genuine refl refl

verify_frame-forged_example :
    ((verify_frame prefixing forged auth).1 ≡ err (auth_failed "frame auth tag mismatch"))
    × ((verify_frame prefixing genuine (verify_frame prefixing forged auth).0).1
        ≡ err (auth_failed "replay rejected"))
unfolding verify_frame verify_all verify accept check_tag sign_inner to_be_bytes
verify_frame-forged_example =
    verify_frame-forged prefixing key 32 [] genuine forged refl refl refl refl

abbrev server_config : HandshakeConfig
server_config = record {
  profile = server_auth;
  cipher_policy = record { min_dtls_version = dtls12; allow_weak_suites = false };
  trust = record { trust_anchor_pems = []; require_hostname_verification = true };
  client_identity = none;
  expected_server_name = some "todero";
}

abbrev never_blank : String → Bool
never_blank s = false

run-IsAllowed_example :
    (cfg : HandshakeConfig) × ((perform never_blank
        (call_datagram client_hello)
        (run never_blank (call_start_server server_config ∷ []) Handshake.new)).0.cfg
      ≡ some cfg)
    × IsAllowed never_blank cfg
unfolding run perform start validate_cfg on_datagram progress
run-IsAllowed_example =
    run-IsAllowed never_blank (call_start_server server_config ∷ []) (call_datagram client_hello)
      refl
