-- ===== src/Crypto/Policy.antt =====
-- `DtlsBackendAdapter` of v3-crypto/src/lib.rs over any sequence of calls: no session is reported as
-- established under a configuration that the policy refuses.
use Prim.Native.String.{String}
use todero_protocol_native.Base.{
  ℕ, ◌≡◌, refl, sym, ap, ◌∙◌, Bool, true, false, ◌&&◌, List, [], ◌∷◌, Option, none, some, Result,
  ok, err, if-elim, Result-cases, inl, inr, some-injective, refuse_if-eq-ok,
}
use todero_protocol_native.Crypto.FrameAuth.{CryptoError}
use todero_protocol_native.Crypto.Handshake.{
  HandshakeConfig, HandshakeOutput, AdapterRole, client, server, DtlsBackendAdapter, new,
  is_mutual_tls, is_none, unwrap_or, same_bytes, server_hello, client_hello, Answer, progress,
  on_started, on_datagram, on_timeout, validate_cfg, start, start_client, start_server,
}

pub data HandshakeCall : Type 0 where
  call_start_client call_start_server : HandshakeConfig → HandshakeCall
  call_datagram : List ℕ → HandshakeCall
  call_timeout : ℕ → HandshakeCall

-- Whether a result tells the caller that the session is established.
abbrev pub reports : Result CryptoError HandshakeOutput → Bool
reports (err e) = false
reports (ok out) = out.established

module _ (is_blank : String → Bool) where
  -- What the policy asks of a configuration.
  pub record IsAllowed (cfg : HandshakeConfig) : Type 0 where
    pub strong_suites : cfg.cipher_policy.allow_weak_suites ≡ false
    pub named_server :
        cfg.trust.require_hostname_verification ≡ true
        → is_blank (unwrap_or cfg.expected_server_name "") ≡ false
    pub own_identity : is_mutual_tls cfg.profile ≡ true → is_none cfg.client_identity ≡ false

  both_false : (a b : Bool) → (a && b) ≡ false → a ≡ true → b ≡ false
  both_false true b h e = h
  both_false false b h e = cc

  validate_cfg-IsAllowed :
      (cfg : HandshakeConfig) → validate_cfg is_blank cfg ≡ ok tt → IsAllowed cfg
  unfolding validate_cfg
  validate_cfg-IsAllowed cfg h =
      let (strong, h1) = refuse_if-eq-ok cfg.cipher_policy.allow_weak_suites _ _ h in
      let (named, h2) = refuse_if-eq-ok _ _ _ h1 in
      let (own, h3) = refuse_if-eq-ok _ _ _ h2 in
      record {
        strong_suites = strong;
        named_server = both_false _ _ named;
        own_identity = both_false _ _ own;
      }

  unfoldable pub perform : HandshakeCall → DtlsBackendAdapter → Answer
  perform (call_start_client cfg) self = start_client is_blank cfg self
  perform (call_start_server cfg) self = start_server is_blank cfg self
  perform (call_datagram datagram) self = on_datagram datagram self
  perform (call_timeout now_ms) self = on_timeout now_ms self

  unfoldable pub run : List HandshakeCall → DtlsBackendAdapter → DtlsBackendAdapter
  run [] self = self
  run (call ∷ calls) self = run calls (perform call self).0

  record IsProper (self : DtlsBackendAdapter) : Type 0 where
    checked : (cfg : HandshakeConfig) → self.cfg ≡ some cfg → validate_cfg is_blank cfg ≡ ok tt
    started : self.established ≡ true → (cfg : HandshakeConfig) × (self.cfg ≡ some cfg)

  -- What a call leaves: a proper adapter, which is established where the result says so.
  record Keeps (a : Answer) : Type 0 where
    proper : IsProper a.0
    honest : reports a.1 ≡ true → a.0.established ≡ true

  refusing : (self : DtlsBackendAdapter) (e : CryptoError) → IsProper self → Keeps (self, err e)
  refusing self e p = record { proper = p; honest = λ h. cc }

  now_established :
      (cfg : HandshakeConfig) (out : HandshakeOutput) (self : DtlsBackendAdapter)
      → self.cfg ≡ some cfg
      → IsProper self
      → Keeps (record self { established = true }, ok out)
  now_established cfg out self at_ p = record {
    proper = record { checked = p.checked; started = λ _. (cfg, at_) };
    honest = λ _. refl;
  }

  progress-Keeps :
      (role : AdapterRole) (cfg : HandshakeConfig) (datagram : List ℕ) (self : DtlsBackendAdapter)
      → self.cfg ≡ some cfg
      → IsProper self
      → Keeps (progress role cfg datagram self)
  unfolding progress
  progress-Keeps client cfg datagram self at_ p =
      if-elim Keeps (same_bytes datagram server_hello) (λ _. now_established cfg _ self at_ p)
        (λ _. refusing self _ p)
  progress-Keeps server cfg datagram self at_ p =
      if-elim Keeps (same_bytes datagram client_hello) (λ _. now_established cfg _ self at_ p)
        (λ _. refusing self _ p)

  on_started-Keeps :
      (role : Option AdapterRole) (cfg : Option HandshakeConfig) (datagram : List ℕ)
      (self : DtlsBackendAdapter)
      → self.cfg ≡ cfg
      → IsProper self
      → Keeps (on_started role cfg datagram self)
  on_started-Keeps none cfg datagram self at_ p = refusing self _ p
  on_started-Keeps (some role) none datagram self at_ p = refusing self _ p
  on_started-Keeps (some role) (some cfg) datagram self at_ p =
      if-elim Keeps self.established (λ e. record { proper = p; honest = λ _. e })
        (λ _. progress-Keeps role cfg datagram self at_ p)

  start-Keeps :
      (role : AdapterRole) (outbound : List (List ℕ)) (cfg : HandshakeConfig)
      (self : DtlsBackendAdapter)
      → IsProper self
      → Keeps (start is_blank role outbound cfg self)
  unfolding start
  start-Keeps role outbound cfg self p = elim (Result-cases (validate_cfg is_blank cfg)) [
    | inr (reason, e) ↦ rw (e, start) (refusing self reason p)
    | inl (u, e) ↦
        rw (e, start)
          (record {
            proper = record {
              checked = λ c at_. ap (validate_cfg is_blank) (sym (some-injective at_)) ∙ e;
              started = λ h. cc;
            };
            honest = λ h. cc;
          })
  ]

  perform-Keeps :
      (call : HandshakeCall) (self : DtlsBackendAdapter) → IsProper self → Keeps (perform call self)
  unfolding perform on_datagram on_timeout
  perform-Keeps (call_start_client cfg) self p = start-Keeps client (client_hello ∷ []) cfg self p
  perform-Keeps (call_start_server cfg) self p = start-Keeps server [] cfg self p
  perform-Keeps (call_datagram datagram) self p =
      on_started-Keeps self.role self.cfg datagram self refl p
  perform-Keeps (call_timeout now_ms) self p =
      if-elim Keeps self.established (λ e. record { proper = p; honest = λ _. e })
        (λ _. refusing self _ p)

  run-IsProper :
      (calls : List HandshakeCall) (self : DtlsBackendAdapter)
      → IsProper self
      → IsProper (run calls self)
  unfolding run
  run-IsProper [] self p = p
  run-IsProper (call ∷ calls) self p = run-IsProper calls _ (perform-Keeps call self p).proper

  -- Whatever is called of a new adapter, in any order, a call that reports the session as established
  -- leaves it with a configuration that the policy allows: no weak suites, a server name where
  -- host names are verified, a client identity for mutual TLS.
  pub run-IsAllowed :
      (calls : List HandshakeCall) (call : HandshakeCall)
      → reports (perform call (run calls new)).1 ≡ true
      → (cfg : HandshakeConfig) × ((perform call (run calls new)).0.cfg ≡ some cfg) × IsAllowed cfg
  run-IsAllowed calls call h =
      let fresh : IsProper new = record { checked = λ c e. cc; started = λ e. cc } in
      let k = perform-Keeps call (run calls new) (run-IsProper calls new fresh) in
      let (cfg, at_) = k.proper.started (k.honest h) in
      (cfg, at_, validate_cfg-IsAllowed cfg (k.proper.checked cfg at_))
