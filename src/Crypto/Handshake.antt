-- ===== src/Crypto/Handshake.antt =====
-- `DtlsBackendAdapter` of v3-crypto/src/lib.rs, the adapter behind the trait `HandshakeProvider`, with the
-- data of the trait. A method takes the adapter and gives the adapter after it and its result.
use Prim.Native.String.{String}
use todero_protocol_native.Base.{
  ℕ, Bool, true, false, ◌&&◌, List, [], ◌∷◌, Option, none, some, Result, ok, err, ◌>>◌, refuse_if,
  if◌then◌else◌, ◌==◌,
}
use todero_protocol_native.Crypto.FrameAuth.{CryptoError, invalid_config, auth_failed, provider}

pub data DtlsVersion : Type 0 where
  dtls12 dtls13 : DtlsVersion

pub data AuthProfile : Type 0 where
  server_auth mutual_tls : AuthProfile

pub record CipherPolicy : Type 0 where
  pub min_dtls_version : DtlsVersion
  pub allow_weak_suites : Bool

pub record TrustConfig : Type 0 where
  pub trust_anchor_pems : List (List ℕ)
  pub require_hostname_verification : Bool

pub record ClientIdentityRef : Type 0 where
  pub key_id : String
  pub cert_chain_ids : List String

pub record HandshakeConfig : Type 0 where
  pub profile : AuthProfile
  pub cipher_policy : CipherPolicy
  pub trust : TrustConfig
  pub client_identity : Option ClientIdentityRef
  pub expected_server_name : Option String

pub record PeerIdentity : Type 0 where
  pub subject : String
  pub cert_fingerprint_sha256 : List ℕ

pub record ExporterBinding : Type 0 where
  pub cid : ℕ
  pub path_id : ℕ
  pub context_hash : List ℕ

pub record HandshakeOutput : Type 0 where
  -- The bytes of each datagram.
  pub outbound_datagrams : List (List ℕ)
  pub established : Bool
  pub peer_identity : Option PeerIdentity
  pub binding : Option ExporterBinding

pub data AdapterRole : Type 0 where
  client server : AdapterRole

pub record DtlsBackendAdapter : Type 0 where
  pub role : Option AdapterRole
  pub cfg : Option HandshakeConfig
  pub established : Bool

abbrev pub new : DtlsBackendAdapter
new = record { role = none; cfg = none; established = false }

-- `b"DTLS_CLIENT_HELLO"` and `b"DTLS_SERVER_HELLO"`
abbrev pub client_hello : List ℕ
client_hello =
    68 ∷ 84 ∷ 76 ∷ 83 ∷ 95 ∷ 67 ∷ 76 ∷ 73 ∷ 69 ∷ 78 ∷ 84 ∷ 95 ∷ 72 ∷ 69 ∷ 76 ∷ 76 ∷ 79 ∷ []

abbrev pub server_hello : List ℕ
server_hello =
    68 ∷ 84 ∷ 76 ∷ 83 ∷ 95 ∷ 83 ∷ 69 ∷ 82 ∷ 86 ∷ 69 ∷ 82 ∷ 95 ∷ 72 ∷ 69 ∷ 76 ∷ 76 ∷ 79 ∷ []

abbrev pub same_bytes : List ℕ → List ℕ → Bool
same_bytes [] [] = true
same_bytes [] (y ∷ ys) = false
same_bytes (x ∷ xs) [] = false
same_bytes (x ∷ xs) (y ∷ ys) = x == y && same_bytes xs ys

-- `[b; n]`
abbrev pub repeated : ℕ → ℕ → List ℕ
repeated b ℕ.zero = []
repeated b (ℕ.suc n) = b ∷ repeated b n

abbrev pub is_mutual_tls : AuthProfile → Bool
is_mutual_tls server_auth = false
is_mutual_tls mutual_tls = true

abbrev pub is_none {ℓ} : {A : Type ℓ} → Option A → Bool
is_none none = true
is_none (some a) = false

abbrev pub unwrap_or {ℓ} : {A : Type ℓ} → Option A → A → A
unwrap_or none d = d
unwrap_or (some a) d = a

abbrev pub established_output : HandshakeConfig → HandshakeOutput
established_output cfg = record {
  outbound_datagrams = [];
  established = true;
  peer_identity = some (record {
    subject = unwrap_or cfg.expected_server_name "peer";
    cert_fingerprint_sha256 = repeated 7 32;
  });
  binding = some (record { cid = 0; path_id = 0; context_hash = repeated 9 32 });
}

abbrev pub Answer : Type 0
Answer = DtlsBackendAdapter × Result CryptoError HandshakeOutput

-- `on_datagram` once the handshake is known to have been started.
unfoldable pub progress : AdapterRole → HandshakeConfig → List ℕ → DtlsBackendAdapter → Answer
progress client cfg datagram self =
    if same_bytes datagram server_hello
    then (record self { established = true }, ok (established_output cfg))
    else (self, err (auth_failed "unexpected handshake response"))
progress server cfg datagram self =
    if same_bytes datagram client_hello
    then (
      record self { established = true },
      ok (record {
        outbound_datagrams = server_hello ∷ [];
        established = true;
        peer_identity =
            some (record { subject = "client"; cert_fingerprint_sha256 = repeated 5 32 });
        binding = some (record { cid = 0; path_id = 0; context_hash = repeated 11 32 });
      }),
    )
    else (self, err (auth_failed "unexpected client hello"))

abbrev pub on_started :
    Option AdapterRole → Option HandshakeConfig → List ℕ → DtlsBackendAdapter → Answer
on_started none cfg datagram self = (self, err (provider "handshake not started"))
on_started (some role) none datagram self = (self, err (provider "missing config"))
on_started (some role) (some cfg) datagram self =
    if self.established
    then (self, ok (established_output cfg))
    else progress role cfg datagram self

unfoldable pub on_datagram : List ℕ → DtlsBackendAdapter → Answer
on_datagram datagram self = on_started self.role self.cfg datagram self

unfoldable pub on_timeout : ℕ → DtlsBackendAdapter → Answer
on_timeout now_ms self =
    if self.established
    then (
      self,
      ok (record {
        outbound_datagrams = [];
        established = true;
        peer_identity = none;
        binding = none;
      }),
    )
    else (self, err (provider "handshake timed out"))

-- `is_blank` is `trim().is_empty()` of std.
module _ (is_blank : String → Bool) where
  unfoldable pub validate_cfg : HandshakeConfig → Result CryptoError (Unit {0})
  validate_cfg cfg =
      refuse_if cfg.cipher_policy.allow_weak_suites
        (invalid_config "weak cipher suites are not allowed")
      >> (refuse_if
            (cfg.trust.require_hostname_verification
              && is_blank (unwrap_or cfg.expected_server_name ""))
            (invalid_config "expected_server_name required when hostname verification is enabled")
          >> (refuse_if (is_mutual_tls cfg.profile && is_none cfg.client_identity)
                (invalid_config "client identity required for mutual TLS profile")
              >> ok tt))

  -- `start_client` and `start_server`, by the role and the datagrams that they send.
  unfoldable pub start : AdapterRole → List (List ℕ) → HandshakeConfig → DtlsBackendAdapter → Answer
  start role outbound cfg self = elim (validate_cfg cfg) [
    | err e ↦ (self, err e)
    | ok _ ↦ (
      record { role = some role; cfg = some cfg; established = false },
      ok (record {
        outbound_datagrams = outbound;
        established = false;
        peer_identity = none;
        binding = none;
      }),
    )
  ]

  abbrev pub start_client : HandshakeConfig → DtlsBackendAdapter → Answer
  start_client cfg self = start client (client_hello ∷ []) cfg self

  abbrev pub start_server : HandshakeConfig → DtlsBackendAdapter → Answer
  start_server cfg self = start server [] cfg self
