-- ===== src/Examples/Guards.antt =====
-- The theorems of the policies around the handshake, at concrete inputs.
use todero_protocol_native.Base.{◌≤◌, ◌*◌, max, arith, List, [], ◌∷◌}
use todero_protocol_native.Crypto.Amplification
use todero_protocol_native.Crypto.Amplification.{
  Traffic, receives, sends, received_bytes, sent_bytes, sent_bytes-new,
}
use todero_protocol_native.Crypto.Replay.{ReplayWindow}
use todero_protocol_native.Crypto.Certificates.{CertMetadata}

abbrev traffic : List Traffic
traffic = receives 100 ∷ sends 250 ∷ sends 100 ∷ receives 50 ∷ sends 200 ∷ []

sent_bytes-new_example : sent_bytes traffic (Amplification.new 3) ≤ received_bytes traffic * max 3 1
sent_bytes-new_example = sent_bytes-new traffic 3 (omega arith)

abbrev window : ReplayWindow
window = record { max_seen = 9; bits = 5; window_size = 4 }

abbrev old_cert : CertMetadata
old_cert = record {
  cert_id = "old";
  fingerprint_sha256_hex = "aa";
  not_before_ms = 100;
  not_after_ms = 1_000;
}

abbrev new_cert : CertMetadata
new_cert = record {
  cert_id = "new";
  fingerprint_sha256_hex = "bb";
  not_before_ms = 700;
  not_after_ms = 2_000;
}
