-- ===== src/Crypto/Certificates.antt =====
-- Expiry alarms and rotation plans of v3-crypto/src/lib.rs.
use Prim.Native.String.{String}
use todero_protocol_native.Base.{
  ℕ, ◌+◌, ◌*◌, ◌≤◌, ◌<◌, ◌≡◌, min, max, Bool, true, if◌then◌else◌, leb, arith, ◌↔◌,
}
use todero_protocol_native.Base.Words.{saturating_sub}

pub record CertMetadata : Type 0 where
  pub cert_id : String
  pub fingerprint_sha256_hex : String
  pub not_before_ms : ℕ
  pub not_after_ms : ℕ

pub data ExpiryAlarmLevel : Type 0 where
  no_alarm warning_30d high_14d critical_7d expired : ExpiryAlarmLevel

abbrev pub day_ms : ℕ
day_ms = 24 * 60 * 60 * 1000

unfoldable pub expiry_alarm_level : ℕ → CertMetadata → ExpiryAlarmLevel
expiry_alarm_level now_ms cert =
    let remaining_ms = saturating_sub cert.not_after_ms now_ms in
    if leb cert.not_after_ms now_ms
    then expired
    else if leb remaining_ms (7 * day_ms)
    then critical_7d
    else if leb remaining_ms (14 * day_ms)
    then high_14d
    else if leb remaining_ms (30 * day_ms)
    then warning_30d
    else no_alarm

pub record RotationPlan : Type 0 where
  pub old_cert_id : String
  pub new_cert_id : String
  pub overlap_start_ms : ℕ
  pub overlap_end_ms : ℕ
  pub can_rotate_without_downtime : Bool

unfoldable pub plan_rotation : ℕ → CertMetadata → CertMetadata → ℕ → RotationPlan
plan_rotation now_ms old_cert new_cert min_overlap_ms =
    let overlap_start = max (max old_cert.not_before_ms new_cert.not_before_ms) now_ms in
    let overlap_end = min old_cert.not_after_ms new_cert.not_after_ms in
    let overlap = saturating_sub overlap_end overlap_start in
    record {
      old_cert_id = old_cert.cert_id;
      new_cert_id = new_cert.cert_id;
      overlap_start_ms = overlap_start;
      overlap_end_ms = overlap_end;
      can_rotate_without_downtime = leb min_overlap_ms overlap;
    }

-- For an overlap of at least one millisecond, a rotation is planned without downtime exactly when
-- from now on both certificates are valid together for at least that long.
pub plan_rotation_iff :
    (now : ℕ) (old new : CertMetadata) (overlap : ℕ)
    → 0 < overlap
    → ((plan_rotation now old new overlap).can_rotate_without_downtime ≡ true) ↔ (
        (now + overlap ≤ old.not_after_ms)
        × (now + overlap ≤ new.not_after_ms)
        × (old.not_before_ms + overlap ≤ old.not_after_ms)
        × (old.not_before_ms + overlap ≤ new.not_after_ms)
        × (new.not_before_ms + overlap ≤ old.not_after_ms)
        × (new.not_before_ms + overlap ≤ new.not_after_ms))
unfolding plan_rotation
plan_rotation_iff now old new overlap h = ground arith

-- The alarm says that a certificate has expired exactly from the end of its validity on, and that
-- nothing is due exactly where more than 30 days are left.
pub expiry_alarm_level_iff :
    (now : ℕ) (cert : CertMetadata)
    → ((expiry_alarm_level now cert ≡ expired) ↔ (cert.not_after_ms ≤ now))
      × ((expiry_alarm_level now cert ≡ no_alarm) ↔ (now + 30 * day_ms < cert.not_after_ms))
unfolding expiry_alarm_level
expiry_alarm_level_iff now cert = (ground arith, ground arith)
