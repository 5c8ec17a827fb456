-- ===== src/Core/Acceptance.antt =====
-- When `validate_timer_proposal` of v3-core/src/lib.rs accepts.
use todero_protocol_native.Base.{
  ℕ, ◌+◌, ◌*◌, ◌≤◌, ◌≡◌, ◌↔◌, false, arith, ltb_false→le, le→ltb_false, ok, not, ltb,
  refuse_if-eq-ok,
}
use todero_protocol_native.Base.Words.{saturating_add_u64, saturating_mul_u64}
use todero_protocol_native.Core.Types.{CoreConfig, TimerProposal}
use todero_protocol_native.Core.Proposal.{within, validate_timer_proposal}

-- The proposals that a peer with the given timers accepts.
pub record IsAcceptable (current : CoreConfig) (p : TimerProposal) : Type 0 where
  pub interval_low : 1_000 ≤ p.msr_interval_ms
  pub interval_high : p.msr_interval_ms ≤ 120_000
  pub count_low : 1 ≤ p.miss_window_count
  pub count_high : p.miss_window_count ≤ 64
  pub step : p.miss_window_count ≤ current.miss_window_count + 2
  pub window_low : 5_000 ≤ p.disconnect_window_ms
  pub window_high : p.disconnect_window_ms ≤ 900_000
  pub covers_probes : p.msr_interval_ms * p.miss_window_count ≤ p.disconnect_window_ms

within-eq : (lo hi x : ℕ) → lo ≤ x → x ≤ hi → not (within lo hi x) ≡ false
within-eq lo hi x a b = ground arith

within-bounds : (lo hi x : ℕ) → not (within lo hi x) ≡ false → (lo ≤ x) × (x ≤ hi)
within-bounds lo hi x e = ground arith

-- A proposal is accepted exactly when its interval, count and window are within their limits, the
-- count goes up by two at most, and the disconnect window covers the probes; no sum or product of
-- the test saturates for those that are.
pub validate_timer_proposal_iff :
    (current : CoreConfig) (p : TimerProposal)
    → (validate_timer_proposal current p ≡ ok tt) ↔ IsAcceptable current p
unfolding validate_timer_proposal
validate_timer_proposal_iff current p =
    let interval_ms = p.msr_interval_ms in
    let count = p.miss_window_count in
    let window_ms = p.disconnect_window_ms in
    let most = saturating_add_u64 current.miss_window_count 2 in
    let probes = saturating_mul_u64 interval_ms count in
    (
      λ e.
          let (a, e1) = refuse_if-eq-ok (not (within 1_000 120_000 interval_ms)) _ _ e in
          let (b, e2) = refuse_if-eq-ok (not (within 1 64 count)) _ _ e1 in
          let (c, e3) = refuse_if-eq-ok (ltb most count) _ _ e2 in
          let (d, e4) = refuse_if-eq-ok (not (within 5_000 900_000 window_ms)) _ _ e3 in
          let (f, e5) = refuse_if-eq-ok (ltb window_ms probes) _ _ e4 in
          let interval = within-bounds 1_000 120_000 interval_ms a in
          let counts = within-bounds 1 64 count b in
          let window = within-bounds 5_000 900_000 window_ms d in
          record {
            interval_low = interval.0;
            interval_high = interval.1;
            count_low = counts.0;
            count_high = counts.1;
            step = omega (arith, ltb_false→le most count c);
            window_low = window.0;
            window_high = window.1;
            covers_probes = omega (arith, ltb_false→le window_ms probes f, window.1);
          },
      λ h. rw (within-eq 1_000 120_000 interval_ms h.interval_low h.interval_high) (
          rw (within-eq 1 64 count h.count_low h.count_high) (
            rw (le→ltb_false most count (omega arith)) (
              rw (within-eq 5_000 900_000 window_ms h.window_low h.window_high)
                (rw (le→ltb_false window_ms probes (omega arith)))))),
    )
