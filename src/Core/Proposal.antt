-- ===== src/Core/Proposal.antt =====
-- `validate_timer_proposal` of v3-core/src/lib.rs.
use todero_protocol_native.Base.{ℕ, Result, ok, refuse_if, ◌>>◌, not, ◌&&◌, ltb, leb}
use todero_protocol_native.Base.Words.{saturating_add_u64, saturating_mul_u64}
use todero_protocol_native.Core.Types.{CoreConfig, TimerProposal, CoreError, invalid_timer_proposal}
use todero_protocol_native.Base.{Bool}

-- `(lo..=hi).contains(&x)`
abbrev pub within : ℕ → ℕ → ℕ → Bool
within lo hi x = leb lo x && leb x hi

unfoldable pub validate_timer_proposal : CoreConfig → TimerProposal → Result CoreError (Unit {0})
validate_timer_proposal current proposal = do
  refuse_if (not (within 1_000 120_000 proposal.msr_interval_ms))
      (invalid_timer_proposal "msr_interval_ms out of bounds")
  refuse_if (not (within 1 64 proposal.miss_window_count))
      (invalid_timer_proposal "miss_window_count out of bounds")
  refuse_if (ltb (saturating_add_u64 current.miss_window_count 2) proposal.miss_window_count)
      (invalid_timer_proposal "miss_window_count step too large")
  refuse_if (not (within 5_000 900_000 proposal.disconnect_window_ms))
      (invalid_timer_proposal "disconnect_window_ms out of bounds")
  refuse_if
      (ltb proposal.disconnect_window_ms
        (saturating_mul_u64 proposal.msr_interval_ms proposal.miss_window_count))
      (invalid_timer_proposal "disconnect_window_ms smaller than probe window")
  ok tt
