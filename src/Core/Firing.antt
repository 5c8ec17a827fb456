-- ===== src/Core/Firing.antt =====
-- `on_timer` of v3-core/src/lib.rs, which receives nothing.
use todero_protocol_native.Base.{
  if◌then◌else◌, ℕ, ◌≡◌, refl, ◌&&◌, ◌||◌, true, not, none, some, ok, if-elim, ltb, leb,
}
use todero_protocol_native.Base.Words.{saturating_add_u32, saturating_mul_u64, saturating_sub}
use todero_protocol_native.Wire.Buffer.{Buf}
use todero_protocol_native.Core.Types.{
  reactivating, lost, is_client, is_server, is_established, is_reactivating, is_lost, TimerId,
  Event, CoreMachine, no_output, Ctx, done, push_event, push_timer,
}
use todero_protocol_native.Core.Machine.{start, finish, set_state}
use todero_protocol_native.Core.Timers.{
  server_max_consecutive_msr, server_msr_timer, or_zero, probe, client_probe_timer,
  disconnect_timer, renegotiation_timer, on_timer,
}
use todero_protocol_native.Core.Flush.{delivered}
use todero_protocol_native.Core.Frame.{Ends, by_success, schedule_server_timers-Quiet}
use todero_protocol_native.Core.Inert.{
  Inert, Waits, finish-Inert, Inert-Quiet, Inert-bind, Inert-push, Inert-event, Inert-start,
  Inert-lost, idle, probing_is_live,
}

module _ ⦃buf : Buf⦄ where
  -- Another machine to go on from, with the same identity and the same messages received.
  pub changed :
      (self self' : CoreMachine)
      → self'.role ≡ self.role
      → self'.cid ≡ self.cid
      → (self.state ≡ lost → self'.state ≡ lost)
      → self'.last_ordered_rx ≡ self.last_ordered_rx
      → Inert self (start self')
  unfolding delivered
  changed self self' r c s o = record {
    role = r;
    cid = c;
    stays_lost = s;
    ordered = o;
    no_delivery = refl;
  }

  server_msr_timer-Waits : (now : ℕ) (self : CoreMachine) → Waits self (server_msr_timer now self)
  unfolding server_msr_timer
  server_msr_timer-Waits now self =
      let count = saturating_add_u32 self.server_consecutive_msr_without_client_msr 1 in
      let p =
        changed self (record self { server_consecutive_msr_without_client_msr = count }) refl refl
          (λ h. h) refl in
      if-elim (Waits self) (ltb server_max_consecutive_msr count)
        (λ _. finish-Inert (by_success (Inert-lost self _ p)))
        (λ _. finish-Inert (
          Inert-bind (Inert-push self.current_path_id _ _ p)
            (λ c q. by_success (Inert-Quiet q (schedule_server_timers-Quiet now c)))))

  probe-Inert :
      (now : ℕ) (self : CoreMachine)
      → (is_established self.state || is_reactivating self.state) ≡ true
      → Ends (Inert self) (probe now self)
  unfolding probe delivered
  probe-Inert now self e =
      let live = probing_is_live self.state e in
      let p =
        changed self (record self { state = reactivating }) refl refl (λ h. absurd (live h)) refl in
      if-elim (Ends (Inert self))
        (ltb (saturating_mul_u64 self.cfg.msr_interval_ms self.cfg.miss_window_count)
          (saturating_sub now (or_zero self.last_server_msr_at_ms)))
        (λ _.
          Inert-bind (Inert-push self.current_path_id _ _ p)
            (λ c q. by_success (Inert-event Event.reactivation_probe_sent c refl q)))
        (λ _. by_success (Inert-start self))

  pub push_timer-Inert :
      (self : CoreMachine) (id : TimerId) (at : ℕ) (c : Ctx)
      → Inert self c
      → Inert self (push_timer id at c)
  push_timer-Inert self id at c p = record {
    role = p.role;
    cid = p.cid;
    stays_lost = p.stays_lost;
    ordered = p.ordered;
    no_delivery = p.no_delivery;
  }

  client_probe_timer-Waits :
      (now : ℕ) (self : CoreMachine) → Waits self (client_probe_timer now self)
  unfolding client_probe_timer
  client_probe_timer-Waits now self =
      if-elim (Waits self) (is_established self.state || is_reactivating self.state)
        (λ e. finish-Inert (
          Inert-bind (probe-Inert now self e)
            (λ c p. by_success (push_timer-Inert self TimerId.client_probe _ c p))))
        (λ _. idle self)

  disconnect_timer-Waits : (now : ℕ) (self : CoreMachine) → Waits self (disconnect_timer now self)
  unfolding disconnect_timer
  disconnect_timer-Waits now self =
      elim self.disconnect_deadline_ms
        as (λ o. Waits self (elim o [
          | none ↦ (self, ok no_output)
          | some deadline ↦
              if leb deadline now && not (is_lost self.state)
              then finish (done (push_event Event.disconnected (set_state lost (start self))))
              else finish (done (push_timer TimerId.disconnect deadline (start self)))
        ])) [
          | none ↦ idle self
          | some deadline ↦
              if-elim (Waits self) (leb deadline now && not (is_lost self.state))
                (λ _. finish-Inert (by_success (Inert-lost self (start self) (Inert-start self))))
                (λ _. finish-Inert (
                  by_success
                    (push_timer-Inert self TimerId.disconnect deadline _ (Inert-start self))))
        ]

  renegotiation_timer-Waits :
      (now : ℕ) (self : CoreMachine) → Waits self (renegotiation_timer now self)
  unfolding renegotiation_timer delivered
  renegotiation_timer-Waits now self =
      elim self.pending_local_proposal
        as (λ o. Waits self (elim o [
          | none ↦ (self, ok no_output)
          | some pending ↦
              if leb pending.expires_at_ms now
              then finish (
                  done (
                    push_event (Event.timer_renegotiation_rolled_back pending.proposal_id)
                      (start (record self { pending_local_proposal = none }))))
              else (self, ok no_output)
        ])) [
          | none ↦ idle self
          | some pending ↦
              if-elim (Waits self) (leb pending.expires_at_ms now)
                (λ _. finish-Inert (
                  by_success (
                    Inert-event (Event.timer_renegotiation_rolled_back pending.proposal_id) _ refl (
                      changed self (record self { pending_local_proposal = none }) refl refl
                        (λ h. h) refl))))
                (λ _. idle self)
        ]

  pub on_timer-Waits :
      (now : ℕ) (id : TimerId) (self : CoreMachine) → Waits self (on_timer now id self)
  unfolding on_timer
  on_timer-Waits now TimerId.server_msr self =
      if-elim (Waits self) (is_server self.role && is_established self.state)
        (λ _. server_msr_timer-Waits now self) (λ _. idle self)
  on_timer-Waits now TimerId.client_probe self =
      if-elim (Waits self) (is_client self.role) (λ _. client_probe_timer-Waits now self)
        (λ _. idle self)
  on_timer-Waits now TimerId.disconnect self = disconnect_timer-Waits now self
  on_timer-Waits now TimerId.renegotiation_timeout self = renegotiation_timer-Waits now self
