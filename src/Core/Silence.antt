-- ===== src/Core/Silence.antt =====
-- A server of v3-core/src/lib.rs that hears nothing: its timers end the session.
use todero_protocol_native.Base.{
  ℕ, suc, ◌≤◌, ◌<◌, ◌≡◌, refl, true, false, not, ◌&&◌, List, [], ◌∷◌, Result, ok, err, if-elim, ltb,
  leb, arith, Option-cases, inl, inr, ltb_false→le,
}
use todero_protocol_native.Base.Words.{saturating_add_u32}
use todero_protocol_native.Wire.Buffer.{Buf}
use todero_protocol_native.Wire.{MessageType}
use todero_protocol_native.Core.Types.{
  server, established, lost, is_lost, is_server, is_client, is_established, TimerId, CoreMachine,
  CoreOutput, CoreError, done, ◌>>=◌,
}
use todero_protocol_native.Core.Codec.{encode_frame, encode_msr_payload}
use todero_protocol_native.Core.Handlers.{push_datagram, schedule_server_timers}
use todero_protocol_native.Core.Machine.{start, finish}
use todero_protocol_native.Core.Timers.{
  server_max_consecutive_msr, server_msr_timer, disconnect_timer, renegotiation_timer, on_timer,
}
use todero_protocol_native.Core.Firing.{on_timer-Waits}

-- A timer that fires, with the time.
abbrev pub Firing : Type 0
Firing = ℕ × TimerId

-- The count of the firings of the server's MSR timer goes up with one.
abbrev pub counted : TimerId → ℕ → ℕ
counted TimerId.server_msr n = suc n
counted TimerId.client_probe n = n
counted TimerId.disconnect n = n
counted TimerId.renegotiation_timeout n = n

abbrev pub msr_firings : List Firing → ℕ → ℕ
msr_firings [] n = n
msr_firings ((now, id) ∷ firings) n = msr_firings firings (counted id n)

-- The session is over, or the server waits and has sent at least `n` MSRs without an answer.
data Silent (n : ℕ) (self : CoreMachine) : Type 0 where
  over : self.state ≡ lost → Silent n self
  waiting :
      self.role ≡ server
      → self.state ≡ established
      → n ≤ self.server_consecutive_msr_without_client_msr
      → self.server_consecutive_msr_without_client_msr ≤ server_max_consecutive_msr
      → Silent n self

module _ ⦃buf : Buf⦄ where
  unfoldable pub fire_all : List Firing → CoreMachine → CoreMachine
  fire_all [] self = self
  fire_all ((now, id) ∷ firings) self = fire_all firings (on_timer now id self).0

  -- What is sent has no part in the state.
  sent-Silent :
      (n now path : ℕ) (r : Result CoreError (List ℕ)) (self : CoreMachine)
      → Silent n self
      → Silent n
          (finish
            (push_datagram path r (start self) >>= λ c. done (schedule_server_timers now c))).0
  unfolding schedule_server_timers
  sent-Silent n now path (err e) self s = s
  sent-Silent n now path (ok bytes) self (over e) = over e
  sent-Silent n now path (ok bytes) self (waiting r e low high) = waiting r e low high

  server_msr_timer-Silent :
      (n now : ℕ) (self : CoreMachine)
      → self.role ≡ server
      → self.state ≡ established
      → n ≤ self.server_consecutive_msr_without_client_msr
      → self.server_consecutive_msr_without_client_msr ≤ server_max_consecutive_msr
      → Silent (suc n) (server_msr_timer now self).0
  unfolding server_msr_timer
  server_msr_timer-Silent n now self r e low high =
      let count = saturating_add_u32 self.server_consecutive_msr_without_client_msr 1 in
      let next : CoreMachine = record self { server_consecutive_msr_without_client_msr = count } in
      if-elim {A = CoreMachine × Result CoreError CoreOutput} (λ p. Silent (suc n) p.0)
        (ltb server_max_consecutive_msr count) (λ _. over refl)
        (λ few.
          sent-Silent (suc n) now next.current_path_id
            (encode_frame MessageType.msr next.cid (encode_msr_payload next.last_ordered_rx 0)) next
            (waiting r e (omega (arith, low, high))
              (ltb_false→le server_max_consecutive_msr count few)))

  disconnect_timer-Silent :
      (n now : ℕ) (self : CoreMachine) → Silent n self → Silent n (disconnect_timer now self).0
  unfolding disconnect_timer
  disconnect_timer-Silent n now self s = elim (Option-cases self.disconnect_deadline_ms) [
    | inl e ↦ rw (e, disconnect_timer) s
    | inr (deadline, e) ↦
        rw (e, disconnect_timer)
          (if-elim {A = CoreMachine × Result CoreError CoreOutput} (λ p. Silent n p.0)
            (leb deadline now && not (is_lost self.state)) (λ _. over refl) (λ _. s))
  ]

  renegotiation_timer-Silent :
      (n now : ℕ) (self : CoreMachine) → Silent n self → Silent n (renegotiation_timer now self).0
  unfolding renegotiation_timer
  renegotiation_timer-Silent n now self s = elim (Option-cases self.pending_local_proposal) [
    | inl e ↦ rw (e, renegotiation_timer) s
    | inr (pending, e) ↦
        rw (e, renegotiation_timer)
          (if-elim {A = CoreMachine × Result CoreError CoreOutput} (λ p. Silent n p.0)
            (leb pending.expires_at_ms now)
            (λ _. elim s [ over e ↦ over e | waiting r e low high ↦ waiting r e low high ])
            (λ _. s))
  ]

  on_timer-Silent :
      (n now : ℕ) (id : TimerId) (self : CoreMachine)
      → Silent n self
      → Silent (counted id n) (on_timer now id self).0
  unfolding on_timer
  on_timer-Silent n now id self (over e) = over ((on_timer-Waits now id self).stays_lost e)
  on_timer-Silent n now TimerId.server_msr self (waiting r e low high) =
      let up : (is_server self.role && is_established self.state) ≡ true = rw (r, e) in
      rw up (server_msr_timer-Silent n now self r e low high)
  on_timer-Silent n now TimerId.client_probe self (waiting r e low high) =
      let none_ : is_client self.role ≡ false = rw r in rw none_ (waiting r e low high)
  on_timer-Silent n now TimerId.disconnect self (waiting r e low high) =
      disconnect_timer-Silent n now self (waiting r e low high)
  on_timer-Silent n now TimerId.renegotiation_timeout self (waiting r e low high) =
      renegotiation_timer-Silent n now self (waiting r e low high)

  fire_all-Silent :
      (firings : List Firing) (n : ℕ) (self : CoreMachine)
      → Silent n self
      → Silent (msr_firings firings n) (fire_all firings self)
  unfolding fire_all
  fire_all-Silent [] n self s = s
  fire_all-Silent ((now, id) ∷ firings) n self s =
      fire_all-Silent firings (counted id n) (on_timer now id self).0
        (on_timer-Silent n now id self s)

  -- An established server whose timers fire, in any order and at any times, and that hears nothing in
  -- between, ends the session: it is lost once its MSR timer has fired as often as brings its count
  -- of unanswered MSRs above the limit of 8.
  pub fire_all-lost :
      (firings : List Firing) (self : CoreMachine)
      → self.role ≡ server
      → self.state ≡ established
      → self.server_consecutive_msr_without_client_msr ≤ server_max_consecutive_msr
      → server_max_consecutive_msr
        < msr_firings firings self.server_consecutive_msr_without_client_msr
      → (fire_all firings self).state ≡ lost
  fire_all-lost firings self r e high many =
      let n = self.server_consecutive_msr_without_client_msr in
      elim (fire_all-Silent firings n self (waiting r e (omega arith) high)) [
        | over done_ ↦ done_
        | waiting r2 e2 low2 high2 ↦ absurd (omega (arith, low2, high2, many))
      ]
