-- ===== src/Core/Runs.antt =====
-- Whole runs of the machine of v3-core/src/lib.rs: its public operations, one after the other.
use todero_protocol_native.Base.{
  ℕ, zero, suc, ◌+◌, ◌%◌, ◌^◌, ◌<◌, ◌≡◌, refl, sym, ◌∙◌, ap, List, [], ◌∷◌, ◌++◌, some, Result,
  length, get_elem?, some-injective, arith,
}
use todero_protocol_native.Base.Words.{add_u64}
use todero_protocol_native.Wire.Buffer.{Buf}
use todero_protocol_native.Core.Types.{
  Role, lost, TimerId, TimerProposal, PathEvent, CoreMachine, CoreOutput, CoreError, CoreConfig,
  new,
}
use todero_protocol_native.Core.Machine.{begin_handshake, on_datagram}
use todero_protocol_native.Core.Timers.{on_timer}
use todero_protocol_native.Core.Api.{
  on_path_event, on_api_send, on_api_close, on_api_propose_timers,
}
use todero_protocol_native.Core.Flush.{ids_after, advance, ids_after-append, advance-add}
use todero_protocol_native.Core.Session.{delivered_by, Advances, on_datagram-Advances}
use todero_protocol_native.Core.Inert.{Waits-Advances}
use todero_protocol_native.Core.Firing.{on_timer-Waits}
use todero_protocol_native.Core.Operations.{
  begin_handshake-Waits, on_api_send-Waits, on_api_close-Waits, on_api_propose_timers-Waits,
  on_path_event-Waits,
}

-- A call of one of the machine's public methods, with its arguments.
pub data Call : Type 0 where
  call_begin_handshake call_api_close : Call
  -- `now_ms`, `src_path_id` and `bytes`
  call_datagram : ℕ → ℕ → List ℕ → Call
  call_timer : ℕ → TimerId → Call
  call_api_send : List ℕ → Call
  call_api_propose_timers : ℕ → TimerProposal → Call
  call_path_event : PathEvent → Call

get_elem?-ids_after :
    (n rx i id : ℕ) → get_elem? (ids_after rx n) i ≡ some id → id ≡ (rx + (i + 1)) % 2 ^ 64
unfolding ids_after
get_elem?-ids_after zero rx i id e = cc
get_elem?-ids_after (suc n) rx zero id e = sym (some-injective e)
get_elem?-ids_after (suc n) rx (suc i) id e =
    let h = get_elem?-ids_after n (add_u64 rx 1) i id e in omega (arith, h)

length-ids_after : (n rx : ℕ) → length (ids_after rx n) ≡ n
unfolding ids_after
length-ids_after zero rx = refl
length-ids_after (suc n) rx = ap suc (length-ids_after n (add_u64 rx 1))

advance-eq : (n rx : ℕ) → rx < 2 ^ 64 → advance rx n ≡ (rx + n) % 2 ^ 64
unfolding advance
advance-eq zero rx h = omega (arith, h)
advance-eq (suc n) rx h = let e = advance-eq n (add_u64 rx 1) (omega arith) in omega (arith, e)

module _ ⦃buf : Buf⦄ where
  unfoldable pub perform : Call → CoreMachine → CoreMachine × Result CoreError CoreOutput
  perform call_begin_handshake self = begin_handshake self
  perform call_api_close self = on_api_close self
  perform (call_datagram now_ms path bytes) self = on_datagram now_ms path bytes self
  perform (call_timer now_ms id) self = on_timer now_ms id self
  perform (call_api_send payload) self = on_api_send payload self
  perform (call_api_propose_timers now_ms p) self = on_api_propose_timers now_ms p self
  perform (call_path_event e) self = on_path_event e self

  -- The machine after the calls, and the ids that their callers saw delivered, in order.
  unfoldable pub run : List Call → CoreMachine → CoreMachine × List ℕ
  run [] self = (self, [])
  run (call ∷ calls) self =
      let r = perform call self in let rest = run calls r.0 in (rest.0, delivered_by r.1 ++ rest.1)

  pub perform-Advances : (call : Call) (self : CoreMachine) → Advances self (perform call self)
  unfolding perform
  perform-Advances call_begin_handshake self = Waits-Advances (begin_handshake-Waits self)
  perform-Advances call_api_close self = Waits-Advances (on_api_close-Waits self)
  perform-Advances (call_datagram now path bytes) self = on_datagram-Advances now path bytes self
  perform-Advances (call_timer now id) self = Waits-Advances (on_timer-Waits now id self)
  perform-Advances (call_api_send payload) self = Waits-Advances (on_api_send-Waits payload self)
  perform-Advances (call_api_propose_timers now p) self =
      Waits-Advances (on_api_propose_timers-Waits now p self)
  perform-Advances (call_path_event e) self = Waits-Advances (on_path_event-Waits e self)

  run-ids :
      (calls : List Call) (self : CoreMachine)
      → (n : ℕ) × ((run calls self).0.last_ordered_rx ≡ advance self.last_ordered_rx n)
        × ((run calls self).1 ≡ ids_after self.last_ordered_rx n)
  unfolding run advance ids_after
  run-ids [] self = (0, refl, refl)
  run-ids (call ∷ calls) self =
      let a = perform-Advances call self in
      let (n, ordered, ids) = run-ids calls (perform call self).0 in
      (
        a.count + n,
        ordered ∙ ap (λ rx. advance rx n) a.ordered ∙ advance-add self.last_ordered_rx a.count n,
        ap (λ xs. xs ++ (run calls (perform call self).0).1) a.ids
            ∙ ap (λ xs. ids_after self.last_ordered_rx a.count ++ xs)
                (ids ∙ ap (λ rx. ids_after rx n) a.ordered)
            ∙ ids_after-append self.last_ordered_rx a.count n,
      )

  -- No call changes the role or the connection id, and a lost machine stays lost.
  pub run_identity :
      (calls : List Call) (self : CoreMachine)
      → ((run calls self).0.role ≡ self.role)
        × ((run calls self).0.cid ≡ self.cid)
        × (self.state ≡ lost → (run calls self).0.state ≡ lost)
  unfolding run
  run_identity [] self = (refl, refl, λ h. h)
  run_identity (call ∷ calls) self =
      let a = perform-Advances call self in
      let (role, cid, stays_lost) = run_identity calls (perform call self).0 in
      (role ∙ a.role, cid ∙ a.cid, λ h. stays_lost (a.stays_lost h))

  -- Over any calls of a new machine's methods, in any order, with any datagrams and times, the
  -- callers see the messages delivered one after the other, from message 1 on: the one at index `i`
  -- is message `i + 1` (the ids wrap at 2 ^ 64), and the machine's last ordered id counts them.
  pub run-delivered :
      (calls : List Call) (role : Role) (cid : ℕ) (cfg : CoreConfig)
      → ((run calls (new role cid cfg)).0.last_ordered_rx
          ≡ length (run calls (new role cid cfg)).1 % 2 ^ 64)
        × ((i id : ℕ)
            → get_elem? (run calls (new role cid cfg)).1 i ≡ some id
            → id ≡ (i + 1) % 2 ^ 64)
  run-delivered calls role cid cfg =
      let (n, ordered, ids) = run-ids calls (new role cid cfg) in
      let end = advance-eq n 0 (omega arith) in
      let count = ap length ids ∙ length-ids_after n 0 in
      (
        omega (arith, ordered, end, count),
        λ i id e.
            let h = get_elem?-ids_after n 0 i id (ap (λ xs. get_elem? xs i) (sym ids) ∙ e) in
            omega (arith, h),
      )
