-- ===== src/Core/Session.antt =====
-- Whole runs of the machine of v3-core/src/lib.rs: any of its public operations, one after the other.
use todero_protocol_native.Base.{
  ℕ, ◌≡◌, refl, ◌∙◌, ◌&&◌, not, List, [], Result, ok, err, if-elim, inl, inr, ◌==◌, Result-cases,
}
use todero_protocol_native.Wire.Buffer.{Buf}
use todero_protocol_native.Wire.{WireFrame, decode}
use todero_protocol_native.Core.Types.{
  LifecycleState, lost, is_client, is_server, is_established, CoreMachine, CoreOutput, CoreError,
  Ctx, Outcome, done, failed, ◌>>=◌,
}
use todero_protocol_native.Core.Handlers.{on_valid_peer_datagram}
use todero_protocol_native.Core.Machine.{start, finish, receive, piggyback, on_frame, on_datagram}
use todero_protocol_native.Core.Flush.{delivered, ids_after, advance}
use todero_protocol_native.Core.Frame.{
  Progress, stays, ends, Quiet, Quiet-refl, Ends, by_success, by_error,
}
use todero_protocol_native.Core.Delivery.{
  Delivers, Quiet-Delivers, Delivers-trans, Handles, handled, rejected,
}
use todero_protocol_native.Core.Lifecycle.{dispatch-Handles, piggyback-Quiet}
use todero_protocol_native.Core.Settled.{Settled, settled, piggyback-Settled}

-- The ids that the caller sees: an error has no output.
unfoldable pub delivered_by : Result CoreError CoreOutput → List ℕ
delivered_by (ok out) = delivered out.events
delivered_by (err e) = []

-- What an operation does to the machine, and what its caller sees.
pub record Advances (self : CoreMachine) (r : CoreMachine × Result CoreError CoreOutput)
    : Type 0 where
  pub role : r.0.role ≡ self.role
  pub cid : r.0.cid ≡ self.cid
  pub stays_lost : self.state ≡ lost → r.0.state ≡ lost
  pub count : ℕ
  pub ordered : r.0.last_ordered_rx ≡ advance self.last_ordered_rx count
  pub ids : delivered_by r.1 ≡ ids_after self.last_ordered_rx count

pub Progress-lost : {s t : LifecycleState} → Progress s t → s ≡ lost → t ≡ lost
Progress-lost stays e = e
Progress-lost Progress.establishes e = cc
Progress-lost Progress.reactivates e = cc
Progress-lost ends e = refl

finish-Advances :
    (self : CoreMachine) (c : Ctx) → Delivers (start self) c → Advances self (finish (done c))
unfolding delivered_by delivered
finish-Advances self c d = record {
  role = d.role;
  cid = d.cid;
  stays_lost = Progress-lost d.progress;
  count = d.count;
  ordered = d.ordered;
  ids = d.ids;
}

failed-Advances :
    (self : CoreMachine) (e : CoreError) (c : Ctx)
    → Delivers (start self) c
    → c.self.last_ordered_rx ≡ self.last_ordered_rx
    → Advances self (finish (failed e c))
unfolding delivered_by advance ids_after
failed-Advances self e c d same = record {
  role = d.role;
  cid = d.cid;
  stays_lost = Progress-lost d.progress;
  count = 0;
  ordered = same;
  ids = refl;
}

untouched : (self : CoreMachine) (e : CoreError) → Advances self (self, err e)
untouched self e =
    failed-Advances self e (start self) (Quiet-Delivers (Quiet-refl (start self))) refl

Settled-Advances :
    (self : CoreMachine) {c : Ctx} {m : Outcome}
    → Delivers (start self) c
    → Ends (Quiet c) m
    → Settled m
    → Advances self (finish m)
Settled-Advances self d (by_success q) settled =
    finish-Advances self _ (Delivers-trans d (Quiet-Delivers q))
Settled-Advances self d (by_error q) s = elim s [ ]

respond :
    (self : CoreMachine) {c : Ctx} {m : Outcome} (f : Ctx → Outcome)
    → Quiet (start self) c
    → Handles c m
    → ((c1 : Ctx) → Ends (Quiet c1) (f c1))
    → ((c1 : Ctx) → Settled (f c1))
    → Advances self (finish (m >>= f))
respond self f q (handled {c' = c'} d) k s =
    Settled-Advances self (Delivers-trans (Quiet-Delivers q) d) (k c') (s c')
respond self f q (rejected {e = e} {c' = c'} d same) k s =
    failed-Advances self e c' (Delivers-trans (Quiet-Delivers q) d) (same ∙ q.ordered)

module _ ⦃buf : Buf⦄ where
  -- The machine before a message is looked at.
  receive-Quiet :
      (now path : ℕ) (self : CoreMachine) → Quiet (start self) (start (receive now path self))
  unfolding receive on_valid_peer_datagram
  receive-Quiet now path self =
      if-elim (λ m. Quiet (start self) (start m)) (not (is_established self.state))
        (λ _. search stays)
        (λ _.
          if-elim (λ m. Quiet (start self) (start m)) (is_client self.role) (λ _. search stays)
            (λ _.
              if-elim (λ m. Quiet (start self) (start m)) (is_server self.role) (λ _. search stays)
                (λ _. search stays)))

  pub on_frame-Advances :
      (now path : ℕ) (frame : WireFrame) (self : CoreMachine)
      → Advances self (on_frame now path frame self)
  unfolding on_frame
  on_frame-Advances now path frame self =
      if-elim (Advances self) (not (self.cid == 0) && not (frame.cid == self.cid))
        (λ _. untouched self _)
        (λ _.
          respond self (piggyback now path frame) (receive-Quiet now path self)
            (dispatch-Handles frame.message_type now path frame _) (piggyback-Quiet now path frame)
            (piggyback-Settled now path frame))

  -- Whatever the bytes are, `on_datagram` keeps the role and the connection id, leaves a lost machine
  -- lost, and delivers the messages that come right behind the last one, in order, and moves the
  -- last ordered id on by as many; with an error it delivers none and keeps the id.
  pub on_datagram-Advances :
      (now path : ℕ) (bytes : List ℕ) (self : CoreMachine)
      → Advances self (on_datagram now path bytes self)
  unfolding on_datagram delivered_by delivered advance ids_after
  on_datagram-Advances now path bytes self = elim (Result-cases (decode bytes)) [
    | inl (frame, e) ↦ rw (e, on_datagram) (on_frame-Advances now path frame self)
    | inr (_, e) ↦
        rw (e, on_datagram)
          (record {
            role = refl;
            cid = refl;
            stays_lost = λ h. h;
            count = 0;
            ordered = refl;
            ids = refl;
          })
  ]
