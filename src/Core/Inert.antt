-- ===== src/Core/Inert.antt =====
-- What the operations of v3-core/src/lib.rs that receive nothing leave alone.
use todero_protocol_native.Base.{ℕ, ◌≡◌, refl, ◌∙◌, ◌||◌, true, List, [], ◌∷◌, Result, ok, err}
use todero_protocol_native.Core.Types.{
  LifecycleState, established, reactivating, lost, is_established, is_reactivating, Event,
  CoreMachine, CoreOutput, no_output, CoreError, Ctx, Outcome, ◌>>=◌, push_event,
}
use todero_protocol_native.Core.Handlers.{push_datagram}
use todero_protocol_native.Core.Machine.{start, finish, set_state}
use todero_protocol_native.Core.Flush.{delivered, ids_after, advance}
use todero_protocol_native.Core.Frame.{
  Quiet, Ends, Ends-map, by_success, by_error, push_event-Quiet, push_datagram-Quiet,
}
use todero_protocol_native.Core.Session.{delivered_by, Advances, Progress-lost}

-- `c` comes from `self` by an operation that receives nothing.
pub record Inert (self : CoreMachine) (c : Ctx) : Type 0 where
  pub role : c.self.role ≡ self.role
  pub cid : c.self.cid ≡ self.cid
  pub stays_lost : self.state ≡ lost → c.self.state ≡ lost
  pub ordered : c.self.last_ordered_rx ≡ self.last_ordered_rx
  pub no_delivery : delivered c.out.events ≡ []

-- An operation that delivers nothing, and leaves the last ordered id alone.
pub record Waits (self : CoreMachine) (r : CoreMachine × Result CoreError CoreOutput) : Type 0 where
  pub role : r.0.role ≡ self.role
  pub cid : r.0.cid ≡ self.cid
  pub stays_lost : self.state ≡ lost → r.0.state ≡ lost
  pub ordered : r.0.last_ordered_rx ≡ self.last_ordered_rx
  pub no_delivery : delivered_by r.1 ≡ []

pub Waits-Advances :
    {self : CoreMachine} {r : CoreMachine × Result CoreError CoreOutput}
    → Waits self r
    → Advances self r
unfolding advance ids_after
Waits-Advances w = record {
  role = w.role;
  cid = w.cid;
  stays_lost = w.stays_lost;
  count = 0;
  ordered = w.ordered;
  ids = w.no_delivery;
}

pub finish-Inert : {self : CoreMachine} {m : Outcome} → Ends (Inert self) m → Waits self (finish m)
unfolding delivered_by
finish-Inert (by_success p) = record {
  role = p.role;
  cid = p.cid;
  stays_lost = p.stays_lost;
  ordered = p.ordered;
  no_delivery = p.no_delivery;
}
finish-Inert (by_error p) = record {
  role = p.role;
  cid = p.cid;
  stays_lost = p.stays_lost;
  ordered = p.ordered;
  no_delivery = refl;
}

pub Inert-Quiet : {self : CoreMachine} {c c' : Ctx} → Inert self c → Quiet c c' → Inert self c'
Inert-Quiet p q = record {
  role = q.role ∙ p.role;
  cid = q.cid ∙ p.cid;
  stays_lost = λ h. Progress-lost q.progress (p.stays_lost h);
  ordered = q.ordered ∙ p.ordered;
  no_delivery = q.no_delivery ∙ p.no_delivery;
}

pub Inert-bind :
    {self : CoreMachine} {m : Outcome} {f : Ctx → Outcome}
    → Ends (Inert self) m
    → ((c : Ctx) → Inert self c → Ends (Inert self) (f c))
    → Ends (Inert self) (m >>= f)
Inert-bind (by_success {c = c} p) k = k c p
Inert-bind (by_error p) k = by_error p

pub Inert-push :
    {self : CoreMachine} (path : ℕ) (r : Result CoreError (List ℕ)) (c : Ctx)
    → Inert self c
    → Ends (Inert self) (push_datagram path r c)
Inert-push path r c p = Ends-map (λ _ q. Inert-Quiet p q) (push_datagram-Quiet path r c)

pub Inert-event :
    {self : CoreMachine} (e : Event) (c : Ctx)
    → delivered (e ∷ []) ≡ []
    → Inert self c
    → Inert self (push_event e c)
Inert-event e c h p = Inert-Quiet p (push_event-Quiet e c h)

pub Inert-start : (self : CoreMachine) → Inert self (start self)
unfolding delivered
Inert-start self = record {
  role = refl;
  cid = refl;
  stays_lost = λ h. h;
  ordered = refl;
  no_delivery = refl;
}

-- The machine ends: every operation may do that.
pub Inert-lost :
    (self : CoreMachine) (c : Ctx)
    → Inert self c
    → Inert self (push_event Event.disconnected (set_state lost c))
unfolding delivered
Inert-lost self c p = Inert-event Event.disconnected (set_state lost c) refl (record {
  role = p.role;
  cid = p.cid;
  stays_lost = λ _. refl;
  ordered = p.ordered;
  no_delivery = p.no_delivery;
})

-- An answer without output that leaves the machine's identity and what it received alone.
pub silent :
    (self self' : CoreMachine) (r : Result CoreError CoreOutput)
    → Inert self (start self')
    → delivered_by r ≡ []
    → Waits self (self', r)
silent self self' r p e = record {
  role = p.role;
  cid = p.cid;
  stays_lost = p.stays_lost;
  ordered = p.ordered;
  no_delivery = e;
}

pub idle : (self : CoreMachine) → Waits self (self, ok no_output)
unfolding delivered_by delivered
idle self = silent self self _ (Inert-start self) refl

pub unable : (self : CoreMachine) (e : CoreError) → Waits self (self, err e)
unfolding delivered_by
unable self e = silent self self _ (Inert-start self) refl

pub probing_is_live :
    (s : LifecycleState) → (is_established s || is_reactivating s) ≡ true → s ≡ lost → ⊥
probing_is_live lost e h = cc
probing_is_live established e h = cc
probing_is_live reactivating e h = cc
probing_is_live LifecycleState.pre_handshake e h = cc
