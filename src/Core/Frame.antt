-- ===== src/Core/Frame.antt =====
-- What the handlers of v3-core/src/lib.rs leave alone. `Quiet` holds between the machine and output
-- before and after every handler that receives no message.
use todero_protocol_native.Base.{ℕ, ◌≡◌, refl, ◌∙◌, List, [], ◌∷◌, append-nil, Result, ok, err}
use todero_protocol_native.Core.Types.{
  LifecycleState, pre_handshake, established, reactivating, lost, Event, CoreError, Ctx, Outcome,
  done, failed, ◌>>=◌, push_event,
}
use todero_protocol_native.Core.Handlers.{
  push_datagram, schedule_server_timers, schedule_client_timers,
}
use todero_protocol_native.Core.Flush.{delivered, delivered-append}

-- How a lifecycle may go on while a datagram is handled.
pub data Progress : LifecycleState → LifecycleState → Type 0 where
  stays : {s : LifecycleState} → Progress s s
  establishes : Progress pre_handshake established
  reactivates : Progress reactivating established
  ends : {s : LifecycleState} → Progress s lost

pub Progress-trans : {s t u : LifecycleState} → Progress s t → Progress t u → Progress s u
Progress-trans stays q = q
Progress-trans establishes stays = establishes
Progress-trans establishes ends = ends
Progress-trans reactivates stays = reactivates
Progress-trans reactivates ends = ends
Progress-trans ends stays = ends
Progress-trans ends ends = ends

pub record Quiet (c c' : Ctx) : Type 0 where
  pub role : c'.self.role ≡ c.self.role
  pub cid : c'.self.cid ≡ c.self.cid
  pub progress : Progress c.self.state c'.self.state
  pub outbound : c'.self.outbound_messages ≡ c.self.outbound_messages
  pub ids : c'.self.received_ids ≡ c.self.received_ids
  pub buffer : c'.self.received_buffer ≡ c.self.received_buffer
  pub fragments : c'.self.received_fragments ≡ c.self.received_fragments
  pub ordered : c'.self.last_ordered_rx ≡ c.self.last_ordered_rx
  pub no_delivery : delivered c'.out.events ≡ delivered c.out.events

pub Quiet-refl : (c : Ctx) → Quiet c c
Quiet-refl c = record {
  role = refl;
  cid = refl;
  progress = stays;
  outbound = refl;
  ids = refl;
  buffer = refl;
  fragments = refl;
  ordered = refl;
  no_delivery = refl;
}

pub Quiet-trans : {a b c : Ctx} → Quiet a b → Quiet b c → Quiet a c
Quiet-trans p q = record {
  role = q.role ∙ p.role;
  cid = q.cid ∙ p.cid;
  progress = Progress-trans p.progress q.progress;
  outbound = q.outbound ∙ p.outbound;
  ids = q.ids ∙ p.ids;
  buffer = q.buffer ∙ p.buffer;
  fragments = q.fragments ∙ p.fragments;
  ordered = q.ordered ∙ p.ordered;
  no_delivery = q.no_delivery ∙ p.no_delivery;
}

-- A predicate of the machine and output that an outcome leaves, by success or by an error.
pub data Ends {ℓ} (P : Ctx → Type ℓ) : Outcome → Type ℓ where
  by_success : {c : Ctx} → P c → Ends P (done c)
  by_error : {e : CoreError} {c : Ctx} → P c → Ends P (failed e c)

pub Ends-map : {P Q : Ctx → Type 0} {m : Outcome} → ((c : Ctx) → P c → Q c) → Ends P m → Ends Q m
Ends-map f (by_success {c = c} p) = by_success (f c p)
Ends-map f (by_error {c = c} p) = by_error (f c p)

pub Ends-weaken : {a b : Ctx} {m : Outcome} → Quiet a b → Ends (Quiet b) m → Ends (Quiet a) m
Ends-weaken p (by_success q) = by_success (Quiet-trans p q)
Ends-weaken p (by_error q) = by_error (Quiet-trans p q)

pub Ends-bind :
    {a : Ctx} {m : Outcome} {f : Ctx → Outcome}
    → Ends (Quiet a) m
    → ((c : Ctx) → Ends (Quiet c) (f c))
    → Ends (Quiet a) (m >>= f)
Ends-bind (by_success {c = c} p) k = Ends-weaken p (k c)
Ends-bind (by_error p) k = by_error p

-- The fields that a `Quiet` handler may change: all but those of the record.
pub push_event-Quiet : (e : Event) (c : Ctx) → delivered (e ∷ []) ≡ [] → Quiet c (push_event e c)
push_event-Quiet e c h = record {
  role = refl;
  cid = refl;
  progress = stays;
  outbound = refl;
  ids = refl;
  buffer = refl;
  fragments = refl;
  ordered = refl;
  no_delivery = delivered-append c.out.events (e ∷ []) ∙ rw h (append-nil (delivered c.out.events));
}

pub push_datagram-Quiet :
    (path_id : ℕ) (bytes : Result CoreError (List ℕ)) (c : Ctx)
    → Ends (Quiet c) (push_datagram path_id bytes c)
push_datagram-Quiet path_id (ok bytes) c = by_success (search stays)
push_datagram-Quiet path_id (err e) c = by_error (Quiet-refl c)

pub schedule_server_timers-Quiet : (now : ℕ) (c : Ctx) → Quiet c (schedule_server_timers now c)
unfolding schedule_server_timers
schedule_server_timers-Quiet now c = search stays

pub schedule_client_timers-Quiet : (now : ℕ) (c : Ctx) → Quiet c (schedule_client_timers now c)
unfolding schedule_client_timers
schedule_client_timers-Quiet now c = search stays
