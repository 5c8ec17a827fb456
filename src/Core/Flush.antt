-- ===== src/Core/Flush.antt =====
-- `flush_ordered` of v3-core/src/lib.rs against the relation of its rounds, and what is delivered.
use todero_protocol_native.Base.{
  ℕ, zero, suc, ◌+◌, ◌≤◌, ◌≡◌, refl, sym, ◌∙◌, ap, List, [], ◌∷◌, ◌++◌, append_assoc, append-nil,
  none, some, Option-cases, inl, inr, arith, length,
}
use native.Mathlib.Nat.{zero-add}
use todero_protocol_native.Base.Words.{add_u64}
use todero_protocol_native.Base.BTreeMap.{BTreeMap, get, remove, length-remove-lt}
use todero_protocol_native.Core.Types.{Event, message_delivered, message_received, Ctx}
use todero_protocol_native.Core.Handlers.{flush_loop, flush_ordered}

-- The rounds of the loop from a buffer and a last ordered id: the buffer and the id that they
-- leave, and the events. It stops where the next id is not in the buffer, and only there.
pub data Flush : BTreeMap (List ℕ) → ℕ → BTreeMap (List ℕ) → ℕ → List Event → Type 0 where
  stop :
      {buffer : BTreeMap (List ℕ)} {rx : ℕ}
      → get (add_u64 rx 1) buffer ≡ none
      → Flush buffer rx buffer rx []
  step :
      {buffer buffer' : BTreeMap (List ℕ)} {rx rx' : ℕ} {payload : List ℕ} {events : List Event}
      → get (add_u64 rx 1) buffer ≡ some payload
      → Flush (remove (add_u64 rx 1) buffer) (add_u64 rx 1) buffer' rx' events
      → Flush buffer rx buffer' rx'
          (message_delivered (add_u64 rx 1) ∷ message_received (add_u64 rx 1) payload ∷ events)

-- `c` with another buffer and last ordered id, and more events.
abbrev pub flushed : Ctx → BTreeMap (List ℕ) → ℕ → List Event → Ctx
flushed c buffer rx events = record {
  self = record (c.self) { received_buffer = buffer; last_ordered_rx = rx };
  out = record (c.out) { events = c.out.events ++ events };
}

pub record Flushed (c c' : Ctx) : Type 0 where
  pub buffer : BTreeMap (List ℕ)
  pub rx : ℕ
  pub events : List Event
  pub rounds : Flush c.self.received_buffer c.self.last_ordered_rx buffer rx events
  pub result : c' ≡ flushed c buffer rx events

get_empty : (k : ℕ) (m : BTreeMap (List ℕ)) → length m ≤ 0 → get k m ≡ none
unfolding get
get_empty k [] h = refl
get_empty k (e ∷ m) h = absurd (omega arith)

Flushed-stop :
    (c : Ctx) → get (add_u64 c.self.last_ordered_rx 1) c.self.received_buffer ≡ none → Flushed c c
Flushed-stop c e = record {
  buffer = c.self.received_buffer;
  rx = c.self.last_ordered_rx;
  events = [];
  rounds = stop e;
  result =
      ap (λ events. record c { out = record (c.out) { events = events } })
        (sym (append-nil c.out.events));
}

Flushed-step :
    (c : Ctx) {c' : Ctx} {payload : List ℕ}
    → get (add_u64 c.self.last_ordered_rx 1) c.self.received_buffer ≡ some payload
    → Flushed
        (flushed c
          (remove (add_u64 c.self.last_ordered_rx 1) c.self.received_buffer)
          (add_u64 c.self.last_ordered_rx 1)
          (message_delivered (add_u64 c.self.last_ordered_rx 1)
            ∷ message_received (add_u64 c.self.last_ordered_rx 1) payload
            ∷ []))
        c'
    → Flushed c c'
Flushed-step c e r = record {
  buffer = r.buffer;
  rx = r.rx;
  events = _;
  rounds = step e r.rounds;
  result =
      r.result
      ∙ ap
          (λ events. record c {
            self = record (c.self) { received_buffer = r.buffer; last_ordered_rx = r.rx };
            out = record (c.out) { events = events };
          })
          (append_assoc c.out.events _ r.events);
}

flush_loop-Flushed :
    (fuel : ℕ) (c : Ctx) → length c.self.received_buffer ≤ fuel → Flushed c (flush_loop fuel c)
unfolding flush_loop
flush_loop-Flushed zero c h = Flushed-stop c (get_empty _ _ h)
flush_loop-Flushed (suc fuel) c h =
    let next = add_u64 c.self.last_ordered_rx 1 in
    elim (Option-cases (get next c.self.received_buffer)) [
      | inl e ↦ rw (e, flush_loop) (Flushed-stop c e)
      | inr (payload, e) ↦
          rw (e, flush_loop, append_assoc c.out.events (message_delivered next ∷ []))
            (Flushed-step c e (
              flush_loop-Flushed fuel
                (flushed c (remove next c.self.received_buffer) next
                  (message_delivered next ∷ message_received next payload ∷ []))
                (omega (arith, length-remove-lt next c.self.received_buffer e))))
    ]

-- The loop of `flush_ordered` does the rounds of `Flush`, which end only where the next id is not
-- buffered: the fuel, the buffer's length, does not run out before. Nothing else changes.
pub flush_ordered-Flushed : (c : Ctx) → Flushed c (flush_ordered c)
unfolding flush_ordered
flush_ordered-Flushed c = flush_loop-Flushed (length c.self.received_buffer) c (omega arith)

-- The ids of the `MessageDelivered` events, in order.
unfoldable pub delivered : List Event → List ℕ
delivered [] = []
delivered (message_delivered id ∷ events) = id ∷ delivered events
delivered (event ∷ events) = delivered events

-- The `n` ids behind `rx`, one after the other.
unfoldable pub ids_after : ℕ → ℕ → List ℕ
ids_after rx zero = []
ids_after rx (suc n) = add_u64 rx 1 ∷ ids_after (add_u64 rx 1) n

unfoldable pub advance : ℕ → ℕ → ℕ
advance rx zero = rx
advance rx (suc n) = advance (add_u64 rx 1) n

pub delivered-append : (xs ys : List Event) → delivered (xs ++ ys) ≡ delivered xs ++ delivered ys
unfolding delivered
delivered-append [] ys = refl
delivered-append (Event.handshake_started ∷ xs) ys = delivered-append xs ys
delivered-append (message_delivered id ∷ xs) ys = ap (λ l. id ∷ l) (delivered-append xs ys)
delivered-append (_ ∷ xs) ys = delivered-append xs ys

pub ids_after-append :
    (rx n m : ℕ) → ids_after rx n ++ ids_after (advance rx n) m ≡ ids_after rx (n + m)
unfolding ids_after advance
ids_after-append rx zero m = rw zero-add
ids_after-append rx (suc n) m =
    ap (λ l. add_u64 rx 1 ∷ l) (ids_after-append (add_u64 rx 1) n m)
    ∙ ap (ids_after rx) {x = suc (n + m)} {y = suc n + m} (omega arith)

pub advance-add : (rx n m : ℕ) → advance (advance rx n) m ≡ advance rx (n + m)
unfolding advance
advance-add rx zero m = rw zero-add
advance-add rx (suc n) m =
    advance-add (add_u64 rx 1) n m ∙ ap (advance rx) {x = suc (n + m)} {y = suc n + m} (omega arith)

-- The rounds deliver consecutive ids behind the last one, and end at the last of them.
pub Flush-delivered :
    {buffer buffer' : BTreeMap (List ℕ)} {rx rx' : ℕ} {events : List Event}
    → Flush buffer rx buffer' rx' events
    → (n : ℕ) × (delivered events ≡ ids_after rx n) × (rx' ≡ advance rx n)
unfolding delivered ids_after advance
Flush-delivered (stop e) = (0, refl, refl)
Flush-delivered {rx = rx} (step e r) =
    let (n, ids, end) = Flush-delivered r in (suc n, ap (λ l. add_u64 rx 1 ∷ l) ids, end)

-- The rounds leave a buffer without the next id.
pub Flush-end :
    {buffer buffer' : BTreeMap (List ℕ)} {rx rx' : ℕ} {events : List Event}
    → Flush buffer rx buffer' rx' events
    → get (add_u64 rx' 1) buffer' ≡ none
Flush-end (stop e) = e
Flush-end (step e r) = Flush-end r
