-- ===== src/Core/Delivery.antt =====
-- Which messages a datagram's handlers deliver (v3-core/src/lib.rs). `Delivers` holds between the
-- machine and output before and after any handler of a datagram.
use todero_protocol_native.Base.{
  ℕ, ◌+◌, ◌≡◌, refl, sym, ◌∙◌, ap, not, List, [], ◌++◌, append_assoc, append-nil, Option-cases,
  if-elim, inl, inr, ltb, leb, ◌==◌, length, drop,
}
use mathlib.Core.Path.{subst}
use todero_protocol_native.Base.Words.{from_be_bytes}
use todero_protocol_native.Base.BTreeMap.{BTreeMap, contains}
use todero_protocol_native.Core.Types.{CoreError, Ctx, Outcome, done, failed, FragmentAccumulator}
use todero_protocol_native.Core.Codec.{slice}
use todero_protocol_native.Core.Handlers.{
  flush_ordered, handle_data, handle_fragment, complete_fragment, merge_chunks, open_accumulator,
  add_chunk, store_accumulator, fragment_header_len,
}
use todero_protocol_native.Core.Flush.{
  Flushed, flush_ordered-Flushed, Flush-delivered, delivered, ids_after, advance, delivered-append,
  ids_after-append, advance-add,
}
use todero_protocol_native.Core.Frame.{
  Progress, stays, Progress-trans, Quiet, Ends, by_success, by_error,
}

pub record Delivers (c c' : Ctx) : Type 0 where
  pub role : c'.self.role ≡ c.self.role
  pub cid : c'.self.cid ≡ c.self.cid
  pub progress : Progress c.self.state c'.self.state
  pub count : ℕ
  pub ordered : c'.self.last_ordered_rx ≡ advance c.self.last_ordered_rx count
  pub ids :
      delivered c'.out.events ≡ delivered c.out.events ++ ids_after c.self.last_ordered_rx count

pub Quiet-Delivers : {c c' : Ctx} → Quiet c c' → Delivers c c'
unfolding advance ids_after
Quiet-Delivers {c} q = record {
  role = q.role;
  cid = q.cid;
  progress = q.progress;
  count = 0;
  ordered = q.ordered;
  ids = q.no_delivery ∙ sym (append-nil (delivered c.out.events));
}

pub Delivers-refl : (c : Ctx) → Delivers c c
unfolding advance ids_after
Delivers-refl c = record {
  role = refl;
  cid = refl;
  progress = stays;
  count = 0;
  ordered = refl;
  ids = sym (append-nil (delivered c.out.events));
}

pub Delivers-trans : {a b c : Ctx} → Delivers a b → Delivers b c → Delivers a c
Delivers-trans {a} {b} {c} p q = record {
  role = q.role ∙ p.role;
  cid = q.cid ∙ p.cid;
  progress = Progress-trans p.progress q.progress;
  count = p.count + q.count;
  ordered =
      q.ordered
      ∙ ap (λ rx. advance rx q.count) p.ordered
      ∙ advance-add a.self.last_ordered_rx p.count q.count;
  ids =
      q.ids
      ∙ ap (λ xs. xs ++ ids_after b.self.last_ordered_rx q.count) p.ids
      ∙ ap
          (λ rx.
            (delivered a.out.events ++ ids_after a.self.last_ordered_rx p.count)
            ++ ids_after rx q.count)
          p.ordered
      ∙ append_assoc (delivered a.out.events) (ids_after a.self.last_ordered_rx p.count) _
      ∙ ap (λ xs. delivered a.out.events ++ xs)
          (ids_after-append a.self.last_ordered_rx p.count q.count);
}

-- How the handler of a message ends: it delivers the next messages, or it fails and delivers none.
pub data Handles (c : Ctx) : Outcome → Type 0 where
  handled : {c' : Ctx} → Delivers c c' → Handles c (done c')
  rejected :
      {e : CoreError} {c' : Ctx}
      → Delivers c c'
      → c'.self.last_ordered_rx ≡ c.self.last_ordered_rx
      → Handles c (failed e c')

pub Quiet-Handles : {c : Ctx} {m : Outcome} → Ends (Quiet c) m → Handles c m
Quiet-Handles (by_success q) = handled (Quiet-Delivers q)
Quiet-Handles (by_error q) = rejected (Quiet-Delivers q) q.ordered

pub Handles-after :
    {a b : Ctx} {m : Outcome}
    → Delivers a b
    → b.self.last_ordered_rx ≡ a.self.last_ordered_rx
    → Handles b m
    → Handles a m
Handles-after p same (handled q) = handled (Delivers-trans p q)
Handles-after p same (rejected q same1) = rejected (Delivers-trans p q) (same1 ∙ same)

Flushed-Delivers : (c c' : Ctx) → Flushed c c' → Delivers c c'
Flushed-Delivers c c' r =
    let (n, ids, end) = Flush-delivered r.rounds in
    subst (Delivers c) (sym r.result) (record {
      role = refl;
      cid = refl;
      progress = stays;
      count = n;
      ordered = end;
      ids = delivered-append c.out.events r.events ∙ ap (λ xs. delivered c.out.events ++ xs) ids;
    })

pub flush_ordered-Delivers : (c : Ctx) → Delivers c (flush_ordered c)
flush_ordered-Delivers c = Flushed-Delivers c (flush_ordered c) (flush_ordered-Flushed c)

-- A change of what is received, buffered and reassembled, and a flush.
flush_after :
    (c : Ctx) (ids : List ℕ) (buffer : BTreeMap (List ℕ)) (frags : BTreeMap FragmentAccumulator)
    → Delivers c (
        flush_ordered (record c {
          self = record (c.self) {
            received_ids = ids;
            received_buffer = buffer;
            received_fragments = frags;
          };
        }))
flush_after c ids buffer frags =
    let d = flush_ordered-Delivers (record c {
      self = record (c.self) {
        received_ids = ids;
        received_buffer = buffer;
        received_fragments = frags;
      };
    }) in
    record {
      role = d.role;
      cid = d.cid;
      progress = d.progress;
      count = d.count;
      ordered = d.ordered;
      ids = d.ids;
    }

pub handle_data-Handles : (payload : List ℕ) (c : Ctx) → Handles c (handle_data payload c)
unfolding handle_data
handle_data-Handles payload c =
    let id = from_be_bytes (slice 0 8 payload) in
    if-elim (Handles c) (ltb (length payload) 8) (λ _. rejected (Delivers-refl c) refl)
      (λ _.
        if-elim (Handles c) (contains id c.self.received_ids) (λ _. handled (Delivers-refl c))
          (λ _. handled (flush_after c _ _ _)))

complete_fragment-Handles :
    (id : ℕ) (acc : FragmentAccumulator) (c : Ctx) → Handles c (complete_fragment id acc c)
unfolding complete_fragment
complete_fragment-Handles id acc c = elim (Option-cases (merge_chunks acc.total 0 acc [])) [
  | inl e ↦
      rw (e, complete_fragment)
        (if-elim (Handles c) (not (length acc.chunks == acc.total)) (λ _. handled (Delivers-refl c))
          (λ _. rejected (Delivers-refl c) refl))
  | inr (merged, e) ↦
      rw (e, complete_fragment)
        (if-elim (Handles c) (not (length acc.chunks == acc.total)) (λ _. handled (Delivers-refl c))
          (λ _. handled (flush_after c _ _ _)))
]

-- Storing an accumulator delivers nothing.
stored : (id : ℕ) (acc : FragmentAccumulator) (c : Ctx) → Delivers c (store_accumulator id acc c)
unfolding advance ids_after
stored id acc c = record {
  role = refl;
  cid = refl;
  progress = stays;
  count = 0;
  ordered = refl;
  ids = sym (append-nil (delivered c.out.events));
}

pub handle_fragment-Handles : (payload : List ℕ) (c : Ctx) → Handles c (handle_fragment payload c)
unfolding handle_fragment
handle_fragment-Handles payload c =
    let id = from_be_bytes (slice 0 8 payload) in
    let idx = from_be_bytes (slice 8 10 payload) in
    let total = from_be_bytes (slice 10 12 payload) in
    let opened = open_accumulator id total c.self in
    let acc = add_chunk idx (drop fragment_header_len payload) opened in
    if-elim (Handles c) (ltb (length payload) fragment_header_len)
      (λ _. rejected (Delivers-refl c) refl)
      (λ _.
        if-elim (Handles c) (contains id c.self.received_ids) (λ _. handled (Delivers-refl c))
          (λ _.
            if-elim (Handles c) (total == 0) (λ _. rejected (Delivers-refl c) refl)
              (λ _.
                if-elim (Handles c) (leb total idx) (λ _. rejected (Delivers-refl c) refl)
                  (λ _.
                    if-elim (Handles c) (not (opened.total == total))
                      (λ _. rejected (stored id opened c) refl)
                      (λ _.
                        Handles-after (stored id acc c) refl
                          (complete_fragment-Handles id acc (store_accumulator id acc c)))))))
