-- ===== src/Traversal/Consent.antt =====
-- The consent keepalives of v3-nat/src/lib.rs.
use todero_protocol_native.Base.{
  ℕ, zero, suc, ◌+◌, ◌≤◌, ◌<◌, ◌≡◌, sym, ap, List, [], ◌∷◌, some, if◌then◌else◌, ltb, arith,
  get_elem?, some-injective, ◌∙◌, ◌≢◌,
}
use todero_protocol_native.Base.Words.{saturating_add_u64, saturating_add_u8}

pub record ConsentConfig : Type 0 where
  pub interval_ms : ℕ
  pub max_missed : ℕ

abbrev pub default_config : ConsentConfig
default_config = record { interval_ms = 15_000; max_missed = 3 }

pub record ConsentState : Type 0 where
  pub next_deadline_ms : ℕ
  pub missed_count : ℕ

pub data ConsentAction : Type 0 where
  send_keepalive path_lost noop : ConsentAction

pub record ConsentManager : Type 0 where
  pub cfg : ConsentConfig
  pub state : ConsentState

unfoldable pub new : ℕ → ConsentConfig → ConsentManager
new start_ms cfg = record {
  cfg = cfg;
  state = record {
    next_deadline_ms = saturating_add_u64 start_ms cfg.interval_ms;
    missed_count = 0;
  };
}

-- The manager after the deadline was missed once more.
unfoldable pub miss : ℕ → ConsentManager → ConsentManager
miss now_ms self = record self {
  state = record {
    next_deadline_ms = saturating_add_u64 now_ms self.cfg.interval_ms;
    missed_count = saturating_add_u8 self.state.missed_count 1;
  };
}

unfoldable pub on_tick : ℕ → ConsentManager → ConsentAction × ConsentManager
on_tick now_ms self =
    if ltb now_ms self.state.next_deadline_ms
    then (noop, self)
    else let missed = miss now_ms self in
      if ltb self.cfg.max_missed missed.state.missed_count
      then (path_lost, missed)
      else (send_keepalive, missed)

unfoldable pub on_response : ℕ → ConsentManager → ConsentManager
on_response now_ms self = record self {
  state = record {
    next_deadline_ms = saturating_add_u64 now_ms self.cfg.interval_ms;
    missed_count = 0;
  };
}

-- Ticks at the given times, one after the other, with no response between them.
unfoldable pub on_ticks : List ℕ → ConsentManager → List ConsentAction × ConsentManager
on_ticks [] self = ([], self)
on_ticks (now_ms ∷ times) self =
    let r = on_tick now_ms self in let rest = on_ticks times r.1 in (r.0 ∷ rest.0, rest.1)

-- The times of ticks that each come at or after the deadline that the one before has set.
pub data AreDue : ConsentManager → List ℕ → Type 0 where
  no_tick : {self : ConsentManager} → AreDue self []
  due_tick :
      {self : ConsentManager} {now_ms : ℕ} {times : List ℕ}
      → self.state.next_deadline_ms ≤ now_ms
      → AreDue (miss now_ms self) times
      → AreDue self (now_ms ∷ times)

on_tick-due :
    (now : ℕ) (self : ConsentManager)
    → self.state.next_deadline_ms ≤ now
    → on_tick now self ≡ (
      (if ltb self.cfg.max_missed (saturating_add_u8 self.state.missed_count 1)
          then path_lost
          else send_keepalive),
      miss now self,
    )
unfolding on_tick miss
on_tick-due now self h = ground arith

first_miss :
    (limit count : ℕ)
    → limit < 255
    → ltb limit (saturating_add_u8 count 1) ≡ ltb limit (count + (0 + 1))
first_miss limit count h = ground arith

-- `path_lost` where the count is above the limit.
abbrev pub verdict : ConsentManager → ℕ → ConsentAction
verdict self count = if ltb self.cfg.max_missed count then path_lost else send_keepalive

saturated :
    (limit count i : ℕ)
    → limit < 255
    → ltb limit (saturating_add_u8 count 1 + (i + 1)) ≡ ltb limit (count + (suc i + 1))
saturated limit count i h = ground arith

-- Of ticks that are all due and with no response between them, the one at index `i` asks for a
-- keepalive as long as no more than `max_missed` deadlines were missed with it, and says that the
-- path is lost from then on. The limit is below 255, where the 8-bit count stops.
pub on_ticks_lem :
    (times : List ℕ) (self : ConsentManager) (i : ℕ) (action : ConsentAction)
    → self.cfg.max_missed < 255
    → AreDue self times
    → get_elem? (on_ticks times self).0 i ≡ some action
    → action ≡ verdict self (self.state.missed_count + (i + 1))
unfolding on_ticks miss
on_ticks_lem [] self i action h no_tick e = cc
on_ticks_lem (now ∷ times) self zero action h (due_tick due d) e =
    sym (some-injective e)
    ∙ ap (λ r. r.0) (on_tick-due now self due)
    ∙ ap (λ b. if b then path_lost else send_keepalive)
        (first_miss self.cfg.max_missed self.state.missed_count h)
on_ticks_lem (now ∷ times) self (suc i) action h (due_tick due d) e =
    on_ticks_lem times (miss now self) i action h d
      (ap (λ r. get_elem? (on_ticks times r.1).0 i) (sym (on_tick-due now self due)) ∙ e)
    ∙ ap (λ b. if b then path_lost else send_keepalive)
        (saturated self.cfg.max_missed self.state.missed_count i h)

-- A limit of 255 is never passed: the 8-bit count of missed deadlines stops there, and no tick says
-- that the path is lost.
pub on_tick-max_missed_255 :
    (now : ℕ) (self : ConsentManager) → self.cfg.max_missed ≡ 255 → (on_tick now self).0 ≢ path_lost
unfolding on_tick miss
on_tick-max_missed_255 now self h = ground arith
