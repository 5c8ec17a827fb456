-- ===== src/Traversal/Turn.antt =====
-- The TURN allocation of v3-nat/src/lib.rs.
use todero_protocol_native.Base.{
  ℕ, ◌-◌, ◌*◌, ◌/◌, ◌^◌, ◌≤◌, ◌<◌, ◌≡◌, refl, min, max, Bool, true, false, not, Option, none, some,
  if◌then◌else◌, ltb, leb, arith, ◌↔◌,
}
use todero_protocol_native.Base.Words.{
  saturating_add_u32, saturating_add_u64, saturating_mul_u64, saturating_sub,
}
use todero_protocol_native.Traversal.Candidates.{RelayPolicy}

pub data TurnAuthMode : Type 0 where
  long_term rest_secret : TurnAuthMode

pub data TurnState : Type 0 where
  idle allocating allocated failed : TurnState

abbrev pub is_allocated : TurnState → Bool
is_allocated allocated = true
is_allocated idle = false
is_allocated allocating = false
is_allocated failed = false

pub data TurnEvent : Type 0 where
  -- `lifetime_secs`
  allocation_ok : ℕ → TurnEvent
  permission_ok channel_bind_ok unauthorized stale_nonce transport_failure : TurnEvent

pub data TurnAction : Type 0 where
  send_allocate send_allocate_with_auth send_refresh send_create_permission : TurnAction
  send_channel_bind : TurnAction
  -- `delay_ms`
  retry_after : ℕ → TurnAction
  mark_failed noop : TurnAction

pub record TurnConfig : Type 0 where
  pub auth_mode : TurnAuthMode
  pub refresh_before_expiry_secs : ℕ
  pub retry_backoff_ms : ℕ
  pub permission_refresh_ms : ℕ
  pub channel_refresh_ms : ℕ
  pub relay_policy : RelayPolicy

abbrev pub default_config : TurnConfig
default_config = record {
  auth_mode = rest_secret;
  refresh_before_expiry_secs = 60;
  retry_backoff_ms = 1_000;
  permission_refresh_ms = 240_000;
  channel_refresh_ms = 540_000;
  relay_policy = RelayPolicy.prefer_direct;
}

pub record TurnManager : Type 0 where
  pub state : TurnState
  pub allocation_expiry_ms : Option ℕ
  pub permission_expiry_ms : Option ℕ
  pub channel_expiry_ms : Option ℕ
  pub retries : ℕ
  pub cfg : TurnConfig

abbrev pub new : TurnConfig → TurnManager
new cfg = record {
  state = idle;
  allocation_expiry_ms = none;
  permission_expiry_ms = none;
  channel_expiry_ms = none;
  retries = 0;
  cfg = cfg;
}

unfoldable pub start_allocate : TurnManager → TurnAction × TurnManager
start_allocate self = (send_allocate, record self { state = allocating })

-- `expiry.is_some_and(|v| now_ms >= v)`
abbrev pub is_due : ℕ → Option ℕ → Bool
is_due now_ms none = false
is_due now_ms (some v) = leb v now_ms

-- When an allocation that ends at `expiry` is refreshed. The seconds are 32 bits wide, and their
-- milliseconds fit into 64.
abbrev pub refresh_at : TurnConfig → ℕ → ℕ
refresh_at cfg expiry = saturating_sub expiry (cfg.refresh_before_expiry_secs * 1000)

abbrev pub needs_refresh : TurnManager → ℕ → Bool
needs_refresh self now_ms = elim self.allocation_expiry_ms [
  | none ↦ false
  | some expiry ↦ leb (refresh_at self.cfg expiry) now_ms
]

unfoldable pub on_tick : ℕ → TurnManager → TurnAction
on_tick now_ms self =
    if not (is_allocated self.state)
    then noop
    else if needs_refresh self now_ms
    then send_refresh
    else if is_due now_ms self.permission_expiry_ms
    then send_create_permission
    else if is_due now_ms self.channel_expiry_ms
    then send_channel_bind
    else noop

unfoldable pub on_event : ℕ → TurnEvent → TurnManager → TurnAction × TurnManager
on_event now_ms (allocation_ok lifetime_secs) self = (
  send_create_permission,
  record self {
    state = allocated;
    retries = 0;
    allocation_expiry_ms = some (saturating_add_u64 now_ms (lifetime_secs * 1000));
    permission_expiry_ms = some (saturating_add_u64 now_ms self.cfg.permission_refresh_ms);
    channel_expiry_ms = some (saturating_add_u64 now_ms self.cfg.channel_refresh_ms);
  },
)
on_event now_ms permission_ok self = (
  send_channel_bind,
  record self {
    permission_expiry_ms = some (saturating_add_u64 now_ms self.cfg.permission_refresh_ms);
  },
)
on_event now_ms channel_bind_ok self = (
  noop,
  record self { channel_expiry_ms = some (saturating_add_u64 now_ms self.cfg.channel_refresh_ms) },
)
on_event now_ms unauthorized self = (send_allocate_with_auth, self)
on_event now_ms stale_nonce self = (send_allocate_with_auth, self)
on_event now_ms transport_failure self =
    let retries = saturating_add_u32 self.retries 1 in
    if ltb 5 retries then (mark_failed, record self { retries = retries; state = failed }) else (
      retry_after (saturating_mul_u64 self.cfg.retry_backoff_ms (2 ^ (retries - 1))),
      record self { retries = retries },
    )

unfoldable pub tune_turn_refresh_for_disconnect_window : TurnConfig → ℕ → TurnConfig
tune_turn_refresh_for_disconnect_window cfg disconnect_window_ms =
    let guard_ms = disconnect_window_ms / 10 in
    let target_ms = max (saturating_sub disconnect_window_ms guard_ms) 30_000 in
    record cfg {
      permission_refresh_ms = min cfg.permission_refresh_ms target_ms;
      channel_refresh_ms = min cfg.channel_refresh_ms target_ms;
    }

-- A window of at least 30 seconds is kept: the tuned refreshes come within it, and no later than
-- before.
pub tune_lem :
    (cfg : TurnConfig) (window : ℕ)
    → 30_000 ≤ window
    → ((tune_turn_refresh_for_disconnect_window cfg window).permission_refresh_ms
        ≤ min window cfg.permission_refresh_ms)
      × ((tune_turn_refresh_for_disconnect_window cfg window).channel_refresh_ms
          ≤ min window cfg.channel_refresh_ms)
unfolding tune_turn_refresh_for_disconnect_window
tune_lem cfg window h = (omega (arith, h), omega (arith, h))

-- A shorter window is not kept: refreshes that are configured at 30 seconds or more come after 30
-- seconds, which is later than the window, whatever the window is.
pub tune-short_window :
    (cfg : TurnConfig) (window : ℕ)
    → window < 30_000
    → 30_000 ≤ cfg.permission_refresh_ms
    → 30_000 ≤ cfg.channel_refresh_ms
    → (tune_turn_refresh_for_disconnect_window cfg window
        ≡ record cfg { permission_refresh_ms = 30_000; channel_refresh_ms = 30_000 })
      × (window < (tune_turn_refresh_for_disconnect_window cfg window).permission_refresh_ms)
      × (window < (tune_turn_refresh_for_disconnect_window cfg window).channel_refresh_ms)
unfolding tune_turn_refresh_for_disconnect_window
tune-short_window cfg window h p c =
    let target : max (saturating_sub window (window / 10)) 30_000 ≡ 30_000 = omega (arith, h) in
    let permission : min cfg.permission_refresh_ms 30_000 ≡ 30_000 = omega (arith, p) in
    let channel : min cfg.channel_refresh_ms 30_000 ≡ 30_000 = omega (arith, c) in
    rw (target, permission, channel) (refl, h, h)

-- An allocated relay is left alone as long as none of its three times has come: the allocation's
-- expiry less the margin for its refresh, the permission's and the channel's. Any of them brings an
-- action.
pub on_tick_iff :
    (now : ℕ) (self : TurnManager) (allocation permission channel : ℕ)
    → self.state ≡ allocated
    → self.allocation_expiry_ms ≡ some allocation
    → self.permission_expiry_ms ≡ some permission
    → self.channel_expiry_ms ≡ some channel
    → (on_tick now self ≡ noop)
      ↔ ((now < refresh_at self.cfg allocation) × (now < permission) × (now < channel))
unfolding on_tick
on_tick_iff now self allocation permission channel s a p c = rw (s, a, p, c) (ground arith)
