-- ===== src/Core/Types.antt =====
-- The data of v3-core/src/lib.rs. Words are numbers; a `BTreeMap` is a list in the order of its keys.
use Prim.Native.String.{String}
use todero_protocol_native.Base.{ℕ, Bool, true, false, List, [], ◌∷◌, ◌++◌, Option, none}
use todero_protocol_native.Base.BTreeMap.{BTreeMap, BTreeSet}
use todero_protocol_native.Wire.{WireError}

pub data Role : Type 0 where
  client server : Role

abbrev pub is_client : Role → Bool
is_client client = true
is_client server = false

abbrev pub is_server : Role → Bool
is_server client = false
is_server server = true

pub data LifecycleState : Type 0 where
  pre_handshake established reactivating lost : LifecycleState

abbrev pub is_pre_handshake : LifecycleState → Bool
is_pre_handshake pre_handshake = true
is_pre_handshake established = false
is_pre_handshake reactivating = false
is_pre_handshake lost = false

abbrev pub is_established : LifecycleState → Bool
is_established pre_handshake = false
is_established established = true
is_established reactivating = false
is_established lost = false

abbrev pub is_reactivating : LifecycleState → Bool
is_reactivating pre_handshake = false
is_reactivating established = false
is_reactivating reactivating = true
is_reactivating lost = false

abbrev pub is_lost : LifecycleState → Bool
is_lost pre_handshake = false
is_lost established = false
is_lost reactivating = false
is_lost lost = true

pub data TimerId : Type 0 where
  server_msr client_probe disconnect renegotiation_timeout : TimerId

pub data PathEvent : Type 0 where
  path_changed : ℕ → PathEvent

pub record OutboundDatagram : Type 0 where
  pub path_id : ℕ
  pub bytes : List ℕ

pub data Event : Type 0 where
  handshake_started handshake_established reactivation_probe_sent reactivated disconnected : Event
  queue_advertised : ℕ → Event
  -- `start` and `end`
  request_range_sent : ℕ → ℕ → Event
  message_delivered : ℕ → Event
  message_received : ℕ → List ℕ → Event
  timer_renegotiation_proposed timer_renegotiation_committed : ℕ → Event
  timer_renegotiation_rejected timer_renegotiation_rolled_back : ℕ → Event
  parse_error : Event

-- `id` and `deadline_ms`
pub data TimerAction : Type 0 where
  schedule : TimerId → ℕ → TimerAction

pub record CoreOutput : Type 0 where
  pub outbound_datagrams : List OutboundDatagram
  pub events : List Event
  pub timer_actions : List TimerAction

-- `CoreOutput::default()`
abbrev pub no_output : CoreOutput
no_output = record { outbound_datagrams = []; events = []; timer_actions = [] }

pub record CoreConfig : Type 0 where
  pub msr_interval_ms : ℕ
  pub miss_window_count : ℕ
  pub disconnect_window_ms : ℕ

abbrev pub default_config : CoreConfig
default_config = record {
  msr_interval_ms = 15_000;
  miss_window_count = 3;
  disconnect_window_ms = 180_000;
}

pub record TimerProposal : Type 0 where
  pub msr_interval_ms : ℕ
  pub miss_window_count : ℕ
  pub disconnect_window_ms : ℕ

abbrev pub to_config : TimerProposal → CoreConfig
to_config p = record {
  msr_interval_ms = p.msr_interval_ms;
  miss_window_count = p.miss_window_count;
  disconnect_window_ms = p.disconnect_window_ms;
}

pub record PendingRenegotiation : Type 0 where
  pub proposal_id : ℕ
  pub proposal : TimerProposal
  pub expires_at_ms : ℕ

pub record FragmentAccumulator : Type 0 where
  pub total : ℕ
  pub chunks : BTreeMap (List ℕ)

pub data MsrSource : Type 0 where
  control_msr_frame piggyback_tlv : MsrSource

pub record CoreMachine : Type 0 where
  pub role : Role
  pub cid : ℕ
  pub state : LifecycleState
  pub cfg : CoreConfig
  pub current_path_id : ℕ
  pub next_outbound_id : ℕ
  pub outbound_messages : BTreeMap (List ℕ)
  pub received_ids : BTreeSet
  pub received_buffer : BTreeMap (List ℕ)
  pub received_fragments : BTreeMap FragmentAccumulator
  pub last_ordered_rx : ℕ
  pub last_requested_end : ℕ
  pub last_server_msr_at_ms : Option ℕ
  pub disconnect_deadline_ms : Option ℕ
  pub client_server_msr_rx_since_last_keepalive : ℕ
  pub server_consecutive_msr_without_client_msr : ℕ
  pub next_proposal_id : ℕ
  pub pending_local_proposal : Option PendingRenegotiation

abbrev pub new : Role → ℕ → CoreConfig → CoreMachine
new role cid cfg = record {
  role = role;
  cid = cid;
  state = pre_handshake;
  cfg = cfg;
  current_path_id = 0;
  next_outbound_id = 1;
  outbound_messages = [];
  received_ids = [];
  received_buffer = [];
  received_fragments = [];
  last_ordered_rx = 0;
  last_requested_end = 0;
  last_server_msr_at_ms = none;
  disconnect_deadline_ms = none;
  client_server_msr_rx_since_last_keepalive = 0;
  server_consecutive_msr_without_client_msr = 0;
  next_proposal_id = 1;
  pending_local_proposal = none;
}

pub data CoreError : Type 0 where
  wire : WireError → CoreError
  -- `expected` and `got`
  cid_mismatch : ℕ → ℕ → CoreError
  malformed_msr malformed_request_range malformed_data : CoreError
  invalid_state_for_renegotiation : CoreError
  invalid_timer_proposal : String → CoreError
  malformed_timer_proposal malformed_timer_ack : CoreError

-- The arguments `&mut self` and `out: &mut CoreOutput` of a handler.
pub record Ctx : Type 0 where
  pub self : CoreMachine
  pub out : CoreOutput

-- What a handler leaves: an error keeps the changes that were made to the machine before it.
pub data Outcome : Type 0 where
  done : Ctx → Outcome
  failed : CoreError → Ctx → Outcome

infixl 5 ◌>>=◌
abbrev pub ◌>>=◌ : Outcome → (Ctx → Outcome) → Outcome
done c >>= f = f c
failed e c >>= f = failed e c

abbrev pub push_event : Event → Ctx → Ctx
push_event e c = record c { out = record (c.out) { events = c.out.events ++ (e ∷ []) } }

abbrev pub push_timer : TimerId → ℕ → Ctx → Ctx
push_timer id deadline_ms c = record c {
  out = record (c.out) { timer_actions = c.out.timer_actions ++ (schedule id deadline_ms ∷ []) };
}
