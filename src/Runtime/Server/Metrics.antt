-- ===== src/Runtime/Server/Metrics.antt =====
-- What the server runtime of v3-server-runtime/src/lib.rs counts.
use todero_protocol_native.Base.{
  ℕ, List, [], ◌∷◌, none, some, ok, err, if◌then◌else◌, ltb, leb, length, take,
}
use todero_protocol_native.Base.Words.{saturating_add_u64, from_be_bytes}
use todero_protocol_native.Base.BTreeMap.{get, insert, contains, insert_set}
use todero_protocol_native.Wire.Buffer.{Buf}
use todero_protocol_native.Wire.{MessageType, decode}
use todero_protocol_native.Core.Types.{Event, OutboundDatagram}
use todero_protocol_native.Runtime.Server.{ServerRuntime, ServerRuntimeMetrics}

-- `x.saturating_add(1)`
abbrev pub count_up : ℕ → ℕ
count_up x = saturating_add_u64 x 1

unfoldable pub observe_core_event : Event → ServerRuntimeMetrics → ServerRuntimeMetrics
observe_core_event Event.handshake_started m = record m {
  handshake_started = count_up m.handshake_started;
}
observe_core_event Event.handshake_established m = record m {
  handshake_established = count_up m.handshake_established;
}
observe_core_event Event.reactivated m = record m { reactivated = count_up m.reactivated }
observe_core_event Event.reactivation_probe_sent m = record m {
  msr_probe_sent = count_up m.msr_probe_sent;
  msr_missed_inferred = count_up m.msr_missed_inferred;
}
observe_core_event (Event.request_range_sent start end) m = record m {
  request_range_sent = count_up m.request_range_sent;
}
observe_core_event Event.disconnected m = record m {
  disconnected = count_up m.disconnected;
  disconnect_reason_unknown = count_up m.disconnect_reason_unknown;
}
observe_core_event other m = m

module _ {S : Type 0} where
  -- `sent_data_ids.insert(msg_id)` of the session, where there is one.
  unfoldable pub observe_data_id : ℕ → ℕ → ServerRuntime S → ServerRuntime S
  observe_data_id cid msg_id self = elim (get cid self.sessions) [
    | none ↦ self
    | some session ↦
        if contains msg_id session.sent_data_ids
        then record self {
          metrics = record (self.metrics) {
            data_retransmit_inferred = count_up self.metrics.data_retransmit_inferred;
          };
        }
        else record self {
          sessions =
              insert cid
                (record session { sent_data_ids = insert_set msg_id session.sent_data_ids })
                self.sessions;
        }
  ]

  unfoldable pub observe_frame : ℕ → MessageType → List ℕ → ServerRuntime S → ServerRuntime S
  observe_frame cid MessageType.msr payload self = record self {
    metrics = record (self.metrics) { msr_sent = count_up self.metrics.msr_sent };
  }
  observe_frame cid MessageType.data_frame payload self =
      let counted = record self {
        metrics = record (self.metrics) { data_sent = count_up self.metrics.data_sent };
      } in
      if leb 8 (length payload)
      then observe_data_id cid (from_be_bytes (take 8 payload)) counted
      else counted
  observe_frame cid other payload self = self

  module _ ⦃buf : Buf⦄ where
    unfoldable pub observe_datagram : ℕ → OutboundDatagram → ServerRuntime S → ServerRuntime S
    observe_datagram cid d self = elim (decode d.bytes) [
      | err e ↦ self
      | ok frame ↦ observe_frame cid frame.message_type frame.payload self
    ]

    unfoldable pub observe_datagrams : ℕ → List OutboundDatagram → ServerRuntime S → ServerRuntime S
    observe_datagrams cid [] self = self
    observe_datagrams cid (d ∷ ds) self = observe_datagrams cid ds (observe_datagram cid d self)

  unfoldable pub update_peak_sessions_metric : ServerRuntime S → ServerRuntime S
  update_peak_sessions_metric self =
      if ltb self.metrics.peak_sessions (length self.sessions)
      then record self { metrics = record (self.metrics) { peak_sessions = length self.sessions } }
      else self
