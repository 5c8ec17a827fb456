-- ===== src/Examples/Policies.antt =====
-- The theorems of NAT traversal and of the session store, at concrete inputs.
use todero_protocol_native.Base.{
  false, err, ℕ, ◌+◌, ◌-◌, ◌^◌, ◌<◌, ◌≡◌, ◌≢◌, refl, List, [], ◌∷◌, some, none, arith, ◌↔◌, ◌⊎◌,
}
use todero_protocol_native.Base.BTreeMap.{get}
use todero_protocol_native.Traversal.Nomination.{IsNominated, nominate_best-IsNominated}
use todero_protocol_native.Traversal.Checklist.{
  CandidatePair, CandidatePairState, failed, succeeded, IceChecklist, nominate_best, pair_priority,
  pair_sum, pair_priority-fits,
}
use todero_protocol_native.Traversal.Consent
use todero_protocol_native.Traversal.Consent.{
  ConsentManager, ConsentAction, send_keepalive, path_lost, AreDue, no_tick, due_tick, verdict,
  miss, on_ticks, on_ticks_lem, on_tick-max_missed_255,
}
use todero_protocol_native.Traversal.Turn
use todero_protocol_native.Traversal.Turn.{
  TurnManager, TurnAction, noop, allocated, on_tick_iff, tune_turn_refresh_for_disconnect_window,
  tune_lem, tune-short_window, on_event, refresh_at,
}
use todero_protocol_native.Traversal.Retries.{
  on_failures, back_off, after_failures, on_failures_lem,
}
use todero_protocol_native.Traversal.Stun.{
  attributes_loop, parse_attributes, attributes_loop_terminates,
}
use todero_protocol_native.Store.{
  cas_conflict, SessionRecord, VersionedRecord, InMemorySessionStore, compare_and_swap, load,
  compare_and_swap_shard, effective_entry, next_entry, shard_at, set_shard,
}
use todero_protocol_native.Store.Versions.{
  compare_and_swap-again, entry_at, compare_and_swap-other, load-compare_and_swap,
}

pair_priority-fits_example :
    (pair_priority 100 90 ≡ pair_sum 100 90) ↔ ((100 < 2 ^ 32 - 1) ⊎ (90 < 2 ^ 32 - 1))
pair_priority-fits_example = pair_priority-fits 100 90 (omega arith) (omega arith)

abbrev consent : ConsentManager
consent = Consent.new 0 Consent.default_config

on_ticks_example : path_lost ≡ verdict consent (consent.state.missed_count + (3 + 1))
unfolding Consent.new on_ticks Consent.on_tick miss
on_ticks_example =
    on_ticks_lem (15_000 ∷ 30_000 ∷ 45_000 ∷ 60_000 ∷ []) consent 3 path_lost (omega arith)
      (due_tick (omega arith)
        (due_tick (omega arith) (due_tick (omega arith) (due_tick (omega arith) no_tick))))
      refl

abbrev patient : ConsentManager
patient = Consent.new 0 (record { interval_ms = 1_000; max_missed = 255 })

on_tick-max_missed_255_example : (Consent.on_tick 5_000 patient).0 ≢ path_lost
unfolding Consent.new
on_tick-max_missed_255_example = on_tick-max_missed_255 5_000 patient refl

tune-short_window_example :
    (tune_turn_refresh_for_disconnect_window Turn.default_config 5_000
      ≡ record Turn.default_config { permission_refresh_ms = 30_000; channel_refresh_ms = 30_000 })
    × (5_000
        < (tune_turn_refresh_for_disconnect_window Turn.default_config 5_000).permission_refresh_ms)
    × (5_000
        < (tune_turn_refresh_for_disconnect_window Turn.default_config 5_000).channel_refresh_ms)
tune-short_window_example =
    tune-short_window Turn.default_config 5_000 (omega arith) (omega arith) (omega arith)

on_failures_example :
    (TurnAction.retry_after 2_000
      ≡ back_off Turn.default_config.retry_backoff_ms ((Turn.new Turn.default_config).retries + 1))
    × ((on_failures (1 ∷ 2 ∷ 3 ∷ []) (Turn.new Turn.default_config)).1
        ≡ after_failures 3 (Turn.new Turn.default_config))
unfolding on_failures on_event
on_failures_example =
    on_failures_lem 1 (2 ∷ 3 ∷ []) (Turn.new Turn.default_config) 1 (TurnAction.retry_after 2_000)
      (omega arith) refl

abbrev relay : TurnManager
relay = (on_event 0 (Turn.allocation_ok 600) (Turn.new Turn.default_config)).1

on_tick_iff_example :
    (Turn.on_tick 1_000 relay ≡ noop)
    ↔ ((1_000 < refresh_at relay.cfg 600_000) × (1_000 < 240_000) × (1_000 < 540_000))
unfolding on_event
on_tick_iff_example = on_tick_iff 1_000 relay 600_000 240_000 540_000 refl refl refl refl

-- A binding success whose only attribute is not the address.
abbrev no_address : List ℕ
no_address =
    1 ∷ 1 ∷ 0 ∷ 4 ∷ 33 ∷ 18 ∷ 164 ∷ 66 ∷ 1 ∷ 2 ∷ 3 ∷ 4 ∷ 5 ∷ 6 ∷ 7 ∷ 8 ∷ 9 ∷ 10 ∷ 11 ∷ 12 ∷ 128 ∷ 34
    ∷ 0 ∷ 0 ∷ []

attributes_loop_terminates_example :
    attributes_loop 24 20 no_address ≡ some (parse_attributes no_address)
attributes_loop_terminates_example = attributes_loop_terminates no_address (omega arith)

abbrev session : SessionRecord
session = record {
  cid = 7;
  peer_id = "peer";
  negotiated_msr_interval_ms = 15_000;
  disconnect_window_ms = 180_000;
  last_ordered_rx = 4;
  last_ordered_tx = 2;
}

abbrev empty_store : InMemorySessionStore
empty_store = record { shards = [] ∷ [] ∷ [] }

abbrev first : VersionedRecord
first = record { version = 1; record_ = session; expires_at_ms = 150 }

compare_and_swap-other_example :
    entry_at 8 (compare_and_swap 7 none session 100 50 empty_store).1 ≡ entry_at 8 empty_store
compare_and_swap-other_example =
    compare_and_swap-other 7 none session 100 50 8 empty_store (omega arith) (omega arith)

load-compare_and_swap_example :
    (load 7 149 (compare_and_swap 7 none session 100 50 empty_store).1).0 ≡ some first
unfolding compare_and_swap compare_and_swap_shard effective_entry next_entry shard_at set_shard get
load-compare_and_swap_example =
    load-compare_and_swap 7 none session 100 50 empty_store first 149 (omega arith) refl
      (omega arith)

compare_and_swap-again_example :
    (compare_and_swap 7 none session 100 60
      (compare_and_swap 7 none session 100 50 empty_store).1).0
    ≡ err (cas_conflict none (some 1))
unfolding compare_and_swap compare_and_swap_shard effective_entry next_entry shard_at set_shard get
compare_and_swap-again_example =
    compare_and_swap-again 7 none session 100 50 empty_store first session 100 60 (omega arith) refl
      (omega arith) (omega arith)

abbrev pair_of : ℕ → ℕ → CandidatePairState → CandidatePair
pair_of index priority state = record {
  local_index = index;
  remote_index = 0;
  priority = priority;
  nominated = false;
  state = state;
}

abbrev checklist : IceChecklist
checklist = record {
  local = [];
  remote = [];
  pairs = pair_of 0 90 failed ∷ pair_of 1 70 succeeded ∷ pair_of 2 60 succeeded ∷ [];
}

nominate_best_example :
    IsNominated checklist.pairs ((nominate_best checklist).0, (nominate_best checklist).1.pairs)
    × ((nominate_best checklist).1.local ≡ [])
    × ((nominate_best checklist).1.remote ≡ [])
nominate_best_example = nominate_best-IsNominated checklist
