-- ===== src/Runtime/Client/Delivery.antt =====
-- What the callers of the client runtime of v3-client-runtime/src/lib.rs see delivered: the runtime drives
-- the session machine by its public calls alone.
use todero_protocol_native.Base.{
  ℕ, ◌+◌, ◌%◌, ◌^◌, ◌≡◌, refl, sym, ap, ◌∙◌, List, [], ◌∷◌, ◌++◌, map, some, Result, ok, err,
  append-nil, append_assoc, get_elem?, Result-cases, inl, inr,
}
use todero_protocol_native.Wire.Buffer.{Buf}
use todero_protocol_native.Core.Types.{
  Role, TimerId, TimerProposal, path_changed, Event, CoreMachine, CoreOutput, CoreConfig, CoreError,
}
use todero_protocol_native.Core.Timers.{on_timer as core_on_timer}
use todero_protocol_native.Core.Flush.{delivered, delivered-append}
use todero_protocol_native.Core.Session.{delivered_by}
use todero_protocol_native.Core.Firing.{on_timer-Waits}
use todero_protocol_native.Core.Runs
use todero_protocol_native.Core.Runs.{perform, run, run-delivered}
use todero_protocol_native.Runtime.Timers.{same_timer, due_timers, take_off}
use todero_protocol_native.Runtime.Client.{
  ClientRuntime, ClientRuntimeError, ClientRuntimeOutput, ClientRuntimeEvent, core, Answer, new,
  empty_output, apply_core_output, applied, begin_handshake, on_datagram, send_message,
  close_session, propose_timers, on_path_changed, joined, run_due, poll_timers,
}

-- A call of one of the runtime's methods, with its arguments.
pub data ClientCall : Type 0 where
  client_begin_handshake client_close_session : ClientCall
  client_datagram : ℕ → ℕ → List ℕ → ClientCall
  client_send_message : List ℕ → ClientCall
  client_propose_timers : ℕ → TimerProposal → ClientCall
  client_path_changed : ℕ → ClientCall
  -- `now_ms` and `limit`
  client_poll_timers : ℕ → ℕ → ClientCall

-- The machine's events among those of the runtime.
abbrev pub core_events : List ClientRuntimeEvent → List Event
core_events [] = []
core_events (core e ∷ es) = e ∷ core_events es
core_events (other ∷ es) = core_events es

abbrev pub delivered_to_client : Result ClientRuntimeError ClientRuntimeOutput → List ℕ
delivered_to_client (ok out) = delivered (core_events out.events)
delivered_to_client (err e) = []

core_events-map : (es : List Event) → core_events (map core es) ≡ es
core_events-map [] = refl
core_events-map (e ∷ es) = ap (λ l. e ∷ l) (core_events-map es)

core_events-append :
    (xs ys : List ClientRuntimeEvent) → core_events (xs ++ ys) ≡ core_events xs ++ core_events ys
core_events-append [] ys = refl
core_events-append (core e ∷ xs) ys = ap (λ l. e ∷ l) (core_events-append xs ys)
core_events-append (ClientRuntimeEvent.nat_pair_nominated l r p ∷ xs) ys = core_events-append xs ys
core_events-append (ClientRuntimeEvent.turn_action a ∷ xs) ys = core_events-append xs ys
core_events-append (ClientRuntimeEvent.consent_action a ∷ xs) ys = core_events-append xs ys

module _ ⦃buf : Buf⦄ where
  unfoldable pub perform_client : ClientCall → ClientRuntime → Answer
  perform_client client_begin_handshake self = begin_handshake self
  perform_client client_close_session self = close_session self
  perform_client (client_datagram now path bytes) self = on_datagram now path bytes self
  perform_client (client_send_message payload) self = send_message payload self
  perform_client (client_propose_timers now proposal) self = propose_timers now proposal self
  perform_client (client_path_changed path) self = on_path_changed path self
  perform_client (client_poll_timers now limit) self = poll_timers now limit self

  -- The runtime after the calls, and the ids that their callers saw delivered, in order.
  unfoldable pub run_client : List ClientCall → ClientRuntime → ClientRuntime × List ℕ
  run_client [] self = (self, [])
  run_client (call ∷ calls) self =
      let r = perform_client call self in
      let rest = run_client calls r.0 in (rest.0, delivered_to_client r.1 ++ rest.1)

  -- The calls of the machine that an answer comes from.
  record Drives (self : ClientRuntime) (r : Answer) : Type 0 where
    calls : List Runs.Call
    machine : r.0.core ≡ (run calls self.core).0
    ids : delivered_to_client r.1 ≡ (run calls self.core).1

  applied-ok :
      (self : ClientRuntime) (p : CoreMachine × Result CoreError CoreOutput)
      → (delivered_to_client (applied self p).1 ≡ delivered_by p.1)
        × ((applied self p).0.core ≡ p.0)
  unfolding applied apply_core_output delivered_by
  applied-ok self (machine, err e) = (refl, refl)
  applied-ok self (machine, ok out) = (ap delivered (core_events-map out.events), refl)

  applied-Drives :
      (self : ClientRuntime) (call : Runs.Call)
      → Drives self (applied self (perform call self.core))
  unfolding run
  applied-Drives self call =
      let (ids, machine) = applied-ok self (perform call self.core) in
      record { calls = call ∷ []; machine = machine; ids = ids ∙ sym (append-nil _) }

  run-append :
      (xs ys : List Runs.Call) (self : CoreMachine)
      → ((run (xs ++ ys) self).0 ≡ (run ys (run xs self).0).0)
        × ((run (xs ++ ys) self).1 ≡ (run xs self).1 ++ (run ys (run xs self).0).1)
  unfolding run
  run-append [] ys self = (refl, refl)
  run-append (x ∷ xs) ys self =
      let (machine, ids) = run-append xs ys (perform x self).0 in
      (
        machine,
        ap (λ l. delivered_by (perform x self).1 ++ l) ids
            ∙ sym (append_assoc (delivered_by (perform x self).1) _ _),
      )

  -- A poll runs timers, and these deliver nothing: also an error drops no delivery.
  run_due-Drives :
      (now : ℕ) (due : List (ℕ × TimerId)) (output : ClientRuntimeOutput) (self : ClientRuntime)
      → delivered (core_events output.events) ≡ []
      → (calls : List Runs.Call) × ((run_due now due output self).0.core ≡ (run calls self.core).0)
        × (delivered_to_client (run_due now due output self).1 ≡ [])
        × ((run calls self.core).1 ≡ [])
  unfolding run_due run perform
  run_due-Drives now [] output self h = ([], refl, h, refl)
  run_due-Drives now ((deadline, id) ∷ due) output self h =
      let taken = record self { timers = take_off same_timer deadline id self.timers } in
      let p = core_on_timer now id self.core in
      let nothing = (on_timer-Waits now id self.core).no_delivery in
      let (seen, machine) = applied-ok taken p in
      elim (Result-cases (applied taken p).1) [
        | inr (e, q) ↦
            rw (q, run_due) (Runs.call_timer now id ∷ [], machine, refl, ap (λ l. l ++ []) nothing)
        | inl (partial, q) ↦
            let quiet : delivered (core_events (joined output partial).events) ≡ [] =
              ap delivered (core_events-append output.events partial.events)
              ∙ delivered-append (core_events output.events) (core_events partial.events)
              ∙ ap (λ l. l ++ delivered (core_events partial.events)) h
              ∙ sym (ap delivered_to_client q)
              ∙ seen
              ∙ nothing in
            let (calls, same, none_seen, none_ran) =
              run_due-Drives now due (joined output partial) (applied taken p).0 quiet in
            rw (q, run_due)
              (
                Runs.call_timer now id ∷ calls,
                same ∙ ap (λ m. (run calls m).0) machine,
                none_seen,
                ap (λ l. l ++ (run calls p.0).1) nothing
                    ∙ sym (ap (λ m. (run calls m).1) machine)
                    ∙ none_ran,
              )
      ]

  perform_client-Drives :
      (call : ClientCall) (self : ClientRuntime) → Drives self (perform_client call self)
  unfolding perform_client begin_handshake on_datagram send_message close_session propose_timers
      on_path_changed poll_timers perform delivered
  perform_client-Drives client_begin_handshake self = applied-Drives self Runs.call_begin_handshake
  perform_client-Drives client_close_session self = applied-Drives self Runs.call_api_close
  perform_client-Drives (client_datagram now path bytes) self =
      applied-Drives self (Runs.call_datagram now path bytes)
  perform_client-Drives (client_send_message payload) self =
      applied-Drives self (Runs.call_api_send payload)
  perform_client-Drives (client_propose_timers now proposal) self =
      applied-Drives self (Runs.call_api_propose_timers now proposal)
  perform_client-Drives (client_path_changed path) self =
      applied-Drives self (Runs.call_path_event (path_changed path))
  perform_client-Drives (client_poll_timers now limit) self =
      let (calls, machine, seen, ran) =
        run_due-Drives now (due_timers now limit self.timers []) empty_output self refl in
      record { calls = calls; machine = machine; ids = seen ∙ sym ran }

  -- Whatever is called of a client runtime, its machine is where a sequence of calls of the machine's
  -- public methods leads, and its callers see the same ids delivered, in the same order, as those of
  -- the machine: no poll, no error and no merging of outputs loses or repeats a delivery.
  pub run_client-drives :
      (calls : List ClientCall) (self : ClientRuntime)
      → (core_calls : List Runs.Call) × ((run_client calls self).0.core
          ≡ (run core_calls self.core).0)
        × ((run_client calls self).1 ≡ (run core_calls self.core).1)
  unfolding run_client run
  run_client-drives [] self = ([], refl, refl)
  run_client-drives (call ∷ calls) self =
      let r = perform_client call self in
      let d = perform_client-Drives call self in
      let (rest, machine, ids) = run_client-drives calls r.0 in
      let (both_machine, both_ids) = run-append d.calls rest self.core in
      (
        d.calls ++ rest,
        machine ∙ ap (λ m. (run rest m).0) d.machine ∙ sym both_machine,
        ap (λ l. l ++ (run_client calls r.0).1) d.ids
            ∙ ap (λ l. (run d.calls self.core).1 ++ l) (ids ∙ ap (λ m. (run rest m).1) d.machine)
            ∙ sym both_ids,
      )

  -- Over any calls of a new client runtime, with any datagrams and times, its callers see message
  -- after message delivered, from message 1 on, without a gap and none twice (the ids wrap at
  -- 2 ^ 64).
  pub run_client-delivered :
      (calls : List ClientCall) (cid : ℕ) (cfg : CoreConfig) (i id : ℕ)
      → get_elem? (run_client calls (new cid cfg)).1 i ≡ some id
      → id ≡ (i + 1) % 2 ^ 64
  unfolding new
  run_client-delivered calls cid cfg i id e =
      let (core_calls, machine, ids) = run_client-drives calls (new cid cfg) in
      (run-delivered core_calls Role.client cid cfg).1 i id (ap (λ l. get_elem? l i) (sym ids) ∙ e)
