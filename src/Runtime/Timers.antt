-- ===== src/Runtime/Timers.antt =====
-- The timers of v3-client-runtime/src/lib.rs and v3-server-runtime/src/lib.rs: lists of entries by deadline,
-- in the order of the deadlines.
use todero_protocol_native.Base.{
  ℕ, ◌||◌, Bool, true, false, List, [], ◌∷◌, ◌++◌, Option, none, some, if◌then◌else◌, ltb, leb,
  length, is_empty,
}
use todero_protocol_native.Base.BTreeMap.{BTreeMap, get, insert, remove}
use todero_protocol_native.Core.Types.{
  TimerId, server_msr, client_probe, disconnect, renegotiation_timeout,
}

abbrev pub Timers : Type 0 → Type 0
Timers A = BTreeMap (List A)

-- `==` of `TimerId`, which is derived.
abbrev pub same_timer : TimerId → TimerId → Bool
same_timer server_msr server_msr = true
same_timer client_probe client_probe = true
same_timer disconnect disconnect = true
same_timer renegotiation_timeout renegotiation_timeout = true
same_timer server_msr client_probe = false
same_timer server_msr disconnect = false
same_timer server_msr renegotiation_timeout = false
same_timer client_probe server_msr = false
same_timer client_probe disconnect = false
same_timer client_probe renegotiation_timeout = false
same_timer disconnect server_msr = false
same_timer disconnect client_probe = false
same_timer disconnect renegotiation_timeout = false
same_timer renegotiation_timeout server_msr = false
same_timer renegotiation_timeout client_probe = false
same_timer renegotiation_timeout disconnect = false

module _ {A : Type 0} where
  abbrev pub or_default : Option (List A) → List A
  or_default none = []
  or_default (some xs) = xs

  -- `timers.entry(deadline).or_default().push(entry)`
  unfoldable pub push_entry : ℕ → A → Timers A → Timers A
  push_entry deadline entry timers =
      insert deadline (or_default (get deadline timers) ++ (entry ∷ [])) timers

  -- The inner loop of `poll_timers`: the entries of one deadline.
  unfoldable pub due_entries : ℕ → ℕ → List A → List (ℕ × A) → List (ℕ × A)
  due_entries limit deadline [] due = due
  due_entries limit deadline (entry ∷ entries) due =
      let rest = due_entries limit deadline entries (due ++ ((deadline, entry) ∷ [])) in
      if leb limit (length due) then due else rest

  -- The outer one, over the deadlines that have come.
  unfoldable pub due_timers : ℕ → ℕ → Timers A → List (ℕ × A) → List (ℕ × A)
  due_timers now_ms limit [] due = due
  due_timers now_ms limit ((deadline, entries) ∷ timers) due =
      let rest = due_timers now_ms limit timers (due_entries limit deadline entries due) in
      if ltb now_ms deadline || leb limit (length due) then due else rest

  module _ (same : A → A → Bool) where
    -- `position` and `remove`.
    unfoldable pub remove_first : A → List A → List A
    remove_first entry [] = []
    remove_first entry (x ∷ xs) = if same x entry then xs else x ∷ remove_first entry xs

    -- A due entry is taken off, and its deadline where it was the last one.
    unfoldable pub take_off : ℕ → A → Timers A → Timers A
    take_off deadline entry timers = elim (get deadline timers) [
      | none ↦ timers
      | some entries ↦
          if is_empty (remove_first entry entries)
          then remove deadline timers
          else insert deadline (remove_first entry entries) timers
    ]
