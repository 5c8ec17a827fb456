-- ===== src/Runtime/Client/Discovery.antt =====
-- `load_remote_candidates_from_discovery` of v3-client-runtime/src/lib.rs. serde_json and the parser of IP
-- addresses are parameters.
use Prim.Native.String.{String}
use text.Mathlib.Text.{◌==◌ as str_eq}
use mathlib.Core.Path.{subst}
use mathlib.Core.Option.{none-ne-some}
use todero_protocol_native.Base.{
  some-injective, ℕ, ◌%◌, ◌^◌, ◌≡◌, refl, ◌⊎◌, inl, inr, ap, ◌∙◌, List, [], ◌∷◌, Option, none, some,
  Result, ok, err, ◌>>=◌, if◌then◌else◌, length, sym, Option-cases,
}
use todero_protocol_native.Traversal.Candidates.{
  IceCandidate, IpAddr, CandidateType, host, srflx, relay,
}
use todero_protocol_native.Runtime.Client.{
  ClientRuntime, ClientRuntimeError, invalid_candidate_payload,
}

pub record Json : Type 1 where
  pub Value : Type 0
  pub get_field : String → Value → Option Value
  pub as_array : Value → Option (List Value)
  pub as_str : Value → Option String
  pub as_u64 : Value → Option ℕ
  pub parse_address : String → Option IpAddr

abbrev pub and_then {ℓ κ} : {A : Type ℓ} {B : Type κ} → Option A → (A → Option B) → Option B
and_then none f = none
and_then (some a) f = f a

abbrev pub unwrap_or {ℓ} : {A : Type ℓ} → Option A → A → A
unwrap_or none d = d
unwrap_or (some a) d = a

-- `o.ok_or(ClientRuntimeError::InvalidCandidatePayload)`
abbrev pub or_invalid {ℓ} : {A : Type ℓ} → Option A → Result ClientRuntimeError A
or_invalid none = err invalid_candidate_payload
or_invalid (some a) = ok a

unfoldable pub candidate_type : String → CandidateType
candidate_type t = if str_eq t "relay" then relay else if str_eq t "srflx" then srflx else host

module _ (json : Json) where
  open json use {Value, get_field, as_array, as_str, as_u64, parse_address}

  -- The candidate that a round of the loop pushes. The casts keep the low bits of the port and of the
  -- priority.
  abbrev pub candidate_from : Value → IpAddr → ℕ → IceCandidate
  candidate_from c address port = record {
    foundation = unwrap_or (and_then (get_field "foundation" c) as_str) "remote";
    component = 1;
    transport = "udp";
    priority = unwrap_or (and_then (get_field "priority" c) as_u64) 100 % 2 ^ 32;
    address = address;
    port = port % 2 ^ 16;
    typ = candidate_type (unwrap_or (and_then (get_field "type" c) as_str) "host");
    related_address = none;
    related_port = none;
  }

  -- A round of the loop.
  unfoldable pub parse_candidate : Value → Result ClientRuntimeError IceCandidate
  parse_candidate c = do
    address ← or_invalid (and_then (get_field "address" c) as_str)
    port ← or_invalid (and_then (get_field "port" c) as_u64)
    parsed ← or_invalid (parse_address address)
    ok (candidate_from c parsed port)

  unfoldable pub parse_candidates : List Value → Result ClientRuntimeError (List IceCandidate)
  parse_candidates [] = ok []
  parse_candidates (c ∷ cs) = do
    candidate ← parse_candidate c
    rest ← parse_candidates cs
    ok (candidate ∷ rest)

  unfoldable pub load_remote_candidates_from_discovery :
      Value → ClientRuntime → ClientRuntime × Result ClientRuntimeError ℕ
  load_remote_candidates_from_discovery payload self =
      elim (or_invalid (and_then (get_field "candidates" payload) as_array)
        >>= (λ candidates. parse_candidates candidates)) [
          | err e ↦ (self, err e)
          | ok parsed ↦ (record self { remote_candidates = parsed }, ok (length parsed))
        ]

  -- The candidate `p` is what the element `c` of the array says: its address and its port are there,
  -- the address is one, and the casts keep the low bits of the numbers.
  pub record Describes (c : Value) (p : IceCandidate) : Type 0 where
    pub address_text : String
    pub port_number : ℕ
    pub has_address : and_then (get_field "address" c) as_str ≡ some address_text
    pub has_port : and_then (get_field "port" c) as_u64 ≡ some port_number
    pub is_address : parse_address address_text ≡ some p.address
    pub is_port : p.port ≡ port_number % 2 ^ 16
    pub is_priority : p.priority ≡ unwrap_or (and_then (get_field "priority" c) as_u64) 100 % 2 ^ 32
    pub is_type : p.typ ≡ candidate_type (unwrap_or (and_then (get_field "type" c) as_str) "host")
    pub is_foundation :
        p.foundation ≡ unwrap_or (and_then (get_field "foundation" c) as_str) "remote"

  -- Element by element.
  abbrev pub AreDescribed : List Value → List IceCandidate → Type 0
  AreDescribed [] [] = Unit {0}
  AreDescribed [] (p ∷ ps) = ⊥
  AreDescribed (c ∷ cs) [] = ⊥
  AreDescribed (c ∷ cs) (p ∷ ps) = Describes c p × AreDescribed cs ps

  -- What a load does: where the payload has an array and candidates that its elements describe, these
  -- are the remote candidates and their number is returned; where it has not, nothing changes.
  pub data Loads (payload : Value) (self : ClientRuntime)
      : ClientRuntime × Result ClientRuntimeError ℕ → Type 0 where
    taken :
        (cs : List Value) (parsed : List IceCandidate)
        → and_then (get_field "candidates" payload) as_array ≡ some cs
        → AreDescribed cs parsed
        → Loads payload self (record self { remote_candidates = parsed }, ok (length parsed))
    refused :
        ((cs : List Value) (parsed : List IceCandidate)
          → and_then (get_field "candidates" payload) as_array ≡ some cs
          → AreDescribed cs parsed
          → ⊥)
        → Loads payload self (self, err invalid_candidate_payload)

  parse_candidate_lem :
      (c : Value)
      → ((p : IceCandidate) × (parse_candidate c ≡ ok p) × Describes c p)
        ⊎ ((parse_candidate c ≡ err invalid_candidate_payload)
            × ((p : IceCandidate) → Describes c p → ⊥))
  unfolding parse_candidate
  parse_candidate_lem c = elim (Option-cases (and_then (get_field "address" c) as_str)) [
    | inl missing ↦ inr (rw missing, λ p d. none-ne-some _ (sym missing ∙ d.has_address))
    | inr (address, a) ↦ elim (Option-cases (and_then (get_field "port" c) as_u64)) [
      | inl missing ↦ inr (rw (a, missing), λ p d. none-ne-some _ (sym missing ∙ d.has_port))
      | inr (port, n) ↦ elim (Option-cases (parse_address address)) [
        | inl bad ↦ inr (
          rw (a, n, bad),
          λ p d.
              let same = some-injective (sym a ∙ d.has_address) in
              none-ne-some _ (sym bad ∙ ap parse_address same ∙ d.is_address),
        )
        | inr (parsed, q) ↦ inl (
          candidate_from c parsed port,
          rw (a, n, q) refl,
          record {
            address_text = address;
            port_number = port;
            has_address = a;
            has_port = n;
            is_address = q;
            is_port = refl;
            is_priority = refl;
            is_type = refl;
            is_foundation = refl;
          },
        )
      ]
    ]
  ]

  parse_candidates_lem :
      (cs : List Value)
      → ((ps : List IceCandidate) × (parse_candidates cs ≡ ok ps) × AreDescribed cs ps)
        ⊎ ((parse_candidates cs ≡ err invalid_candidate_payload)
            × ((ps : List IceCandidate) → AreDescribed cs ps → ⊥))
  unfolding parse_candidates
  parse_candidates_lem [] = inl ([], refl, tt)
  parse_candidates_lem (c ∷ cs) = elim (parse_candidate_lem c) [
    | inr (e, none_of) ↦ inr (rw e, not_first none_of)
    | inl (p, e, d) ↦ elim (parse_candidates_lem cs) [
      | inr (es, none_of) ↦ inr (rw (e, es), not_rest none_of)
      | inl (ps, es, ds) ↦ inl (p ∷ ps, rw (e, es), (d, ds))
    ]
  ]
    where
      not_first :
          ((p : IceCandidate) → Describes c p → ⊥)
          → (ps : List IceCandidate) → AreDescribed (c ∷ cs) ps
          → ⊥
      not_first none_of [] d = d
      not_first none_of (p ∷ ps) (d, ds) = none_of p d

      not_rest :
          ((ps : List IceCandidate) → AreDescribed cs ps → ⊥)
          → (ps : List IceCandidate) → AreDescribed (c ∷ cs) ps
          → ⊥
      not_rest none_of [] d = d
      not_rest none_of (p ∷ ps) (d, ds) = none_of ps ds

  -- A discovery payload is taken whole or not at all. Where it has an array of candidates and each
  -- element has an address that is one and a port, the remote candidates are those that the elements
  -- describe, in their order, and their number is returned; where it has no array, or any element is
  -- malformed, the runtime stays as it was and the error is InvalidCandidatePayload.
  pub load_remote_candidates_lem :
      (payload : Value) (self : ClientRuntime)
      → Loads payload self (load_remote_candidates_from_discovery payload self)
  unfolding load_remote_candidates_from_discovery
  load_remote_candidates_lem payload self =
      elim (Option-cases (and_then (get_field "candidates" payload) as_array)) [
        | inl missing ↦
            rw (missing, load_remote_candidates_from_discovery)
              (refused (λ cs ps found d. none-ne-some _ (sym missing ∙ found)))
        | inr (cs, found) ↦ elim (parse_candidates_lem cs) [
          | inl (ps, e, d) ↦
              rw (found, e, load_remote_candidates_from_discovery) (taken cs ps found d)
          | inr (e, none_of) ↦
              rw (found, e, load_remote_candidates_from_discovery)
                (refused (λ other ps at_ d.
                  none_of ps
                    (subst (λ xs. AreDescribed xs ps) (sym (some-injective (sym found ∙ at_))) d)))
        ]
      ]
