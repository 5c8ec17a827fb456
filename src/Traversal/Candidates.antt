-- ===== src/Traversal/Candidates.antt =====
-- Candidates of v3-nat/src/lib.rs, and which of them a policy lets through.
use Prim.Native.String.{String}
use todero_protocol_native.Base.{ℕ, Bool, true, false, List, [], ◌∷◌, Option, if◌then◌else◌}
use text.Mathlib.Text

pub data CandidateType : Type 0 where
  host srflx relay : CandidateType

abbrev pub is_relay : CandidateType → Bool
is_relay host = false
is_relay srflx = false
is_relay relay = true

-- `std::net::IpAddr`, by its bytes
pub data IpAddr : Type 0 where
  v4 v6 : List ℕ → IpAddr

pub record IceCandidate : Type 0 where
  pub foundation : String
  pub component : ℕ
  pub transport : String
  pub priority : ℕ
  pub address : IpAddr
  pub port : ℕ
  pub typ : CandidateType
  pub related_address : Option IpAddr
  pub related_port : Option ℕ

abbrev pub same_text : String → String → Bool
same_text a b = Text.◌==◌ a b

pub data RelayPolicy : Type 0 where
  prefer_direct relay_only : RelayPolicy

-- The closure `allow` of `select_path_candidates`.
unfoldable pub allow : RelayPolicy → IceCandidate → Bool
allow prefer_direct c = true
allow relay_only c = is_relay c.typ

-- `iter().filter(p).collect()`
unfoldable pub filter {ℓ} : {A : Type ℓ} → (A → Bool) → List A → List A
filter p [] = []
filter p (x ∷ xs) = let rest = filter p xs in if p x then x ∷ rest else rest

unfoldable pub select_path_candidates :
    List IceCandidate → List IceCandidate → RelayPolicy → List IceCandidate × List IceCandidate
select_path_candidates local remote policy =
    (filter (allow policy) local, filter (allow policy) remote)

unfoldable pub relay_path_mtu : CandidateType → ℕ
relay_path_mtu relay = 1200
relay_path_mtu srflx = 1232
relay_path_mtu host = 1400
