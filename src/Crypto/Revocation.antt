-- ===== src/Crypto/Revocation.antt =====
-- `MtlsPolicy` and `RevocationList` of v3-crypto/src/lib.rs.
use Prim.Native.String.{String}
use todero_protocol_native.Base.{Bool, true, false, ◌||◌, List, [], ◌∷◌, ◌++◌, if◌then◌else◌}
use todero_protocol_native.Traversal.Candidates.{same_text}

pub data MtlsPolicy : Type 0 where
  disabled optional_ required : MtlsPolicy

abbrev pub requires_client_cert : MtlsPolicy → Bool
requires_client_cert disabled = false
requires_client_cert optional_ = false
requires_client_cert required = true

abbrev pub RevocationList : Type 0
RevocationList = List String

-- `iter().any(|x| x == &fp)`
unfoldable pub any_same : String → RevocationList → Bool
any_same fp [] = false
any_same fp (x ∷ xs) = same_text x fp || any_same fp xs

-- `lower` is `str::to_ascii_lowercase`.
module _ (lower : String → String) where
  unfoldable pub revoke_fingerprint : String → RevocationList → RevocationList
  revoke_fingerprint fingerprint self =
      if any_same (lower fingerprint) self then self else self ++ (lower fingerprint ∷ [])

  unfoldable pub is_revoked : String → RevocationList → Bool
  is_revoked fingerprint self = any_same (lower fingerprint) self
