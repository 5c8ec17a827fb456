-- ===== src/Wire/Buffer.antt =====
-- The `bytes` crate, which v3-wire/src/lib.rs reads and writes datagrams through (`Buf` of a byte
-- slice and `BytesMut`). The crate is not part of the repository: its methods are a parameter, and
-- the laws are its documentation, that words are big-endian and that a read advances the slice.
use todero_protocol_native.Base.{ℕ, ◌≡◌, List, ◌∷◌, ◌++◌, length}
use todero_protocol_native.Base.Words.{to_be_bytes, from_be_bytes}

pub record Buf : Type 0 where
  pub get_u8 : List ℕ → ℕ × List ℕ
  pub get_u16 : List ℕ → ℕ × List ℕ
  pub get_u64 : List ℕ → ℕ × List ℕ
  -- The bytes that fill a slice of the given length, and the rest of the input.
  pub copy_to_slice : ℕ → List ℕ → List ℕ × List ℕ
  pub remaining : List ℕ → ℕ
  pub put_u8 : List ℕ → ℕ → List ℕ
  pub put_u16 : List ℕ → ℕ → List ℕ
  pub put_u64 : List ℕ → ℕ → List ℕ
  pub extend_from_slice : List ℕ → List ℕ → List ℕ
  pub get_u8_law : (b : ℕ) (rest : List ℕ) → get_u8 (b ∷ rest) ≡ (b, rest)
  pub get_u16_law :
      (bs rest : List ℕ) → length bs ≡ 2 → get_u16 (bs ++ rest) ≡ (from_be_bytes bs, rest)
  pub get_u64_law :
      (bs rest : List ℕ) → length bs ≡ 8 → get_u64 (bs ++ rest) ≡ (from_be_bytes bs, rest)
  pub copy_to_slice_law : (bs rest : List ℕ) → copy_to_slice (length bs) (bs ++ rest) ≡ (bs, rest)
  pub remaining_law : (bs : List ℕ) → remaining bs ≡ length bs
  pub put_u8_law : (out : List ℕ) (v : ℕ) → put_u8 out v ≡ out ++ to_be_bytes 1 v
  pub put_u16_law : (out : List ℕ) (v : ℕ) → put_u16 out v ≡ out ++ to_be_bytes 2 v
  pub put_u64_law : (out : List ℕ) (v : ℕ) → put_u64 out v ≡ out ++ to_be_bytes 8 v
  pub extend_from_slice_law : (out bs : List ℕ) → extend_from_slice out bs ≡ out ++ bs
