-- ===== src/Examples.antt =====
-- The theorems at concrete inputs, with the `bytes` crate as functions on lists of bytes.
use todero_protocol_native.Base.{
  ℕ, zero, suc, ◌+◌, ◌≡◌, refl, sym, ◌∙◌, ap, List, [], ◌∷◌, ◌++◌, length, take, drop, take_append,
  drop_append,
}
use todero_protocol_native.Base.Words.{to_be_bytes, from_be_bytes}
use todero_protocol_native.Wire.Buffer.{Buf}
pub mod Maps
pub mod Disks
pub mod Datagrams
pub mod Sessions
pub mod Policies
pub mod Guards
pub mod Frames
pub mod Runtimes

-- The word in the first `n` bytes, and the rest.
abbrev pub read_word : ℕ → List ℕ → ℕ × List ℕ
read_word n bs = (from_be_bytes (take n bs), drop n bs)

abbrev pub first_byte : List ℕ → ℕ
first_byte [] = 0
first_byte (b ∷ bs) = b

pub read_word-append :
    (n : ℕ) (bs rest : List ℕ) → length bs ≡ n → read_word n (bs ++ rest) ≡ (from_be_bytes bs, rest)
read_word-append n bs rest e =
    ap (λ k. read_word k (bs ++ rest)) (sym e) ∙ rw (take_append bs rest, drop_append bs rest)

instance abbrev pub byte_lists : Buf
byte_lists = record {
  get_u8 = λ bs. (first_byte bs, drop 1 bs);
  get_u16 = read_word 2;
  get_u64 = read_word 8;
  copy_to_slice = λ n bs. (take n bs, drop n bs);
  remaining = length;
  put_u8 = λ out v. out ++ to_be_bytes 1 v;
  put_u16 = λ out v. out ++ to_be_bytes 2 v;
  put_u64 = λ out v. out ++ to_be_bytes 8 v;
  extend_from_slice = λ out bs. out ++ bs;
  get_u8_law = λ b rest. refl;
  get_u16_law = λ bs rest e. read_word-append 2 bs rest e;
  get_u64_law = λ bs rest e. read_word-append 8 bs rest e;
  copy_to_slice_law = λ bs rest. rw (take_append bs rest, drop_append bs rest);
  remaining_law = λ bs. refl;
  put_u8_law = λ out v. refl;
  put_u16_law = λ out v. refl;
  put_u64_law = λ out v. refl;
  extend_from_slice_law = λ out bs. refl;
}
