-- ===== src/Wire.antt =====
-- v3-wire/src/lib.rs: the framing of a datagram. A byte is a number below 256, a slice or a vector
-- of bytes is a list; the `bytes` crate is the instance argument `buf`.
pub mod Buffer
pub mod Encode
pub mod Decode
pub mod Loop
pub mod RoundTrip
pub mod Canonical
pub mod Cut
use todero_protocol_native.Base.{
  ℕ, zero, suc, ◌+◌, ◌*◌, ◌%◌, ◌^◌, Bool, not, List, [], ◌∷◌, ◌++◌, Option, none, some, Result, ok,
  err, refuse_if, ◌>>=◌, ◌>>◌, ltb, leb, ◌==◌, if◌then◌else◌, length, take,
}
use Buffer.{Buf}

abbrev pub wire_version_v3 : ℕ
wire_version_v3 = 0x03

abbrev pub header_len : ℕ
header_len = 1 + 1 + 1 + 8 + 2 + 2

abbrev pub max_tlv_count : ℕ
max_tlv_count = 64

abbrev pub max_tlv_value_len : ℕ
max_tlv_value_len = 2048

abbrev pub max_payload_len : ℕ
max_payload_len = 64 * 1024

pub data MessageType : Type 0 where
  client_hello server_hello hello_ack msr request_range data_frame fragment error close :
      MessageType

pub data WireError : Type 0 where
  truncated : WireError
  unsupported_version : ℕ → WireError
  unknown_message_type : ℕ → WireError
  payload_too_large : ℕ → WireError
  too_many_tlvs : ℕ → WireError
  tlv_too_large : ℕ → WireError
  tlv_block_too_large : ℕ → WireError
  malformed_tlv : WireError
  -- `remaining`, then `expected`
  length_mismatch : ℕ → ℕ → WireError

-- `message_type as u8`
unfoldable pub to_u8 : MessageType → ℕ
to_u8 client_hello = 0x01
to_u8 server_hello = 0x02
to_u8 hello_ack = 0x03
to_u8 msr = 0x10
to_u8 request_range = 0x11
to_u8 data_frame = 0x12
to_u8 fragment = 0x13
to_u8 error = 0x7e
to_u8 close = 0x7f

unfoldable pub from_u8 : ℕ → Result WireError MessageType
from_u8 value =
    if value == 0x01
    then ok client_hello
    else if value == 0x02
    then ok server_hello
    else if value == 0x03
    then ok hello_ack
    else if value == 0x10
    then ok msr
    else if value == 0x11
    then ok request_range
    else if value == 0x12
    then ok data_frame
    else if value == 0x13
    then ok fragment
    else if value == 0x7e
    then ok error
    else if value == 0x7f
    then ok close
    else err (unknown_message_type value)

pub record Tlv : Type 0 where
  pub kind : ℕ
  pub value : List ℕ

pub record WireFrame : Type 0 where
  pub version : ℕ
  pub message_type : MessageType
  pub flags : ℕ
  pub cid : ℕ
  pub payload : List ℕ
  pub tlvs : List Tlv

-- `WireFrame::new`
abbrev pub new : MessageType → ℕ → ℕ → List ℕ → List Tlv → WireFrame
new message_type flags cid payload tlvs = record {
  version = wire_version_v3;
  message_type = message_type;
  flags = flags;
  cid = cid;
  payload = payload;
  tlvs = tlvs;
}

unfoldable pub validate_frame : WireFrame → Result WireError (Unit {0})
validate_frame frame = do
  refuse_if (not (frame.version == wire_version_v3)) (unsupported_version frame.version)
  refuse_if (ltb max_payload_len (length frame.payload)) (payload_too_large (length frame.payload))
  refuse_if (ltb max_tlv_count (length frame.tlvs)) (too_many_tlvs (length frame.tlvs))
  ok tt

module _ ⦃buf : Buf⦄ where
  open buf use {
    get_u8, get_u16, get_u64, copy_to_slice, remaining, put_u8, put_u16, put_u64, extend_from_slice,
  }

  -- The loop of `encode` over the TLVs, with the block written so far.
  unfoldable pub encode_tlvs : List ℕ → List Tlv → Result WireError (List ℕ)
  encode_tlvs tlv_block [] = ok tlv_block
  encode_tlvs tlv_block (tlv ∷ tlvs) =
      let block =
        extend_from_slice (put_u16 (put_u8 tlv_block tlv.kind) (length tlv.value % 2 ^ 16))
          tlv.value in
      let rest = encode_tlvs block tlvs in
      if ltb max_tlv_value_len (length tlv.value)
      then err (tlv_too_large (length tlv.value))
      else rest

  unfoldable pub encode : WireFrame → Result WireError (List ℕ)
  encode self = do
    validate_frame self
    let payload_len = length self.payload % 2 ^ 16
    tlv_block ← encode_tlvs [] self.tlvs
    let tlv_len = length tlv_block
    refuse_if (ltb 0xffff tlv_len) (tlv_block_too_large tlv_len)
    let out = put_u8 (put_u8 (put_u8 [] self.version) (to_u8 self.message_type)) self.flags
    let out' = put_u16 (put_u16 (put_u64 out self.cid) payload_len) (tlv_len % 2 ^ 16)
    ok (extend_from_slice (extend_from_slice out' self.payload) tlv_block)

  -- One round of the loop of `decode_tlvs`: the TLV read and the input left. `count` is `out.len()`.
  unfoldable pub decode_tlv : List ℕ → ℕ → Result WireError (Tlv × List ℕ)
  decode_tlv input count = do
    refuse_if (ltb (length input) 3) malformed_tlv
    refuse_if (leb max_tlv_count count) (too_many_tlvs count)
    let (kind, input1) = get_u8 input
    let (len, input2) = get_u16 input1
    refuse_if (ltb max_tlv_value_len len) (tlv_too_large len)
    refuse_if (ltb (remaining input2) len) malformed_tlv
    let (value, input3) = copy_to_slice len input2
    ok (record { kind = kind; value = value }, input3)

  -- `while !input.is_empty()`, with fuel; `none` is no result of the program, the fuel ran out.
  unfoldable pub decode_tlvs_loop : ℕ → List ℕ → List Tlv → Option (Result WireError (List Tlv))
  decode_tlvs_loop fuel [] out = some (ok out)
  decode_tlvs_loop zero (b ∷ bs) out = none
  decode_tlvs_loop (suc fuel) (b ∷ bs) out = elim (decode_tlv (b ∷ bs) (length out)) [
    | ok (tlv, input) ↦ decode_tlvs_loop fuel input (out ++ (tlv ∷ []))
    | err e ↦ some (err e)
  ]

  -- A round takes three bytes at least, so the length of the input is enough fuel, and `none` is
  -- never met.
  unfoldable pub decode_tlvs : List ℕ → Result WireError (List Tlv)
  decode_tlvs input = elim (decode_tlvs_loop (length input) input []) [
    | some r ↦ r
    | none ↦ err malformed_tlv
  ]

  unfoldable pub decode : List ℕ → Result WireError WireFrame
  decode input = do
    refuse_if (ltb (length input) header_len) truncated
    let (version, buf1) = get_u8 input
    refuse_if (not (version == wire_version_v3)) (unsupported_version version)
    let (type_byte, buf2) = get_u8 buf1
    message_type ← from_u8 type_byte
    let (flags, buf3) = get_u8 buf2
    let (cid, buf4) = get_u64 buf3
    let (payload_len, buf5) = get_u16 buf4
    let (tlv_len, buf6) = get_u16 buf5
    refuse_if (ltb max_payload_len payload_len) (payload_too_large payload_len)
    refuse_if (not (remaining buf6 == payload_len + tlv_len))
        (length_mismatch (remaining buf6) (payload_len + tlv_len))
    let (payload, buf7) = copy_to_slice payload_len buf6
    tlvs ← decode_tlvs (take tlv_len buf7)
    ok (record {
      version = version;
      message_type = message_type;
      flags = flags;
      cid = cid;
      payload = payload;
      tlvs = tlvs;
    })
