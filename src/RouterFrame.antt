-- ===== src/RouterFrame.antt =====
-- The router's binary frames: services/router/internal/gateway/binary_frame.go, with the constants
-- of constants.go. Bytes, writers and readers are those of the gateway's protocol here.
pub mod RoundTrip
mod Examples
use mcp_bridge.Prelude.{
  ℕ, zero, ◌+◌, ◌*◌, ◌%◌, ◌^◌, ◌-◌, Bool, Option, none, some, List, [], ◌∷◌, ◌++◌, ltb, ◌==◌,
  if◌then◌else◌, length, Result, ok, err, ◌>>=◌, or_fail,
}
use mcp_bridge.Wire.{split_bytes, IoError, eof, unexpected_eof}
use mcp_bridge.Wire.Bytes.{be16, be32, of_be}

abbrev pub magic_bytes : ℕ
magic_bytes = 0x4D435000

abbrev pub max_payload_size : ℕ
max_payload_size = 10 * 1024 * 1024

pub record BinaryFrame : Type 0 where
  pub magic : ℕ  -- uint32
  pub version : ℕ  -- uint16
  pub message_type : ℕ  -- uint16
  pub payload_len : ℕ  -- uint32
  pub payload : List ℕ

pub data WriteError : Type 0 where
  write_magic write_version write_type write_reserved write_length write_payload : WriteError
  oversized : ℕ → WriteError

-- The length, once the bound of uint32 is checked, and the payload.
write_body {ℓ} : {W : Type ℓ} → (W → List ℕ → Option W) → List ℕ → W → Result WriteError W
write_body write payload w =
    if ltb (2 ^ 32 - 1) (length payload) then err (oversized (length payload)) else (do
      w1 ← or_fail (write w (be32 (length payload))) write_length
      if ltb 0 (length payload) then or_fail (write w1 payload) write_payload else ok w1)

-- `WriteToWriter`, over any writer. It reads neither `Magic` nor `PayloadLen`.
unfoldable pub write_to_writer {ℓ} :
    {W : Type ℓ} → (W → List ℕ → Option W) → BinaryFrame → W → Result WriteError W
unfolding write_body
write_to_writer write f w = do
  w1 ← or_fail (write w (be32 magic_bytes)) write_magic
  w2 ← or_fail (write w1 (be16 f.version)) write_version
  w3 ← or_fail (write w2 (be16 f.message_type)) write_type
  w4 ← or_fail (write w3 (be32 0)) write_reserved
  write_body write f.payload w4

pub data ReadError : Type 0 where
  read_magic read_version read_type read_reserved read_length read_payload : IoError → ReadError
  invalid_magic payload_too_large : ℕ → ReadError

-- `binary.Read` and `io.ReadFull` of `n` bytes, for a positive `n`.
unfoldable pub read_full : ℕ → List ℕ → (IoError → ReadError) → Result ReadError (List ℕ × List ℕ)
unfolding split_bytes
read_full n bs e = or_fail (split_bytes n bs) (e (if length bs == 0 then eof else unexpected_eof))

-- `ReadBinaryFrame` after the magic bytes: version, type and reserved padding, which may be
-- anything.
unfoldable pub read_fields : List ℕ → Result ReadError (ℕ × ℕ × List ℕ)
unfolding read_full
read_fields bs = do
  (v, r1) ← read_full 2 bs read_version
  (t, r2) ← read_full 2 r1 read_type
  (reserved, r3) ← read_full 4 r2 read_reserved
  ok (of_be v, of_be t, r3)

-- `ReadBinaryFrame` from the payload length on.
unfoldable pub read_body : List ℕ → Result ReadError (List ℕ × List ℕ)
unfolding read_full
read_body bs = do
  (n, rest) ← read_full 4 bs read_length
  if ltb max_payload_size (of_be n)
      then err (payload_too_large (of_be n))
      else if ltb 0 (of_be n)
      then read_full (of_be n) rest read_payload
      else ok ([], rest)

-- `ReadBinaryFrame`; the second part of the result is what is left in the reader. The frame's
-- `Magic` and `PayloadLen` keep their zero values.
unfoldable pub read_binary_frame : List ℕ → Result ReadError (BinaryFrame × List ℕ)
unfolding read_full
read_binary_frame bs = do
  (magic, r1) ← read_full 4 bs read_magic
  r2 ← if of_be magic == magic_bytes then ok r1 else err (invalid_magic (of_be magic))
  (v, t, r3) ← read_fields r2
  (p, rest) ← read_body r3
  ok (record { magic = 0; version = v; message_type = t; payload_len = 0; payload = p }, rest)
