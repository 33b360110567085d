-- ===== src/Wire.antt =====
-- The binary wire protocol: services/gateway/pkg/wire/protocol.go.
-- Bytes are numbers below 256. A writer is a state with a `Write` that may fail; a reader is the
-- list of the bytes still to come, as `bytes.Reader` has it.
pub mod Bytes
pub mod RoundTrip
pub mod Canonical
pub mod Negotiation
mod Examples
use mcp_bridge.Prelude.{
  Result, ok, err, ◌>>=◌, or_fail, ℕ, zero, suc, ◌+◌, ◌*◌, ◌%◌, ◌^◌, ◌≡◌, refl, Bool, true, false,
  not, ◌&&◌, ◌||◌, Option, none, some, List, [], ◌∷◌, ◌++◌, ltb, leb, ◌==◌, if◌then◌else◌, length,
}
use Bytes.{be16, be32, of_be}

abbrev pub magic_bytes : ℕ
magic_bytes = 0x4D435042

abbrev pub current_version : ℕ
current_version = 1

abbrev pub min_version : ℕ
min_version = 1

abbrev pub max_version : ℕ
max_version = 1

-- `10*1024*1024` in `readPayloadLength`
abbrev pub max_payload : ℕ
max_payload = 10 * 1024 * 1024

pub record Frame : Type 0 where
  pub version : ℕ  -- uint16
  pub message_type : ℕ  -- uint16
  pub payload : List ℕ

pub data EncodeError : Type 0 where
  write_magic write_version write_type write_length write_payload : EncodeError

-- `(*Frame).Encode`, over any writer.
unfoldable pub encode {ℓ} :
    {W : Type ℓ} → (W → List ℕ → Option W) → Frame → W → Result EncodeError W
encode write f w = do
  w1 ← or_fail (write w (be32 magic_bytes)) write_magic
  w2 ← or_fail (write w1 (be16 f.version)) write_version
  w3 ← or_fail (write w2 (be16 f.message_type)) write_type
  w4 ← or_fail (write w3 (be32 (length f.payload % 2 ^ 32))) write_length
  if ltb 0 (length f.payload) then or_fail (write w4 f.payload) write_payload else ok w4

-- `bytes.Buffer`, whose `Write` appends and does not fail.
abbrev pub buffer_write : List ℕ → List ℕ → Option (List ℕ)
buffer_write buf bs = some (buf ++ bs)

unfoldable pub encode_message : ℕ → List ℕ → Result EncodeError (List ℕ)
unfolding encode
encode_message msg_type payload =
    encode buffer_write
      (record { version = current_version; message_type = msg_type; payload = payload }) []

pub data IoError : Type 0 where
  eof unexpected_eof : IoError

pub data DecodeError : Type 0 where
  read_magic read_version_failed read_type read_length read_payload : IoError → DecodeError
  invalid_magic unsupported_version payload_too_large : ℕ → DecodeError

-- `n` bytes and the rest, if there are as many.
unfoldable pub split_bytes : ℕ → List ℕ → Option (List ℕ × List ℕ)
split_bytes zero bs = some ([], bs)
split_bytes (suc n) [] = none
split_bytes (suc n) (b ∷ bs) = elim (split_bytes n bs) [
  | none ↦ none
  | some (xs, rest) ↦ some (b ∷ xs, rest)
]

-- `io.ReadFull` for a positive `n`, which `binary.Read` calls too: EOF only at the very end.
unfoldable pub read_full :
    ℕ → List ℕ → (IoError → DecodeError) → Result DecodeError (List ℕ × List ℕ)
unfolding split_bytes
read_full n bs e = or_fail (split_bytes n bs) (e (if length bs == 0 then eof else unexpected_eof))

unfoldable pub validate_magic_bytes : List ℕ → Result DecodeError (List ℕ)
unfolding read_full
validate_magic_bytes bs = do
  (magic, rest) ← read_full 4 bs read_magic
  if of_be magic == magic_bytes then ok rest else err (invalid_magic (of_be magic))

unfoldable pub read_version : List ℕ → Result DecodeError (ℕ × List ℕ)
unfolding read_full
read_version bs = do
  (v, rest) ← read_full 2 bs read_version_failed
  if ltb (of_be v) min_version || ltb max_version (of_be v)
      then err (unsupported_version (of_be v))
      else ok (of_be v, rest)

unfoldable pub read_message_type : List ℕ → Result DecodeError (ℕ × List ℕ)
unfolding read_full
read_message_type bs = do (t, rest) ← read_full 2 bs read_type; ok (of_be t, rest)

unfoldable pub read_payload_length : List ℕ → Result DecodeError (ℕ × List ℕ)
unfolding read_full
read_payload_length bs = do
  (n, rest) ← read_full 4 bs read_length
  if ltb max_payload (of_be n) then err (payload_too_large (of_be n)) else ok (of_be n, rest)

pub record FrameHeader : Type 0 where
  pub version : ℕ
  pub message_type : ℕ
  pub payload_len : ℕ

unfoldable pub read_frame_header : List ℕ → Result DecodeError (FrameHeader × List ℕ)
read_frame_header bs = do
  r1 ← validate_magic_bytes bs
  (v, r2) ← read_version r1
  (t, r3) ← read_message_type r2
  (n, r4) ← read_payload_length r3
  ok (record { version = v; message_type = t; payload_len = n }, r4)

unfoldable pub read_frame_payload : List ℕ → ℕ → Result DecodeError (List ℕ × List ℕ)
unfolding read_full
read_frame_payload bs n = if n == 0 then ok ([], bs) else read_full n bs read_payload

-- `Decode`; the second part of the result is what is left in the reader.
unfoldable pub decode : List ℕ → Result DecodeError (Frame × List ℕ)
decode bs = do
  (h, r1) ← read_frame_header bs
  (p, r2) ← read_frame_payload r1 h.payload_len
  ok (record { version = h.version; message_type = h.message_type; payload = p }, r2)

unfoldable pub decode_message : List ℕ → Result DecodeError Frame
decode_message bs = do (f, rest) ← decode bs; ok f

pub data NegotiateError : Type 0 where
  no_compatible_version : NegotiateError

unfoldable pub negotiate_version : ℕ → ℕ → ℕ → ℕ → Result NegotiateError ℕ
negotiate_version client_min client_max server_min server_max =
    let min_supported = if ltb client_min server_min then server_min else client_min in
    let max_supported = if ltb server_max client_max then server_max else client_max in
    if ltb max_supported min_supported then err no_compatible_version else ok max_supported

unfoldable pub is_version_supported : ℕ → Bool
is_version_supported v = leb min_version v && leb v max_version
