-- ===== src/RouterFrame/Examples.antt =====
-- The router's frames at concrete inputs.
use mcp_bridge.Prelude.{
  ℕ, ◌+◌, ◌≡◌, refl, List, [], ◌∷◌, ◌++◌, arith, length, ltb, if◌then◌else◌, ok, err,
}
use mcp_bridge.Wire
use mcp_bridge.Wire.{Frame, buffer_write}
use mcp_bridge.RouterFrame.{
  BinaryFrame, magic_bytes, max_payload_size, write_to_writer, read_binary_frame, invalid_magic,
  payload_too_large,
}
use mcp_bridge.RouterFrame.RoundTrip.{as_read, read_binary_frame-write_to_writer, frames_refused}

abbrev ping : BinaryFrame
ping = record {
  magic = magic_bytes;
  version = 1;
  message_type = 4;
  payload_len = 2;
  payload = 7 ∷ 9 ∷ [];
}

abbrev pong : Frame
pong = record { version = 1; message_type = 4; payload = 8 ∷ [] }

ping_bytes :
    write_to_writer buffer_write ping []
    ≡ ok (77 ∷ 67 ∷ 80 ∷ 0 ∷ 0 ∷ 1 ∷ 0 ∷ 4 ∷ 0 ∷ 0 ∷ 0 ∷ 0 ∷ 0 ∷ 0 ∷ 0 ∷ 2 ∷ 7 ∷ 9 ∷ [])
unfolding write_to_writer
ping_bytes = refl

read_binary_frame-write_to_writer_example :
    (bs : List ℕ) × (write_to_writer buffer_write ping [] ≡ ok bs)
    × (length bs ≡ 16 + length ping.payload)
    × (read_binary_frame (bs ++ 5 ∷ []) ≡ (
        if ltb max_payload_size (length ping.payload)
        then err (payload_too_large (length ping.payload))
        else ok (as_read ping, 5 ∷ [])))
read_binary_frame-write_to_writer_example =
    read_binary_frame-write_to_writer ping (5 ∷ []) (omega arith) (omega arith) (omega arith)

frames_refused_example :
    ((bs : List ℕ) × (write_to_writer buffer_write ping [] ≡ ok bs)
      × (Wire.decode (bs ++ []) ≡ err (Wire.invalid_magic magic_bytes)))
    × ((bs : List ℕ) × (Wire.encode buffer_write pong [] ≡ ok bs)
        × (read_binary_frame (bs ++ []) ≡ err (invalid_magic Wire.magic_bytes)))
frames_refused_example = frames_refused ping pong [] (omega arith)
