-- ===== src/RouterFrame/RoundTrip.antt =====
-- The router's frames written and read, by the router and against the gateway's protocol.
use mathlib.Core.List.{append-nil}
use mcp_bridge.Prelude.{
  ℕ, ◌+◌, ◌^◌, ◌<◌, ◌≡◌, refl, ap, ◌∙◌, List, [], ◌∷◌, ◌++◌, arith, length, length-append, ◌%◌, ltb,
  if◌then◌else◌, ok, err,
}
use mcp_bridge.Wire
use mcp_bridge.Wire.{Frame, buffer_write, split_bytes}
use mcp_bridge.Wire.Bytes.{be16, be32, of_be, of_be-be16, of_be-be32}
use mcp_bridge.Wire.RoundTrip.{split_bytes-append}
use mcp_bridge.RouterFrame.{
  BinaryFrame, magic_bytes, max_payload_size, write_to_writer, read_fields, read_body,
  read_binary_frame, invalid_magic, payload_too_large,
}

-- What is read back of a frame that is written.
abbrev pub as_read : BinaryFrame → BinaryFrame
as_read f = record f { magic = 0; payload_len = 0 }

-- The bytes after the magic ones and up to the length.
abbrev pub fields_bytes : BinaryFrame → List ℕ → List ℕ
fields_bytes f rest = be16 f.version ++ (be16 f.message_type ++ (be32 0 ++ rest))

abbrev pub body_bytes : List ℕ → List ℕ → List ℕ
body_bytes p rest = be32 (length p) ++ (p ++ rest)

-- The bytes of a frame.
abbrev pub binary_bytes : BinaryFrame → List ℕ
binary_bytes f = be32 magic_bytes ++ fields_bytes f (body_bytes f.payload [])

read_fields-fields_bytes :
    (f : BinaryFrame) (rest : List ℕ)
    → f.version < 2 ^ 16
    → f.message_type < 2 ^ 16
    → read_fields (fields_bytes f rest) ≡ ok (f.version, f.message_type, rest)
unfolding read_fields
read_fields-fields_bytes f rest v t = rw (of_be-be16 f.version v, of_be-be16 f.message_type t) refl

read_body-body_bytes :
    (p rest : List ℕ)
    → length p < 2 ^ 32
    → read_body (body_bytes p rest) ≡ (
        if ltb max_payload_size (length p)
        then err (payload_too_large (length p))
        else ok (p, rest))
unfolding read_body
read_body-body_bytes [] rest h = rw (of_be-be32 0 h) refl
read_body-body_bytes (b ∷ p) rest h =
    rw (of_be-be32 (length (b ∷ p)) h) (rw (split_bytes-append (b ∷ p) rest) (ground arith))

read_binary_frame-binary_bytes :
    (f : BinaryFrame) (rest : List ℕ)
    → f.version < 2 ^ 16
    → f.message_type < 2 ^ 16
    → length f.payload < 2 ^ 32
    → read_binary_frame (be32 magic_bytes ++ fields_bytes f (body_bytes f.payload rest)) ≡ (
        if ltb max_payload_size (length f.payload)
        then err (payload_too_large (length f.payload))
        else ok (as_read f, rest))
unfolding read_binary_frame of_be
read_binary_frame-binary_bytes f rest v t l =
    rw
      (
        read_fields-fields_bytes f (body_bytes f.payload rest) v t,
        read_body-body_bytes f.payload rest l,
      )
      (ground arith)

write_to_writer-binary_bytes :
    (f : BinaryFrame)
    → length f.payload < 2 ^ 32
    → write_to_writer buffer_write f [] ≡ ok (binary_bytes f)
unfolding write_to_writer
write_to_writer-binary_bytes f l = go f.payload l
  where
    go :
        (p : List ℕ)
        → length p < 2 ^ 32
        → write_to_writer buffer_write (record f { payload = p }) []
          ≡ ok (binary_bytes (record f { payload = p }))
    go [] l = refl
    go (b ∷ p) l = ground (arith, append-nil p)

-- What the gateway writes.
encode_lem :
    (g : Frame)
    → Wire.encode buffer_write g []
      ≡ ok (
          be32 Wire.magic_bytes
          ++ (be16 g.version
              ++ (be16 g.message_type ++ (be32 (length g.payload % 2 ^ 32) ++ g.payload))))
unfolding Wire.encode
encode_lem g = go g.payload
  where
    go :
        (p : List ℕ)
        → Wire.encode buffer_write (record g { payload = p }) []
          ≡ ok (
              be32 Wire.magic_bytes
              ++ (be16 g.version ++ (be16 g.message_type ++ (be32 (length p % 2 ^ 32) ++ p))))
    go [] = refl
    go (b ∷ p) = ground arith

append-assoc_nil : (p rest : List ℕ) → (p ++ []) ++ rest ≡ p ++ rest
append-assoc_nil p rest = rw (append-nil p) refl

-- For a frame with a uint16 version and type and a payload of less than 2^32 bytes, `WriteToWriter`
-- into a buffer takes 16 bytes and the payload, whatever `Magic` and `PayloadLen` are. From these
-- bytes, whatever follows, `ReadBinaryFrame` gives a frame with the same version, type and payload
-- and with 0 for `Magic` and `PayloadLen`, and leaves what follows, when the payload is at most 10
-- MB; a larger one is refused.
pub read_binary_frame-write_to_writer :
    (f : BinaryFrame) (rest : List ℕ)
    → f.version < 2 ^ 16
    → f.message_type < 2 ^ 16
    → length f.payload < 2 ^ 32
    → (bs : List ℕ) × (write_to_writer buffer_write f [] ≡ ok bs)
      × (length bs ≡ 16 + length f.payload)
      × (read_binary_frame (bs ++ rest) ≡ (
          if ltb max_payload_size (length f.payload)
          then err (payload_too_large (length f.payload))
          else ok (as_read f, rest)))
read_binary_frame-write_to_writer f rest v t l = (
  binary_bytes f,
  write_to_writer-binary_bytes f l,
  omega (arith, length-append f.payload []),
  ap (λ p. read_binary_frame (be32 magic_bytes ++ fields_bytes f (be32 (length f.payload) ++ p)))
        (append-assoc_nil f.payload rest)
      ∙ read_binary_frame-binary_bytes f rest v t l,
)

-- The two services do not read each other's frames: a frame with a payload of less than 2^32 bytes
-- that the router writes is refused by the gateway's `Decode` for its magic bytes, and whatever the
-- gateway writes is refused by the router's `ReadBinaryFrame` for them too.
pub frames_refused :
    (f : BinaryFrame) (g : Frame) (rest : List ℕ)
    → length f.payload < 2 ^ 32
    → ((bs : List ℕ) × (write_to_writer buffer_write f [] ≡ ok bs)
        × (Wire.decode (bs ++ rest) ≡ err (Wire.invalid_magic magic_bytes)))
      × ((bs : List ℕ) × (Wire.encode buffer_write g [] ≡ ok bs)
          × (read_binary_frame (bs ++ rest) ≡ err (invalid_magic Wire.magic_bytes)))
unfolding read_binary_frame Wire.decode Wire.read_frame_header Wire.validate_magic_bytes of_be
frames_refused f g rest l =
    ((binary_bytes f, write_to_writer-binary_bytes f l, refl), (_, encode_lem g, refl))
