-- ===== src/Wire/RoundTrip.antt =====
-- Frames encoded and decoded.
use mathlib.Core.List.{append-nil}
use native.Mathlib.Nat.{mod-eq_of_lt}
use mcp_bridge.Prelude.{
  Result, ok, err, ℕ, zero, suc, ◌+◌, ◌^◌, ◌≤◌, ◌<◌, ◌≡◌, refl, List, [], ◌∷◌, ◌++◌, some, arith,
  length, ◌∙◌, inl, inr, Option-cases, ltb, Bool-cases, if◌then◌else◌,
}
use mcp_bridge.Wire.Bytes.{be16, be32, of_be, of_be-be16, of_be-be32}
use mcp_bridge.Wire.{
  Frame, encode_message, decode, decode_message, split_bytes, max_payload, magic_bytes,
  payload_too_large, read_frame_payload, read_frame_header, current_version, validate_magic_bytes,
  read_version, read_message_type, read_payload_length, DecodeError, FrameHeader,
}

-- The bytes of a frame.
abbrev pub frame_bytes : Frame → List ℕ
frame_bytes f =
    be32 magic_bytes
    ++ (be16 f.version ++ (be16 f.message_type ++ (be32 (length f.payload) ++ f.payload)))

pub split_bytes-append : (xs rest : List ℕ) → split_bytes (length xs) (xs ++ rest) ≡ some (xs, rest)
unfolding split_bytes
split_bytes-append [] rest = refl
split_bytes-append (x ∷ xs) rest = ground (arith, split_bytes-append xs rest)

-- What `split_bytes` finds is what stood there.
pub split_bytes_sound :
    (n : ℕ) (bs xs rest : List ℕ)
    → split_bytes n bs ≡ some (xs, rest)
    → (bs ≡ xs ++ rest) × (length xs ≡ n)
unfolding split_bytes
split_bytes_sound zero bs xs rest e = ground arith
split_bytes_sound (suc n) [] xs rest e = cc
split_bytes_sound (suc n) (b ∷ bs) xs rest e = elim (Option-cases (split_bytes n bs)) [
  | inl miss ↦ cc
  | inr ((ys, r), hit) ↦ ground (arith, split_bytes_sound n bs ys r hit)
]

validate_magic_bytes-be32 :
    (rest : List ℕ) → validate_magic_bytes (be32 magic_bytes ++ rest) ≡ ok rest
unfolding validate_magic_bytes of_be
validate_magic_bytes-be32 rest = refl

read_version-be16 :
    (v : ℕ) (rest : List ℕ) → v ≡ current_version → read_version (be16 v ++ rest) ≡ ok (v, rest)
unfolding read_version of_be
read_version-be16 v rest e = rw e

read_message_type-be16 :
    (t : ℕ) (rest : List ℕ) → t < 2 ^ 16 → read_message_type (be16 t ++ rest) ≡ ok (t, rest)
unfolding read_message_type
read_message_type-be16 t rest h = rw (of_be-be16 t h)

read_payload_length-be32 :
    (n : ℕ) (rest : List ℕ)
    → n < 2 ^ 32
    → read_payload_length (be32 n ++ rest)
      ≡ (if ltb max_payload n then err (payload_too_large n) else ok (n, rest))
unfolding read_payload_length
read_payload_length-be32 n rest h = rw (of_be-be32 n h)

read_frame_payload-append :
    (p rest : List ℕ) → read_frame_payload (p ++ rest) (length p) ≡ ok (p, rest)
unfolding read_frame_payload
read_frame_payload-append [] rest = refl
read_frame_payload-append (b ∷ p) rest = rw (split_bytes-append (b ∷ p) rest) (ground arith)

-- What the length in the header decides.
abbrev after_length {ℓ} : {A : Type ℓ} → Frame → A → Result DecodeError A
after_length f a =
    if ltb max_payload (length f.payload) then err (payload_too_large (length f.payload)) else ok a

abbrev header_of : Frame → FrameHeader
header_of f = record {
  version = f.version;
  message_type = f.message_type;
  payload_len = length f.payload;
}

module _ (f : Frame) (rest : List ℕ) (v : f.version ≡ current_version) (t : f.message_type < 2 ^ 16)
    (l : length f.payload < 2 ^ 32) where
  read_frame_header-frame_bytes :
      read_frame_header (frame_bytes f ++ rest) ≡ after_length f (header_of f, f.payload ++ rest)
  unfolding read_frame_header
  read_frame_header-frame_bytes =
      rw
        (
          validate_magic_bytes-be32 (
              be16 f.version
              ++ (be16 f.message_type ++ (be32 (length f.payload) ++ f.payload))
              ++ rest),
          read_version-be16 f.version
              (be16 f.message_type ++ (be32 (length f.payload) ++ f.payload) ++ rest) v,
          read_message_type-be16 f.message_type (be32 (length f.payload) ++ f.payload ++ rest) t,
          read_payload_length-be32 (length f.payload) (f.payload ++ rest) l,
        )
        (ground arith)

  decode-frame_bytes_cases : decode (frame_bytes f ++ rest) ≡ after_length f (f, rest)
  unfolding decode
  decode-frame_bytes_cases =
      rw read_frame_header-frame_bytes (elim (Bool-cases (ltb max_payload (length f.payload))) [
        | inl big ↦ rw big refl
        | inr fits ↦ rw fits (rw (read_frame_payload-append f.payload rest) refl)
      ])

-- A frame of the current version with a uint16 type and a payload of at most 10 MB is read back,
-- and the reader is left at what follows it.
pub decode-frame_bytes :
    (f : Frame) (rest : List ℕ)
    → f.version ≡ current_version
    → f.message_type < 2 ^ 16
    → length f.payload ≤ max_payload
    → decode (frame_bytes f ++ rest) ≡ ok (f, rest)
decode-frame_bytes f rest v t l = decode-frame_bytes_cases f rest v t (omega arith) ∙ ground arith

abbrev pub frame_of : ℕ → List ℕ → Frame
frame_of t p = record { version = current_version; message_type = t; payload = p }

pub encode_message-frame_bytes :
    (t : ℕ) (p : List ℕ) → length p < 2 ^ 32 → encode_message t p ≡ ok (frame_bytes (frame_of t p))
unfolding encode_message
encode_message-frame_bytes t [] h = refl
encode_message-frame_bytes t (b ∷ p) h = rw (mod-eq_of_lt h) (ground arith)

-- For a uint16 type and a payload of less than 2^32 bytes, encoding into a buffer does not fail and
-- takes 12 bytes more than the payload. Decoding the result gives the frame back when the payload
-- is at most 10 MB and is refused as too large when it is more, which the encoder does not test.
pub decode_message-encode_message :
    (t : ℕ) (p : List ℕ)
    → t < 2 ^ 16
    → length p < 2 ^ 32
    → (bs : List ℕ) × (encode_message t p ≡ ok bs)
      × (length bs ≡ 12 + length p)
      × (decode_message bs ≡ (
          if ltb max_payload (length p)
          then err (payload_too_large (length p))
          else ok (record { version = current_version; message_type = t; payload = p })))
unfolding decode_message
decode_message-encode_message t p ht hp = (
  frame_bytes (frame_of t p),
  encode_message-frame_bytes t p hp,
  omega arith,
  rw (← append-nil (frame_bytes (frame_of t p)))
      (rw (decode-frame_bytes_cases (frame_of t p) [] refl ht hp) (ground arith)),
)
