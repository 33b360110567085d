-- ===== src/Wire/Examples.antt =====
-- The wire protocol at concrete inputs.
use mcp_bridge.Prelude.{
  ok, err, ℕ, ◌+◌, ◌≤◌, ◌<◌, ◌^◌, ◌≡◌, refl, ◌⊎◌, List, [], ◌∷◌, ◌++◌, arith, length, true, ltb,
  if◌then◌else◌,
}
use mcp_bridge.Wire.Bytes.{of_be}
use mcp_bridge.Wire.{
  Frame, decode, decode_message, encode_message, negotiate_version, no_compatible_version,
  is_version_supported, invalid_magic, read_payload, unexpected_eof, unsupported_version,
  payload_too_large, read_frame_header, read_frame_payload, validate_magic_bytes, read_version,
  read_message_type, read_payload_length, current_version, max_payload,
}
use mcp_bridge.Wire.RoundTrip.{frame_bytes, decode-frame_bytes, decode_message-encode_message}
use mcp_bridge.Wire.Canonical.{decode_sound}
use mcp_bridge.Wire.Negotiation.{Common, negotiate_version-highest}

abbrev ping : Frame
ping = record { version = 1; message_type = 4; payload = 7 ∷ 9 ∷ [] }

bad_magic : decode_message (1 ∷ 2 ∷ 3 ∷ 4 ∷ 5 ∷ []) ≡ err (invalid_magic 0x01020304)
unfolding decode_message decode read_frame_header validate_magic_bytes of_be
bad_magic = refl

truncated :
    decode_message (77 ∷ 67 ∷ 80 ∷ 66 ∷ 0 ∷ 1 ∷ 0 ∷ 1 ∷ 0 ∷ 0 ∷ 0 ∷ 3 ∷ 1 ∷ [])
    ≡ err (read_payload unexpected_eof)
unfolding decode_message decode read_frame_header read_frame_payload validate_magic_bytes
    read_version read_message_type read_payload_length of_be
truncated = refl

old_version : decode_message (77 ∷ 67 ∷ 80 ∷ 66 ∷ 0 ∷ 0 ∷ 0 ∷ 1 ∷ []) ≡ err (unsupported_version 0)
unfolding decode_message decode read_frame_header validate_magic_bytes read_version of_be
old_version = refl

supported : is_version_supported 1 ≡ true
unfolding is_version_supported
supported = refl

ping_decodes : decode (frame_bytes ping ++ 5 ∷ []) ≡ ok (ping, 5 ∷ [])
ping_decodes = decode-frame_bytes ping (5 ∷ []) refl (omega arith) (omega arith)

decode_message-encode_message_example :
    (bs : List ℕ) × (encode_message 4 (7 ∷ 9 ∷ []) ≡ ok bs)
    × (length bs ≡ 12 + length {A = ℕ} (7 ∷ 9 ∷ []))
    × (decode_message bs ≡ (
        if ltb max_payload (length {A = ℕ} (7 ∷ 9 ∷ []))
        then err (payload_too_large (length {A = ℕ} (7 ∷ 9 ∷ [])))
        else ok (record { version = current_version; message_type = 4; payload = 7 ∷ 9 ∷ [] })))
decode_message-encode_message_example =
    decode_message-encode_message 4 (7 ∷ 9 ∷ []) (omega arith) (omega arith)

decode_sound_example :
    (frame_bytes ping ++ 5 ∷ [] ≡ frame_bytes ping ++ 5 ∷ [])
    × (ping.version ≡ current_version)
    × (ping.message_type < 2 ^ 16)
    × (length ping.payload ≤ max_payload)
decode_sound_example =
    decode_sound (frame_bytes ping ++ 5 ∷ []) (5 ∷ []) ping (omega arith) ping_decodes

negotiate_version-highest_example :
    ((v : ℕ) × (negotiate_version 1 3 2 5 ≡ ok v)
      × Common 1 3 2 5 v
      × ((w : ℕ) → Common 1 3 2 5 w → w ≤ v))
    ⊎ ((negotiate_version 1 3 2 5 ≡ err no_compatible_version) × ((w : ℕ) → ¬ Common 1 3 2 5 w))
negotiate_version-highest_example = negotiate_version-highest 1 3 2 5

decode-frame_bytes_example : decode (frame_bytes ping ++ []) ≡ ok (ping, [])
decode-frame_bytes_example = decode-frame_bytes ping [] refl (omega arith) (omega arith)
