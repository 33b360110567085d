-- ===== src/Wire/Canonical.antt =====
-- The bytes that the decoder accepts.
use mcp_bridge.Prelude.{
  >>=-eq-ok, ok, ℕ, zero, suc, ◌^◌, ◌≤◌, ◌<◌, ◌≡◌, List, [], ◌∷◌, ◌++◌, arith, length, All,
}
use mcp_bridge.Wire.Bytes.{IsByte, be16, be32, be16-of_be, be32-of_be}
use mcp_bridge.Wire.{
  Frame, decode, max_payload, magic_bytes, read_frame_payload, read_frame_header, current_version,
  validate_magic_bytes, read_version, read_message_type, read_payload_length, FrameHeader,
}
use mcp_bridge.Wire.RoundTrip.{frame_bytes, split_bytes_sound}

validate_magic_bytes_sound :
    (bs rest : List ℕ)
    → All IsByte bs
    → validate_magic_bytes bs ≡ ok rest
    → (bs ≡ be32 magic_bytes ++ rest) × All IsByte rest
unfolding validate_magic_bytes
validate_magic_bytes_sound (a ∷ b ∷ c ∷ d ∷ bs) rest y e =
    ground (arith, be32-of_be a b c d y.0 y.1.0 y.1.1.0 y.1.1.1.0)
validate_magic_bytes_sound [] rest y e = cc
validate_magic_bytes_sound (a ∷ []) rest y e = cc
validate_magic_bytes_sound (a ∷ b ∷ []) rest y e = cc
validate_magic_bytes_sound (a ∷ b ∷ c ∷ []) rest y e = cc

read_version_sound :
    (bs rest : List ℕ) (v : ℕ)
    → All IsByte bs
    → read_version bs ≡ ok (v, rest)
    → (bs ≡ be16 v ++ rest) × (v ≡ current_version) × All IsByte rest
unfolding read_version
read_version_sound (a ∷ b ∷ bs) rest v y e = ground (arith, be16-of_be a b y.0 y.1.0)
read_version_sound [] rest v y e = cc
read_version_sound (a ∷ []) rest v y e = cc

read_message_type_sound :
    (bs rest : List ℕ) (v : ℕ)
    → All IsByte bs
    → read_message_type bs ≡ ok (v, rest)
    → (bs ≡ be16 v ++ rest) × (v < 2 ^ 16) × All IsByte rest
unfolding read_message_type
read_message_type_sound (a ∷ b ∷ bs) rest v y e = ground (arith, be16-of_be a b y.0 y.1.0)
read_message_type_sound [] rest v y e = cc
read_message_type_sound (a ∷ []) rest v y e = cc

read_payload_length_sound :
    (bs rest : List ℕ) (n : ℕ)
    → All IsByte bs
    → read_payload_length bs ≡ ok (n, rest)
    → (bs ≡ be32 n ++ rest) × (n ≤ max_payload) × All IsByte rest
unfolding read_payload_length
read_payload_length_sound (a ∷ b ∷ c ∷ d ∷ bs) rest n y e =
    ground (arith, be32-of_be a b c d y.0 y.1.0 y.1.1.0 y.1.1.1.0)
read_payload_length_sound [] rest n y e = cc
read_payload_length_sound (a ∷ []) rest n y e = cc
read_payload_length_sound (a ∷ b ∷ []) rest n y e = cc
read_payload_length_sound (a ∷ b ∷ c ∷ []) rest n y e = cc

read_frame_payload_sound :
    (bs p rest : List ℕ) (n : ℕ)
    → read_frame_payload bs n ≡ ok (p, rest)
    → (bs ≡ p ++ rest) × (length p ≡ n)
unfolding read_frame_payload
read_frame_payload_sound bs p rest zero e = ground arith
read_frame_payload_sound bs p rest (suc n) e = ground (arith, split_bytes_sound (suc n) bs p rest)

read_frame_header_sound :
    (bs rest : List ℕ) (h : FrameHeader)
    → All IsByte bs
    → read_frame_header bs ≡ ok (h, rest)
    → (bs
        ≡ be32 magic_bytes
          ++ (be16 h.version ++ (be16 h.message_type ++ (be32 h.payload_len ++ rest))))
      × (h.version ≡ current_version)
      × (h.message_type < 2 ^ 16)
      × (h.payload_len ≤ max_payload)
unfolding read_frame_header
read_frame_header_sound bs rest h y e = >>=-eq-ok (validate_magic_bytes bs) _ e λ r1 e1 e.
    >>=-eq-ok (read_version r1) _ e λ (v, r2) e2 e.
      >>=-eq-ok (read_message_type r2) _ e λ (t, r3) e3 e.
        >>=-eq-ok (read_payload_length r3) _ e λ (n, r4) e4 e. ground (
          arith,
          validate_magic_bytes_sound bs r1 y e1,
          read_version_sound r1 r2 v (validate_magic_bytes_sound bs r1 y e1).1 e2,
          read_message_type_sound r2 r3 t,
          read_payload_length_sound r3 r4 n,
        )

-- If decoding succeeds on bytes, these were the encoding of the frame that it returns and what it
-- left in the reader, and the frame has the current version, a 16-bit type and at most 10 MB.
pub decode_sound :
    (bs rest : List ℕ) (f : Frame)
    → All IsByte bs
    → decode bs ≡ ok (f, rest)
    → (bs ≡ frame_bytes f ++ rest)
      × (f.version ≡ current_version)
      × (f.message_type < 2 ^ 16)
      × (length f.payload ≤ max_payload)
unfolding decode
decode_sound bs rest f y e = >>=-eq-ok (read_frame_header bs) _ e λ (h, r1) e1 e.
    >>=-eq-ok (read_frame_payload r1 h.payload_len) _ e λ (p, r2) e2 e. ground (
      arith,
      read_frame_header_sound bs r1 h y e1,
      read_frame_payload_sound r1 p r2 h.payload_len e2,
    )
