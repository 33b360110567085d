-- ===== src/Wire/Bytes.antt =====
-- Big-endian numbers, as `encoding/binary` writes and reads them.

use mcp_bridge.Prelude.{ℕ, ◌+◌, ◌*◌, ◌/◌, ◌%◌, ◌^◌, ◌<◌, ◌≡◌, List, [], ◌∷◌, arith}

abbrev pub IsByte : ℕ → Type 0
IsByte b = b < 256

abbrev pub be16 : ℕ → List ℕ
be16 n = (n / 256 % 256) ∷ (n % 256) ∷ []

abbrev pub be32 : ℕ → List ℕ
be32 n = (n / 16777216 % 256) ∷ (n / 65536 % 256) ∷ (n / 256 % 256) ∷ (n % 256) ∷ []

of_be_from : ℕ → List ℕ → ℕ
of_be_from acc [] = acc
of_be_from acc (b ∷ bs) = of_be_from (acc * 256 + b) bs

unfoldable pub of_be : List ℕ → ℕ
unfolding of_be_from
of_be bs = of_be_from 0 bs

pub of_be-be16 : (n : ℕ) → n < 2 ^ 16 → of_be (be16 n) ≡ n
unfolding of_be
of_be-be16 n h = omega arith

pub of_be-be32 : (n : ℕ) → n < 2 ^ 32 → of_be (be32 n) ≡ n
unfolding of_be
of_be-be32 n h = omega arith

pub be16-of_be :
    (a b : ℕ)
    → IsByte a
    → IsByte b
    → (be16 (of_be (a ∷ b ∷ [])) ≡ a ∷ b ∷ []) × (of_be (a ∷ b ∷ []) < 2 ^ 16)
unfolding of_be
be16-of_be a b h k = (ground arith, omega arith)

pub be32-of_be :
    (a b c d : ℕ)
    → IsByte a
    → IsByte b
    → IsByte c
    → IsByte d
    → (be32 (of_be (a ∷ b ∷ c ∷ d ∷ [])) ≡ a ∷ b ∷ c ∷ d ∷ [])
      × (of_be (a ∷ b ∷ c ∷ d ∷ []) < 2 ^ 32)
unfolding of_be
be32-of_be a b c d h k l m = (ground arith, omega arith)
