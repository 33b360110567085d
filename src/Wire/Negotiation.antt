-- ===== src/Wire/Negotiation.antt =====
-- What version negotiation promises.
use mcp_bridge.Prelude.{ok, err, ℕ, ◌≤◌, ◌≡◌, ◌⊎◌, inl, inr, arith, ltb, if◌then◌else◌, Bool-cases}
use mcp_bridge.Wire.{no_compatible_version, negotiate_version}

-- A version that both sides speak.
abbrev pub Common : ℕ → ℕ → ℕ → ℕ → ℕ → Type 0
Common cmin cmax smin smax v = (cmin ≤ v) × (v ≤ cmax) × (smin ≤ v) × (v ≤ smax)

higher : ℕ → ℕ → ℕ
higher a b = if ltb a b then b else a

lower : ℕ → ℕ → ℕ
lower a b = if ltb a b then a else b

-- Negotiation agrees on a version that both ranges contain and no version in both is higher, or
-- it fails and no version is in both.
pub negotiate_version-highest :
    (cmin cmax smin smax : ℕ)
    → ((v : ℕ) × (negotiate_version cmin cmax smin smax ≡ ok v)
        × Common cmin cmax smin smax v
        × ((w : ℕ) → Common cmin cmax smin smax w → w ≤ v))
      ⊎ ((negotiate_version cmin cmax smin smax ≡ err no_compatible_version)
          × ((w : ℕ) → ¬ Common cmin cmax smin smax w))
unfolding negotiate_version higher lower
negotiate_version-highest cmin cmax smin smax =
    elim (Bool-cases (ltb (lower smax cmax) (higher cmin smin))) [
      | inl apart ↦ inr (ground arith, λ w c. ground arith)
      | inr meet ↦ inl (lower smax cmax, ground arith, ground arith, λ w c. ground arith)
    ]
