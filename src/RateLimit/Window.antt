-- ===== src/RateLimit/Window.antt =====
-- Times that lie in a sliding window, for every limiter that counts them.
use mcp_bridge.Prelude.{
  ℕ, ◌+◌, ◌≤◌, ◌≡◌, refl, Bool, List, [], ◌∷◌, ◌++◌, arith, ltb, keep, count_if, count_if-append,
}

-- `x.After(now.Add(-w))`
abbrev pub within : ℕ → ℕ → ℕ → Bool
within w now x = ltb now (x + w)

-- Dropping what is outside one window does not change the count of a later, narrower one.
pub count_if-keep-within :
    (w w' now later : ℕ) (xs : List ℕ)
    → w' ≤ w
    → now ≤ later
    → count_if (within w' later) (keep (within w now) xs) ≡ count_if (within w' later) xs
count_if-keep-within w w' now later [] h l = refl
count_if-keep-within w w' now later (x ∷ xs) h l =
    ground (arith, count_if-keep-within w w' now later xs h l)

-- A later window holds no more of what has happened.
pub count_if-within_later :
    (w now later : ℕ) (xs : List ℕ)
    → now ≤ later
    → count_if (within w later) xs ≤ count_if (within w now) xs
count_if-within_later w now later [] l = omega arith
count_if-within_later w now later (x ∷ xs) l =
    ground (arith, count_if-within_later w now later xs l)

pub count_if-snoc :
    (w t now : ℕ) (xs : List ℕ)
    → count_if (within w t) (xs ++ now ∷ []) ≤ count_if (within w t) xs + 1
count_if-snoc w t now xs = ground (arith, count_if-append (within w t) xs (now ∷ []))
