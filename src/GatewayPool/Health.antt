-- ===== src/GatewayPool/Health.antt =====
-- What the health checks of an endpoint come to.
use mcp_bridge.Prelude.{ℕ, ◌+◌, ◌≡◌, refl, Bool, true, false, List, [], ◌∷◌, arith}
use mcp_bridge.GatewayPool.{EndpointHealth, update_health, apply_thresholds, check_endpoint_health}

-- The checks one after another, the last one first in the list.
unfoldable pub check_all : ℕ → ℕ → EndpointHealth → List Bool → EndpointHealth
unfolding check_endpoint_health
check_all t u h [] = h
check_all t u h (c ∷ older) = check_endpoint_health t u c (check_all t u h older)

-- The last answer, and how many there are of one kind in a row, at the end.
abbrev pub latest : Bool → List Bool → Bool
latest b [] = b
latest b (c ∷ older) = c

abbrev pub in_a_row : Bool → ℕ → List Bool → ℕ
in_a_row kind n [] = n
in_a_row true n (true ∷ older) = in_a_row true n older + 1
in_a_row true n (false ∷ older) = 0
in_a_row false n (true ∷ older) = 0
in_a_row false n (false ∷ older) = in_a_row false n older + 1

-- Whatever the thresholds are, after any checks an endpoint is healthy exactly if the last one
-- found it connected, or as it was before if there were none, and the two counts are the numbers of
-- successes and of failures in a row up to the last check.
pub health_by_last_check :
    (t u : ℕ) (h : EndpointHealth) (cs : List Bool)
    → let r = check_all t u h cs in
      (r.is_healthy ≡ latest h.is_healthy cs)
      × (r.consecutive_successes ≡ in_a_row true h.consecutive_successes cs)
      × (r.consecutive_failures ≡ in_a_row false h.consecutive_failures cs)
unfolding check_all check_endpoint_health update_health apply_thresholds
health_by_last_check t u h [] = (refl, refl, refl)
health_by_last_check t u h (true ∷ older) =
    let (_, s, f) = health_by_last_check t u h older in (refl, omega (arith, s), refl)
health_by_last_check t u h (false ∷ older) =
    let (_, s, f) = health_by_last_check t u h older in (refl, refl, omega (arith, f))
