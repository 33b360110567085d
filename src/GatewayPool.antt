-- ===== src/GatewayPool.antt =====
-- The router's gateway endpoints: their health and their selection, in
-- services/router/internal/gateway/pool.go and endpoint_selector.go. `rand.Intn` is a parameter;
-- clients, times and errors of the health checks are left out, as is the map of `GetStats`.
pub mod Loops
pub mod Selection
pub mod Health
mod Examples
use mcp_bridge.Prelude.{
  ℕ, zero, suc, ◌+◌, ◌%◌, ◌^◌, ◌==◌, ◌&&◌, ◌||◌, Bool, true, false, not, Option, none, some, List,
  [], ◌∷◌, ◌++◌, if◌then◌else◌, ltb, leb, length, keep, get_elem?, String, str_eq, Result, ok, err,
}
use mcp_bridge.Prelude.Int.{ℤ, pos, negsuc, ◌+ℤ◌, ltb_ℤ, pos_part, neg_part}

-- `EndpointHealth`.
pub record EndpointHealth : Type 0 where
  pub is_healthy : Bool
  pub consecutive_failures : ℕ
  pub consecutive_successes : ℕ

-- `address` tells one wrapper from another, as its pointer does.
pub record GatewayEndpointWrapper : Type 0 where
  pub address : ℕ
  pub url : String
  pub weight : ℤ
  pub priority : ℤ
  pub tags : List String
  pub health : EndpointHealth
  pub active_conns : ℤ

unfoldable pub update_health : Bool → EndpointHealth → EndpointHealth
update_health true h = record {
  is_healthy = true;
  consecutive_failures = 0;
  consecutive_successes = h.consecutive_successes + 1;
}
update_health false h = record {
  is_healthy = false;
  consecutive_failures = h.consecutive_failures + 1;
  consecutive_successes = 0;
}

-- The thresholds come first: that of health, then that of its loss.
unfoldable pub apply_thresholds : ℕ → ℕ → Bool → EndpointHealth → EndpointHealth
apply_thresholds healthy_threshold unhealthy_threshold connected h =
    if connected && not h.is_healthy && leb healthy_threshold h.consecutive_successes
    then record h { is_healthy = true }
    else if not connected && h.is_healthy && leb unhealthy_threshold h.consecutive_failures
    then record h { is_healthy = false }
    else h

unfoldable pub check_endpoint_health : ℕ → ℕ → Bool → EndpointHealth → EndpointHealth
unfolding update_health apply_thresholds
check_endpoint_health healthy_threshold unhealthy_threshold connected h =
    apply_thresholds healthy_threshold unhealthy_threshold connected (update_health connected h)

pub data Strategy : Type 0 where
  round_robin least_connections weighted priority_strategy other_strategy : Strategy

pub record GatewayPool : Type 0 where
  pub endpoints : List GatewayEndpointWrapper
  pub strategy : Strategy
  pub round_robin_index : ℕ

-- `panics` is an index out of range and `rand.Intn` of a number that is not positive.
pub data SelectError : Type 0 where
  no_healthy_endpoints no_endpoints no_matching_tags panics : SelectError

abbrev pub Choice : Type 0
Choice = ℕ × Result SelectError GatewayEndpointWrapper

abbrev pub or_panic : Option GatewayEndpointWrapper → Result SelectError GatewayEndpointWrapper
or_panic none = err panics
or_panic (some ep) = ok ep

-- The index is a uint64.
unfoldable pub select_round_robin : ℕ → List GatewayEndpointWrapper → Choice
select_round_robin index eps = ((index + 1) % 2 ^ 64, or_panic (get_elem? eps (index % length eps)))

-- The loop over the endpoints after the one selected so far.
unfoldable pub fewest :
    GatewayEndpointWrapper → List GatewayEndpointWrapper → GatewayEndpointWrapper
fewest selected [] = selected
fewest selected (ep ∷ eps) =
    fewest (if ltb_ℤ ep.active_conns selected.active_conns then ep else selected) eps

unfoldable pub total_weight : List GatewayEndpointWrapper → ℤ
total_weight [] = pos 0
total_weight (ep ∷ eps) = ep.weight +ℤ total_weight eps

-- The loop over the endpoints, with the weight of those before, and the endpoint past the end.
unfoldable pub select_by_weight :
    ℕ → ℤ → List GatewayEndpointWrapper → GatewayEndpointWrapper → GatewayEndpointWrapper
select_by_weight target current [] last = last
select_by_weight target current (ep ∷ eps) last =
    let rest = select_by_weight target (current +ℤ ep.weight) eps ep in
    if ltb_ℤ (pos target) (current +ℤ ep.weight) then ep else rest

-- The loop that collects the endpoints of the smallest priority so far.
unfoldable pub find_highest_priority :
    ℤ → List GatewayEndpointWrapper → List GatewayEndpointWrapper → List GatewayEndpointWrapper
find_highest_priority best group [] = group
find_highest_priority best group (ep ∷ eps) =
    if ltb_ℤ ep.priority best
    then find_highest_priority ep.priority (ep ∷ []) eps
    else if ltb_ℤ best ep.priority
    then find_highest_priority best group eps
    else find_highest_priority best (group ++ ep ∷ []) eps

-- `applyPriority` of the selector leaves the index alone for a single endpoint.
unfoldable pub apply_priority : ℕ → List GatewayEndpointWrapper → Choice
unfolding select_round_robin
apply_priority index (ep ∷ []) = (index, ok ep)
apply_priority index eps = select_round_robin index eps

abbrev pub is_up : GatewayEndpointWrapper → Bool
is_up ep = ep.health.is_healthy

abbrev pub at_index : GatewayPool → Choice → GatewayPool × Result SelectError GatewayEndpointWrapper
at_index p (index, r) = (record p { round_robin_index = index }, r)

module _ (intn : ℕ → ℕ) where
  unfoldable pub draw : ℕ → ℤ → GatewayEndpointWrapper → List GatewayEndpointWrapper → Choice
  unfolding select_by_weight select_round_robin
  draw index (pos zero) ep eps = select_round_robin index (ep ∷ eps)
  draw index (pos (suc n)) ep eps =
      (index, ok (select_by_weight (intn (suc n)) (pos 0) (ep ∷ eps) ep))
  draw index (negsuc n) ep eps = (index, err panics)

  -- The switch over the strategies, with what is done for the priorities.
  unfoldable pub select_by_strategy :
      (ℕ → List GatewayEndpointWrapper → Choice)
      → Strategy
      → ℕ
      → GatewayEndpointWrapper
      → List GatewayEndpointWrapper
      → Choice
  unfolding draw total_weight fewest find_highest_priority select_round_robin
  select_by_strategy by_priority round_robin index ep eps = select_round_robin index (ep ∷ eps)
  select_by_strategy by_priority other_strategy index ep eps = select_round_robin index (ep ∷ eps)
  select_by_strategy by_priority least_connections index ep eps = (index, ok (fewest ep eps))
  select_by_strategy by_priority weighted index ep eps = draw index (total_weight (ep ∷ eps)) ep eps
  select_by_strategy by_priority priority_strategy index ep eps =
      by_priority index (find_highest_priority ep.priority [] (ep ∷ eps))

  unfoldable pub select_among :
      (ℕ → List GatewayEndpointWrapper → Choice)
      → SelectError
      → GatewayPool
      → List GatewayEndpointWrapper
      → GatewayPool × Result SelectError GatewayEndpointWrapper
  unfolding select_by_strategy
  select_among by_priority e p [] = (p, err e)
  select_among by_priority e p (ep ∷ eps) =
      at_index p (select_by_strategy by_priority p.strategy p.round_robin_index ep eps)

  unfoldable pub select_endpoint :
      GatewayPool → GatewayPool × Result SelectError GatewayEndpointWrapper
  unfolding select_among select_round_robin
  select_endpoint p =
      select_among select_round_robin no_healthy_endpoints p (keep is_up p.endpoints)

  unfoldable pub select_for_retry :
      GatewayPool → GatewayPool × Result SelectError GatewayEndpointWrapper
  unfolding select_among apply_priority
  select_for_retry p =
      if length (keep is_up p.endpoints) == 0
      then select_among apply_priority no_endpoints p p.endpoints
      else select_among apply_priority no_endpoints p (keep is_up p.endpoints)

-- `GetEndpointByTags`.
abbrev pub has_tag : String → List String → Bool
has_tag required [] = false
has_tag required (tag ∷ tags) = str_eq tag required || has_tag required tags

abbrev pub has_all_tags : List String → List String → Bool
has_all_tags tags [] = true
has_all_tags tags (required ∷ rest) = has_tag required tags && has_all_tags tags rest

unfoldable pub get_endpoint_by_tags :
    GatewayPool → List String → Result SelectError (List GatewayEndpointWrapper)
get_endpoint_by_tags p tags =
    let matching = keep (λ ep. ep.health.is_healthy && has_all_tags ep.tags tags) p.endpoints in
    if length matching == 0 then err no_matching_tags else ok matching
