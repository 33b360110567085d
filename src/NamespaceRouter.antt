-- ===== src/NamespaceRouter.antt =====
-- The router's routing of methods to endpoint tags:
-- services/router/internal/gateway/namespace_router.go. The package `regexp` is a parameter. The
-- descriptions of the rules are only logged and are left out.
pub mod Rules
pub mod Sorting
pub mod Selection
mod Examples
use mcp_bridge.Prelude.{
  ◌==◌, ℕ, zero, suc, ◌+◌, ◌-◌, ◌≤◌, Bool, true, false, not, ◌||◌, Option, none, some, List, [],
  ◌∷◌, ◌++◌, ltb, leb, if◌then◌else◌, length, keep, String, str_eq, Result, ok, err,
}
use mcp_bridge.NamespaceRouter.Rules.{RuleConfig, default_rules}
use mcp_bridge.Prelude.Int.{ℤ, pos, ltb_ℤ}
use mcp_bridge.Prelude.Text.{contains, has_prefix, text_before, replace_all, decimal, ◌+str◌}

-- `regexp.Compile`, `MatchString` and `FindStringSubmatch`, which gives [] for no match.
pub record Regexp : Type 1 where
  pub Regex : Type 0
  pub compile : String → Option Regex
  pub match_string : Regex → String → Bool
  pub find_submatch : Regex → String → List String

pub data RoutingError : Type 0 where
  empty_method bad_pattern : RoutingError
  no_rule : String → RoutingError

module _ (E : Regexp) where
  open E use {Regex, compile, match_string, find_submatch}

  -- `NamespaceRoutingRule`, with its compiled pattern, nil for an empty one.
  pub record Rule : Type 0 where
    pub pattern : String
    pub tags : List String
    pub priority : ℤ
    pub regex : Option Regex

  pub record NamespaceRouter : Type 0 where
    pub enabled : Bool
    pub rules : List Rule

  -- One rule with its pattern compiled; none if the pattern is refused.
  unfoldable pub compile_rule : RuleConfig → Option Rule
  compile_rule r =
      if str_eq r.pattern ""
      then some (record { pattern = r.pattern; tags = r.tags; priority = r.priority; regex = none })
      else elim (compile r.pattern) [
        | none ↦ none
        | some re ↦
            some (record {
              pattern = r.pattern;
              tags = r.tags;
              priority = r.priority;
              regex = some re;
            })
      ]

  -- The loop that compiles the rules and leaves out those that it cannot.
  unfoldable pub compile_rules : List RuleConfig → List Rule
  compile_rules [] = []
  compile_rules (r ∷ rs) =
      let rest = compile_rules rs in elim (compile_rule r) [ none ↦ rest | some c ↦ c ∷ rest ]

  abbrev pub later : Rule → Rule → Bool
  later r s = ltb_ℤ s.priority r.priority

  -- The inner loop over `j`: the rule at `i`, after its exchanges, and the rules after it.
  unfoldable pub exchange : Rule → List Rule → Rule × List Rule
  exchange r [] = (r, [])
  exchange r (s ∷ rest) =
      let (first, rest') = exchange (if later r s then s else r) rest in
      (first, (if later r s then r else s) ∷ rest')

  -- The outer loop over `i`, by the rounds left.
  unfoldable pub sort_rounds : ℕ → List Rule → List Rule
  sort_rounds zero rules = rules
  sort_rounds (suc n) [] = []
  sort_rounds (suc n) (r ∷ rules) =
      let (first, rest) = exchange r rules in first ∷ sort_rounds n rest

  unfoldable pub sort_rules : List Rule → List Rule
  unfolding sort_rounds exchange
  sort_rules rules = sort_rounds (length rules - 1) rules

  -- `NewNamespaceRouter`.
  unfoldable pub new_namespace_router : Bool → List RuleConfig → NamespaceRouter
  unfolding compile_rules sort_rules default_rules
  new_namespace_router enabled configured = record {
    enabled = enabled;
    rules =
        sort_rules (compile_rules (if length configured == 0 then default_rules else configured));
  }

  unfoldable pub matches_rule : String → Rule → Bool
  matches_rule method rule = elim rule.regex [
    | none ↦ contains method rule.pattern
    | some re ↦ match_string re method
  ]

  -- The loop over the captured groups from the one numbered `i` on.
  unfoldable pub expand_tag : ℕ → List String → String → String
  expand_tag i [] tag = tag
  expand_tag i (m ∷ ms) tag =
      let placeholder = "$" +str decimal i in
      expand_tag (i + 1) ms
        (if contains tag placeholder then replace_all tag placeholder m else tag)

  expand_all : List String → List String → List String
  unfolding expand_tag
  expand_all groups [] = []
  expand_all groups (t ∷ ts) = expand_tag 1 groups t ∷ expand_all groups ts

  -- The tags with the groups of the match put in.
  expand_groups : List String → List String → List String
  unfolding expand_all
  expand_groups [] tags = tags
  expand_groups (whole ∷ []) tags = tags
  expand_groups (whole ∷ group ∷ groups) tags = expand_all (group ∷ groups) tags

  unfoldable pub expand_tags : String → Rule → List String
  unfolding expand_groups
  expand_tags method rule = elim rule.regex [
    | none ↦ rule.tags
    | some re ↦ expand_groups (find_submatch re method) rule.tags
  ]

  -- The loop of `RouteRequest`.
  unfoldable pub first_match : String → List Rule → Option Rule
  first_match method [] = none
  first_match method (r ∷ rs) = if matches_rule method r then some r else first_match method rs

  unfoldable pub tags_of : String → Option Rule → List String
  tags_of method none = []
  tags_of method (some r) = expand_tags method r

  unfoldable pub route_request : NamespaceRouter → String → Result RoutingError (List String)
  unfolding tags_of
  route_request nr method =
      if not nr.enabled
      then ok []
      else if str_eq method ""
      then err empty_method
      else ok (tags_of method (first_match method nr.rules))

  -- The loop of `AddRule`.
  unfoldable pub insert_rule : Rule → List Rule → List Rule
  insert_rule r [] = r ∷ []
  insert_rule r (s ∷ rest) =
      if ltb_ℤ r.priority s.priority then r ∷ s ∷ rest else s ∷ insert_rule r rest

  unfoldable pub add_rule : NamespaceRouter → RuleConfig → NamespaceRouter × Option RoutingError
  add_rule nr config = elim (compile_rule config) [
    | none ↦ (nr, some bad_pattern)
    | some r ↦ (record nr { rules = insert_rule r nr.rules }, none)
  ]

  abbrev pub has_other_pattern : String → Rule → Bool
  has_other_pattern pattern r = not (str_eq r.pattern pattern)

  unfoldable pub remove_rule : NamespaceRouter → String → NamespaceRouter × ℕ
  remove_rule nr pattern =
      let kept = keep (has_other_pattern pattern) nr.rules in
      (record nr { rules = kept }, length nr.rules - length kept)

  -- `ValidateRequest`, for a request that is not nil; none for no error.
  unfoldable pub validate_request : NamespaceRouter → String → Option RoutingError
  validate_request nr method =
      if str_eq method ""
      then some empty_method
      else (elim (first_match method nr.rules) [ none ↦ some (no_rule method) | some r ↦ none ])

-- `ExtractNamespace`; `idx > 0` asks for a text before the separator that is not empty.
nonempty : Option String → Option String
nonempty none = none
nonempty (some s) = if str_eq s "" then none else some s

unfoldable pub extract_namespace : String → String
unfolding nonempty
extract_namespace method =
    if str_eq method ""
    then "default"
    else if str_eq method "initialize" || has_prefix method "tools/"
    then "system"
    else (elim (nonempty (text_before method ".")) [
      | some s ↦ s
      | none ↦ elim (nonempty (text_before method "/")) [ some s ↦ s | none ↦ "default" ]
    ])
