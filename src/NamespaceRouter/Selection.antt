-- ===== src/NamespaceRouter/Selection.antt =====
-- What the router of methods answers, after any changes of its rules.

use mcp_bridge.Prelude.{
  ◌==◌, ◌≡◌, refl, ap, ◌⊎◌, inl, inr, Bool, true, false, Option, none, some, List, [], ◌∷◌, ◌++◌,
  arith, length, All, All-map, Bool-cases, if◌then◌else◌, String, str_eq, Result, ok, err,
}
use mcp_bridge.NamespaceRouter.{
  Regexp, RoutingError, empty_method, Rule, NamespaceRouter, compile_rule, new_namespace_router,
  matches_rule, expand_tags, first_match, route_request, add_rule, remove_rule, compile_rules,
  tags_of,
}
use mcp_bridge.NamespaceRouter.Rules.{RuleConfig, default_rules}
use mcp_bridge.NamespaceRouter.Sorting.{
  Before, IsSorted, sort_rules-IsSorted, insert_rule-IsSorted, keep-IsSorted,
}

pub data Change : Type 0 where
  add : RuleConfig → Change
  remove : String → Change

module _ (E : Regexp) where
  unfoldable pub change : NamespaceRouter E → Change → NamespaceRouter E
  change nr (add config) = (add_rule E nr config).0
  change nr (remove pattern) = (remove_rule E nr pattern).0

  unfoldable pub change_all : NamespaceRouter E → List Change → NamespaceRouter E
  change_all nr [] = nr
  change_all nr (c ∷ cs) = change_all (change nr c) cs

  add_rule-IsSorted :
      (nr : NamespaceRouter E) (config : RuleConfig)
      → IsSorted E nr.rules
      → IsSorted E (add_rule E nr config).0.rules
  unfolding add_rule
  add_rule-IsSorted nr config h = go (compile_rule E config) refl
    where
      go :
          (o : Option (Rule E))
          → compile_rule E config ≡ o
          → IsSorted E (add_rule E nr config).0.rules
      go none e = rw (e, add_rule) h
      go (some r) e = rw (e, add_rule) (insert_rule-IsSorted E r nr.rules h)

  change_all-IsSorted :
      (nr : NamespaceRouter E) (cs : List Change)
      → IsSorted E nr.rules
      → IsSorted E (change_all nr cs).rules
  unfolding change_all change remove_rule
  change_all-IsSorted nr [] h = h
  change_all-IsSorted nr (add config ∷ cs) h =
      change_all-IsSorted (add_rule E nr config).0 cs (add_rule-IsSorted nr config h)
  change_all-IsSorted nr (remove pattern ∷ cs) h =
      change_all-IsSorted (remove_rule E nr pattern).0 cs (keep-IsSorted E _ nr.rules h)

  -- The rule that decides: it matches, no rule before it does, and none that matches has a smaller
  -- priority.
  abbrev pub Decides : List (Rule E) → String → Rule E → Type 0
  Decides rules method r =
      (matches_rule E method r ≡ true)
      × ((pre post : List (Rule E)) × (rules ≡ pre ++ r ∷ post)
          × All (λ s. matches_rule E method s ≡ false) pre)
      × All (λ s. matches_rule E method s ≡ true → Before E r s) rules

  -- The answers of `RouteRequest`.
  abbrev pub Routed : NamespaceRouter E → String → Result RoutingError (List String) → Type 0
  Routed nr method r =
      ((nr.enabled ≡ false) × (r ≡ ok []))
      ⊎ ((nr.enabled ≡ true) × (str_eq method "" ≡ true) × (r ≡ err empty_method))
      ⊎ ((nr.enabled ≡ true)
          × (str_eq method "" ≡ false)
          × (((rule : Rule E) × Decides nr.rules method rule × (r ≡ ok (expand_tags E method rule)))
              ⊎ (All (λ s. matches_rule E method s ≡ false) nr.rules × (r ≡ ok []))))

  first_match-Decides :
      (rules : List (Rule E)) (method : String)
      → IsSorted E rules
      → ((r : Rule E) × (first_match E method rules ≡ some r) × Decides rules method r)
        ⊎ ((first_match E method rules ≡ none) × All (λ s. matches_rule E method s ≡ false) rules)
  unfolding first_match
  first_match-Decides [] method h = inr (refl, tt)
  first_match-Decides (s ∷ rules) method (h, hs) = elim (Bool-cases (matches_rule E method s)) [
    | inl here ↦ inl (
        (
          s,
          rw here refl,
          (
            here,
            ([], rules, refl, tt),
            ((λ _. omega arith), All-map (Before E s) _ rules (λ t b _. b) h),
          ),
        ))
    | inr miss ↦ elim (first_match-Decides rules method hs) [
      | inl (r, e, (m, (pre, post, eq, none_before), least)) ↦ inl (
        r,
        rw miss e,
        (m, (s ∷ pre, post, ap (λ xs. s ∷ xs) eq, (miss, none_before)), ((λ m. absurd cc), least)),
      )
      | inr (e, all) ↦ inr (rw miss e, (miss, all))
    ]
  ]

  route_request-Routed :
      (nr : NamespaceRouter E) (method : String)
      → IsSorted E nr.rules
      → Routed nr method (route_request E nr method)
  unfolding route_request tags_of
  route_request-Routed nr method h = elim (Bool-cases nr.enabled) [
    | inr off ↦ inl (off, rw off refl)
    | inl on ↦ elim (Bool-cases (str_eq method "")) [
      | inl empty ↦ inr (inl (on, empty, rw (on, empty) refl))
      | inr full ↦ elim (first_match-Decides nr.rules method h) [
        | inl (r, e, d) ↦ inr (inr (on, full, inl (r, d, rw (on, full, e) refl)))
        | inr (e, all) ↦ inr (inr (on, full, inr (all, rw (on, full, e) refl)))
      ]
    ]
  ]

  -- Whatever rules a router is made with, the default ones if none, and whatever rules are added
  -- and removed then: with routing disabled `RouteRequest` answers no tags, an empty method is an
  -- error, and otherwise the first rule that matches decides, no rule that matches having a smaller
  -- priority, and its tags, expanded, are the answer; where no rule matches there are no tags.
  pub route_request_decided :
      (enabled : Bool) (configured : List RuleConfig) (cs : List Change) (method : String)
      → let nr = change_all (new_namespace_router E enabled configured) cs in
        Routed nr method (route_request E nr method)
  unfolding new_namespace_router
  route_request_decided enabled configured cs method =
      route_request-Routed (change_all (new_namespace_router E enabled configured) cs) method (
        change_all-IsSorted (new_namespace_router E enabled configured) cs
          (sort_rules-IsSorted E
            (compile_rules E (if length configured == 0 then default_rules else configured))).0)
