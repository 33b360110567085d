-- ===== src/NamespaceRouter/Examples.antt =====
-- The router of methods with patterns that ask for a prefix, whose one group is the whole method.
use mcp_bridge.Prelude.{
  ℕ, ◌≡◌, refl, true, none, some, List, [], ◌∷◌, String, str_eq, ok, if◌then◌else◌,
}
use mcp_bridge.Prelude.Int.{pos}
use mcp_bridge.Prelude.Text.{has_prefix, text_before, contains, decimal, replace_all}
use mcp_bridge.NamespaceRouter.{
  Regexp, new_namespace_router, route_request, extract_namespace, remove_rule, add_rule,
  compile_rule, first_match, insert_rule, matches_rule, expand_tags,
}
use mcp_bridge.NamespaceRouter.Rules.{RuleConfig}
use mcp_bridge.NamespaceRouter.Selection.{
  Change, add, remove, change, change_all, Routed, route_request_decided,
}

abbrev prefixes : Regexp
prefixes = record {
  Regex = String;
  compile = λ p. if str_eq p "(" then none else some p;
  match_string = λ re s. has_prefix s re;
  find_submatch = λ re s. if has_prefix s re then s ∷ s ∷ [] else [];
}

abbrev rule : String → String → ℕ → RuleConfig
rule pattern tag priority = record {
  pattern = pattern;
  tags = tag ∷ "default" ∷ [];
  priority = pos priority;
}

abbrev configured : List RuleConfig
configured = rule "k8s" "all" 9 ∷ rule "(" "broken" 1 ∷ rule "k8s.get" "pods-$1" 3 ∷ []

abbrev changes : List Change
changes = add (rule "k8s.get.x" "x" 5) ∷ add (rule "k8s.list" "y" 1) ∷ remove "k8s.list" ∷ []

routed_k8s :
    route_request prefixes
      (change_all prefixes (new_namespace_router prefixes true configured) changes)
      "k8s.get.x"
    ≡ ok ("pods-k8s.get.x" ∷ "default" ∷ [])
unfolding route_request change_all new_namespace_router change remove_rule add_rule compile_rule
    first_match insert_rule matches_rule expand_tags contains decimal replace_all
routed_k8s = refl

namespaces :
    (extract_namespace "k8s.getPods" ≡ "k8s")
    × (extract_namespace "tools/x.y" ≡ "system")
    × (extract_namespace ".a/b" ≡ ".a")
unfolding extract_namespace text_before
namespaces = (refl, refl, refl)

route_request_decided_example :
    let nr = change_all prefixes (new_namespace_router prefixes true configured) changes in
    Routed prefixes nr "k8s.get.x" (route_request prefixes nr "k8s.get.x")
route_request_decided_example = route_request_decided prefixes true configured changes "k8s.get.x"
