-- ===== src/NamespaceRouter/Rules.antt =====
-- The default rules.
use mcp_bridge.Prelude.{ℕ, List, [], ◌∷◌, ◌++◌, String}
use mcp_bridge.Prelude.Int.{ℤ, pos}

-- A rule of the configuration.
pub record RuleConfig : Type 0 where
  pub pattern : String
  pub tags : List String
  pub priority : ℤ

rule : String → String → ℕ → RuleConfig
rule pattern tag priority = record {
  pattern = pattern;
  tags = tag ∷ "default" ∷ [];
  priority = pos priority;
}

abbrev standard_priority : ℕ
standard_priority = 2

abbrev high_priority : ℕ
high_priority = 3

unfoldable pub system_rules : List RuleConfig
unfolding rule
system_rules = rule "^initialize$" "system" 1 ∷ []

unfoldable pub capability_rules : List RuleConfig
unfolding rule
capability_rules =
    rule "^tools/.*" "tools" standard_priority
    ∷ rule "^prompts/.*" "prompts" standard_priority
    ∷ rule "^resources/.*" "resources" standard_priority
    ∷ []

unfoldable pub dotted_rules : List RuleConfig
unfolding rule
dotted_rules =
    rule "^docker\\..*" "docker" high_priority
    ∷ rule "^k8s\\..*" "k8s" high_priority
    ∷ rule "^fs\\..*" "fs" high_priority
    ∷ rule "^web\\..*" "web" high_priority
    ∷ rule "^db\\..*" "db" high_priority
    ∷ []

unfoldable pub slash_rules : List RuleConfig
unfolding rule
slash_rules =
    rule "^fs/.*" "fs" high_priority
    ∷ rule "^web/.*" "web" high_priority
    ∷ rule "^db/.*" "db" high_priority
    ∷ []

unfoldable pub default_rules : List RuleConfig
unfolding system_rules capability_rules dotted_rules slash_rules
default_rules = system_rules ++ (capability_rules ++ (dotted_rules ++ slash_rules))
