-- ===== src/Prelude/Text.antt =====
-- Go's `strings` on native texts: positions count bytes. `decimal` prints a number as `%d` does.
use Prim.Native.Nat.{ℕ, zero, suc, ◌+◌, ◌/◌, ◌%◌}
use Prim.Native.String.{String, len, slice, ◌++◌}
use mathlib.Core.Path.{◌≡◌, refl}
use mathlib.Core.Bool.{Bool, true, false}
use mathlib.Core.Option.{Option, none, some}
use mathlib.Core.List.{[], ◌∷◌}
use text.Mathlib.Text.{find?, starts_with}
use mcp_bridge.Prelude.Tests.{ltb}
use mcp_bridge.Prelude.Lists.{get_elem?}

infixl 65 ◌+str◌
abbrev pub ◌+str◌ : String → String → String
s +str t = s ++ t

-- `strings.Contains`
unfoldable pub contains : String → String → Bool
contains s t = elim (find? s t) [ none ↦ false | some i ↦ true ]

-- `strings.HasPrefix`
abbrev pub has_prefix : String → String → Bool
has_prefix s t = starts_with s t

-- `s[:strings.Index(s, t)]`, where `t` is found.
unfoldable pub text_before : String → String → Option String
text_before s t = elim (find? s t) [ none ↦ none | some i ↦ some (slice s 0 i) ]

replace_from : ℕ → String → String → String → String
replace_from zero s old new = s
replace_from (suc fuel) s old new = elim (find? s old) [
  | none ↦ s
  | some i ↦ slice s 0 i ++ (new ++ replace_from fuel (slice s (i + len old) (len s)) old new)
]

-- `strings.ReplaceAll` for a text `old` that is not empty: no more rounds than bytes are needed.
unfoldable pub replace_all : String → String → String → String
unfolding replace_from
replace_all s old new = replace_from (len s + 1) s old new

digit : ℕ → String
digit n =
    elim (get_elem? {A = String} ("0" ∷ "1" ∷ "2" ∷ "3" ∷ "4" ∷ "5" ∷ "6" ∷ "7" ∷ "8" ∷ "9" ∷ [])
      (n % 10)) [ none ↦ "" | some d ↦ d ]

decimal_from : ℕ → ℕ → String → String
decimal_from zero n acc = acc
decimal_from (suc fuel) n acc = elim (ltb n 10) [
  | true ↦ digit n ++ acc
  | false ↦ decimal_from fuel (n / 10) (digit n ++ acc)
]

unfoldable pub decimal : ℕ → String
unfolding decimal_from digit
decimal n = decimal_from (n + 1) n ""

-- `strings.ToLower` of ASCII.
lower_byte : String → String
lower_byte c = elim (find? "ABCDEFGHIJKLMNOPQRSTUVWXYZ" c) [
  | none ↦ c
  | some i ↦ slice "abcdefghijklmnopqrstuvwxyz" i (i + 1)
]

lower_from : ℕ → ℕ → String → String
unfolding lower_byte
lower_from zero i s = ""
lower_from (suc fuel) i s = lower_byte (slice s i (i + 1)) ++ lower_from fuel (i + 1) s

unfoldable pub to_lower : String → String
unfolding lower_from
to_lower s = lower_from (len s) 0 s

lowered : to_lower "Dial TCP: Timeout" ≡ "dial tcp: timeout"
unfolding to_lower
lowered = refl

replaced : replace_all "a-$1-b-$1" "$1" "xy" ≡ "a-xy-b-xy"
unfolding replace_all
replaced = refl

printed : decimal 1207 ≡ "1207"
unfolding decimal
printed = refl
