-- ===== src/Tools/Args/Tests.antt =====
-- The argument checks at concrete arguments.
use mcp_governance_gateway.Base.{◌≡◌, ◌≤◌, refl, false, some, [], ◌∷◌, arith}
use Prim.Native.String.{count}
use mcp_governance_gateway.Base.Int.{pos, ◌≤ℤ◌}
use mcp_governance_gateway.Base.Text.{is_empty, strip}
use mcp_governance_gateway.Base.Dict.{get}
use mcp_governance_gateway.Errors.{ok}
use mcp_governance_gateway.Value.{Args, int, str, get_value}
use mcp_governance_gateway.Tools.Args.{required_text, limit, optional_int}
use mcp_governance_gateway.Tools.Args.Bounds.{required_text-ok, limit-within, optional_int-within}

abbrev arguments : Args
arguments = ("text", str " a note ") ∷ ("buildNumber", int (pos 7)) ∷ []

text_ok : required_text arguments "text" 100 ≡ ok "a note"
unfolding required_text get_value get strip
text_ok = refl

required_text-ok_example :
    (is_empty "a note" ≡ false) × (count "a note" ≤ 100) × (strip "a note" ≡ "a note")
required_text-ok_example = required_text-ok arguments "text" 100 "a note" text_ok

limit_ok : limit (int (pos 7)) (pos 10) ≡ ok (pos 7)
unfolding limit
limit_ok = refl

limit-within_example : (pos 1 ≤ℤ pos 7) × (pos 7 ≤ℤ pos 50)
limit-within_example =
    limit-within (int (pos 7)) (pos 10) (pos 7) (omega arith, omega arith) limit_ok

build_ok : optional_int arguments "buildNumber" (pos 1) (pos 1_000) ≡ ok (some (pos 7))
unfolding optional_int get_value get
build_ok = refl

optional_int-within_example :
    (get_value arguments "buildNumber" ≡ int (pos 7)) × (pos 1 ≤ℤ pos 7) × (pos 7 ≤ℤ pos 1_000)
optional_int-within_example =
    optional_int-within arguments "buildNumber" (pos 1) (pos 1_000) (pos 7) build_ok
