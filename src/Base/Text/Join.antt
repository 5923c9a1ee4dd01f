-- ===== src/Base/Text/Join.antt =====
-- Texts that are joined by a separator none of them holds can be read back.
use Prim.Native.String.{String, ◌++◌}
use text.Mathlib.TextLemmas.{nil-append, cons-append}
use mathlib.Core.Path.{◌≡◌, refl, sym, ap, ◌∙◌}
use mathlib.Core.Bool.{false}
use mathlib.Core.List as L
use mathlib.Core.List.{List}
use native.Mathlib.Omega.{arith}
use mcp_governance_gateway.Base.Text.{has_char, before, behind, join}

-- The unit separator, U+001F.
abbrev pub unit_separator : String
unit_separator = "\u{1f}"

abbrev pub IsFree : String → Type 0
IsFree s = has_char 31 s ≡ false

before-append : (a b : String) → IsFree a → before 31 (a ++ (unit_separator ++ b)) ≡ a
unfolding before has_char
before-append String.[] b h = rw (nil-append, cons-append) refl
before-append (String.◌∷◌ c a) b h = rw cons-append (ground (arith, before-append a b))

behind-append : (a b : String) → IsFree a → behind 31 (a ++ (unit_separator ++ b)) ≡ b
unfolding behind has_char
behind-append String.[] b h = rw (nil-append, cons-append, nil-append) refl
behind-append (String.◌∷◌ c a) b h = rw cons-append (ground (arith, behind-append a b))

pub join-injective :
    (a b p q : String) (ps qs : List String)
    → IsFree a
    → IsFree b
    → join unit_separator (L.◌∷◌ a (L.◌∷◌ p ps)) ≡ join unit_separator (L.◌∷◌ b (L.◌∷◌ q qs))
    → (a ≡ b) × (join unit_separator (L.◌∷◌ p ps) ≡ join unit_separator (L.◌∷◌ q qs))
unfolding join
join-injective a b p q ps qs ha hb e = (
  sym (before-append a _ ha) ∙ ap (before 31) e ∙ before-append b _ hb,
  sym (behind-append a _ ha) ∙ ap (behind 31) e ∙ behind-append b _ hb,
)
