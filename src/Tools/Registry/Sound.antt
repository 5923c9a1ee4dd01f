-- ===== src/Tools/Registry/Sound.antt =====
-- What the module-level assertions of registry.py check, and what policy and dispatch rely on.
use mcp_governance_gateway.Base.{inl, inr, Bool-cases, subst, ◌≡◌, refl, some, [], ◌∷◌, arith, All}
use mcp_governance_gateway.Base.Text.{before}
use mcp_governance_gateway.Base.Eq.{Eq, string_eq, ◌==◌}
use mcp_governance_gateway.Base.Dict.{Dict, get}
use mcp_governance_gateway.Tools.Spec.{ToolSpec, family_name}
use mcp_governance_gateway.Tools.Registry.{registry, specs_by_name}

-- The spec is what its name finds.
abbrev pub IsFound : ToolSpec → Type 0
IsFound spec = get spec.name specs_by_name ≡ some spec

-- The tool's prefix is its family.
abbrev pub IsPrefixed : ToolSpec → Type 0
IsPrefixed spec = before b'.' spec.name ≡ family_name spec.family

-- No two tools of the registry share a name: each is found under its own.
pub registry-IsFound : All IsFound registry
unfolding registry specs_by_name get
registry-IsFound = assumption refl

pub registry-IsPrefixed : All IsPrefixed registry
unfolding registry before family_name
registry-IsPrefixed = assumption refl

-- What holds of the values of a dict holds of what `get` finds.
pub get-All {ℓ κ} :
    {K V : Type ℓ} ⦃e : Eq K⦄ (P : V → Type κ) (k : K) (d : Dict K V) {v : V}
    → All (λ entry. P entry.1) d
    → get k d ≡ some v
    → P v
unfolding get
get-All P k [] {v} h found = absurd (ground arith)
get-All P k ((j, w) ∷ d) {v} h found = elim (Bool-cases (j == k)) [
  | inl same ↦ let e : some w ≡ some v = rw same at found in subst P (cc) h.0
  | inr other ↦ get-All P k d h.1 (rw other at found)
]
