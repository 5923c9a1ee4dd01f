-- ===== src/Value.antt =====
-- The values that cross the MCP surface: what `json` parses a message into, and the dicts that
-- handlers build. Code: mcp_governance_gateway/mcp.py, mcp_governance_gateway/tools.
use mcp_governance_gateway.Base.{
  if◌then◌else◌, ℕ, zero, suc, String, ◌<>◌, ◌≡◌, refl, Bool, true, false, not, none, some, List,
  [], ◌∷◌,
}
use mcp_governance_gateway.Base.Int.{ℤ, pos, negsuc}
use mcp_governance_gateway.Base.Text.{show, is_empty}
use mcp_governance_gateway.Base.Eq.{string_eq}
use mcp_governance_gateway.Base.Dict.{Dict, get}

-- A Python float. A finite one is a dyadic fraction, `fraction m e` is m / 2 ^ e.
pub data Float : Type 0 where
  fraction : ℤ → ℕ → Float
  nan infinity neg_infinity : Float

mutual
  pub data Value : Type 0 where
    null : Value
    str : String → Value
    obj : Fields → Value
    arr : Items → Value
    bool : Bool → Value
    int : ℤ → Value
    float : Float → Value

  -- The entries of an object, in their order.
  pub data Fields : Type 0 where
    end : Fields
    field : (key : String) (value : Value) (rest : Fields) → Fields

  pub data Items : Type 0 where
    nil : Items
    cons : (first : Value) (rest : Items) → Items

-- A dict, as a list of its entries.
abbrev pub Args : Type 0
Args = Dict String Value

unfoldable pub entries : Fields → Args
entries end = []
entries (field k v fs) = (k, v) ∷ entries fs

unfoldable pub fields : Args → Fields
fields [] = end
fields ((k, v) ∷ d) = field k v (fields d)

pub entries-fields : (d : Args) → entries (fields d) ≡ d
unfolding entries fields
entries-fields [] = refl
entries-fields ((k, v) ∷ d) = λ i. (k, v) ∷ entries-fields d i

-- A dict literal as a value.
unfoldable pub dict : Args → Value
unfolding fields
dict d = obj (fields d)

unfoldable pub items : Items → List Value
items nil = []
items (cons v vs) = v ∷ items vs

-- bool(value): what `if value` and `value or default` test.
unfoldable pub truthy : Value → Bool
truthy null = false
truthy (bool b) = b
truthy (int (pos zero)) = false
truthy (int _) = true
truthy (float (fraction (pos zero) _)) = false
truthy (float _) = true
truthy (str s) = not (is_empty s)
truthy (arr nil) = false
truthy (arr _) = true
truthy (obj end) = false
truthy (obj _) = true

-- a or b
unfoldable pub or_else : Value → Value → Value
unfolding truthy
or_else a b = if truthy a then a else b

-- arguments.get(key), None for a missing key.
unfoldable pub get_value : Args → String → Value
unfolding get
get_value d k = elim (get k d) [ none ↦ null | some v ↦ v ]

unfoldable pub show_ℤ : ℤ → String
unfolding show
show_ℤ (pos n) = show n
show_ℤ (negsuc n) = "-" <> show (suc n)
