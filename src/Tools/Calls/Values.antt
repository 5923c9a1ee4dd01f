-- ===== src/Tools/Calls/Values.antt =====
-- Values that the handlers hand on: `None` or a text, a dict with optional keys.
-- Code: the dict literals of `call` in the modules of mcp_governance_gateway/tools.
use mcp_governance_gateway.Base.{
  String, Bool, not, Option, none, some, List, [], ◌∷◌, if◌then◌else◌,
}
use mcp_governance_gateway.Base.Int.{ℤ}
use mcp_governance_gateway.Base.Dict.{Dict, get, put}
use mcp_governance_gateway.Base.Eq.{string_eq}
use mcp_governance_gateway.Value.{Value, null, int, str, Items, nil, cons, Args}

abbrev pub text_or_null : Option String → Value
text_or_null none = null
text_or_null (some s) = str s

abbrev pub int_or_null : Option ℤ → Value
int_or_null none = null
int_or_null (some n) = int n

-- `if value is not None: d[key] = value`
unfoldable pub put_text : String → Option String → Args → Args
unfolding put
put_text key none d = d
put_text key (some s) d = put key (str s) d

unfoldable pub put_int : String → Option ℤ → Args → Args
unfolding put
put_int key none d = d
put_int key (some n) d = put key (int n) d

-- d.update(planning)
unfoldable pub update : Args → Dict String String → Args
unfolding put
update d [] = d
update d ((key, s) ∷ planning) = update (put key (str s) d) planning

-- arguments.get(key, default)
unfoldable pub get_or : Args → String → Value → Value
unfolding get
get_or d key default = elim (get key d) [ none ↦ default | some v ↦ v ]

-- A list of texts as a value.
unfoldable pub text_items : List String → Items
text_items [] = nil
text_items (s ∷ ss) = cons (str s) (text_items ss)

-- `(a is None) == (b is None)`
abbrev pub same_bool : Bool → Bool → Bool
same_bool a b = if a then b else not b
