-- ===== src/Runtime.antt =====
-- What the modelled code takes from Python's standard library and does not look into: a parameter of
-- the model. Code: the calls of `hashlib.sha256(...).hexdigest()`, `json.dumps`, `str`, `repr` and `re` in
-- mcp_governance_gateway/confirm.py, mcp_governance_gateway/mcp.py,
-- mcp_governance_gateway/secret_scan.py and mcp_governance_gateway/tools.
use mcp_governance_gateway.Base.{String, ◌≡◌, Bool}
use mcp_governance_gateway.Value.{Value}

pub record Runtime : Type 0 where
  -- The hexadecimal SHA-256 digest of the text's UTF-8.
  pub sha256 : String → String
  -- json.dumps(value, sort_keys=True, ensure_ascii=False, separators=(",", ":"))
  pub dumps : Value → String
  -- json.dumps(value, ensure_ascii=False, sort_keys=True)
  pub dumps_text : Value → String
  -- str(value)
  pub str_of : Value → String
  -- text.lower()
  pub lower : String → String
  -- repr(text)
  pub repr : String → String
  -- re.compile(pattern).search(text) is not None
  pub re_search : String → String → Bool

-- No two texts with one digest are met.
abbrev pub IsCollisionFree : Runtime → Type 0
IsCollisionFree rt = (a b : String) → rt.sha256 a ≡ rt.sha256 b → a ≡ b
