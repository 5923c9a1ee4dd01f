-- ===== src/SecretScan.antt =====
-- The scan for secrets in texts that a team sees. Code: mcp_governance_gateway/secret_scan.py,
-- `reject_secret` of mcp_governance_gateway/tools/memory.py. Whether a pattern matches is a
-- parameter of the model; the patterns stand here under their labels.
use mcp_governance_gateway.Base.{String, ◌<>◌, Option, none, some, List, [], ◌∷◌, if◌then◌else◌}
use mcp_governance_gateway.Base.Text.{is_empty}
use mcp_governance_gateway.Errors.{value_error, Result, ok, err}
use mcp_governance_gateway.Runtime.{Runtime}

abbrev pub patterns : List (String × String)
patterns =
    ("private key (PEM)", "-----BEGIN [A-Z ]*PRIVATE KEY-----")
    ∷ ("AWS access key id", "\\b(?:AKIA|ASIA)[0-9A-Z]{16}\\b")
    ∷ ("GitHub token", "\\bgh[pousr]_[A-Za-z0-9]{36,}\\b")
    ∷ ("GitLab personal access token", "\\bglpat-[0-9A-Za-z_\\-]{20,}\\b")
    ∷ ("Slack token", "\\bxox[baprs]-[0-9A-Za-z\\-]{10,}\\b")
    ∷ ("Google API key", "\\bAIza[0-9A-Za-z_\\-]{35}\\b")
    ∷ ("sk-style API key", "\\bsk-[A-Za-z0-9_\\-]{20,}\\b")
    ∷ ("JWT", "\\beyJ[A-Za-z0-9_\\-]{10,}\\.[A-Za-z0-9_\\-]{10,}\\.[A-Za-z0-9_\\-]{5,}\\b")
    ∷ ("bearer token", "(?i)\\bbearer\\s+[A-Za-z0-9_\\-.=]{20,}")
    ∷ (
      "credential assignment",
      "(?i)\\b(?:password|passwd|secret|token|api[_-]?key)\\b\\s*[=:]\\s*['\\\"]?(?![$<{])[A-Za-z0-9_\\-.+/]*?(?=[A-Za-z0-9_+/]{16,})(?=[A-Za-z0-9_\\-.+/]*\\d)[A-Za-z0-9_+/]{16,}",
    )
    ∷ []

module _ (rt : Runtime) where
  -- The label of the first pattern that is found in the text.
  unfoldable pub first_label : List (String × String) → String → Option String
  first_label [] text = none
  first_label ((label, pattern) ∷ rest) text =
      let later = first_label rest text in if rt.re_search pattern text then some label else later

  -- The texts that are there; an empty one is passed over.
  unfoldable pub find_secret : List (Option String) → Option String
  unfolding first_label
  find_secret [] = none
  find_secret (none ∷ texts) = find_secret texts
  find_secret (some text ∷ texts) =
      let later = find_secret texts in
      if is_empty text
      then later
      else elim (first_label patterns text) [ none ↦ later | some label ↦ some label ]

unfoldable pub reject_secret : Option String → Result (Unit {0})
reject_secret none = ok tt
reject_secret (some label) =
    if is_empty label
    then ok tt
    else err (
        value_error (
          "possible secret detected (" <> label
          <> ") — redact it and retry: memory and issue writes are team-visible and append-only (no delete)"))
