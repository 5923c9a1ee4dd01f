-- ===== src/Hotfile/Tests.antt =====
-- A followed file at concrete accesses: it parses, it is broken, it parses again.
use mcp_governance_gateway.Base.{ℕ, zero, ◌*◌, ◌≡◌, false, true, not, some, List, [], ◌∷◌}
use mcp_governance_gateway.Errors.{Result, ok, err, value_error, is_ok}
use mcp_governance_gateway.Limits.{second}
use mcp_governance_gateway.Hotfile.{Signature, start, refresh}
use mcp_governance_gateway.Hotfile.Follows.{follow, last_good, access, follow-refines, stale-tells}

-- A file of one size parses to it, and an empty one does not parse.
parsed : Signature → Result ℕ
parsed (some (changed, (zero, inode)) ∷ []) = err (value_error "no tokens")
parsed (some (changed, (size, inode)) ∷ []) = ok size
parsed _ = err (value_error "not found")

abbrev at : ℕ → ℕ → Signature
at changed size = some (changed, (size, 1)) ∷ []

abbrev accesses : List (Signature × ℕ)
accesses =
    (at 1 10, 1 * second)
    ∷ (at 2 0, 2 * second)
    ∷ (at 2 0, 40 * second)
    ∷ (at 3 12, 50 * second)
    ∷ []

follow-refines_example :
    (follow parsed true accesses (start true 5)).value ≡ last_good parsed accesses 5
follow-refines_example = follow-refines parsed true 5 accesses

stale-tells_example :
    (refresh true false
      (access parsed (at 4 0, 60 * second))
      (follow parsed false accesses (start true 5))).stale
    ≡ not (is_ok (parsed (at 4 0)))
stale-tells_example = stale-tells parsed 5 accesses (at 4 0) (60 * second)
