-- ===== src/Confirm/Sorted.antt =====
-- `sorted(set(a) | set(b))` of texts: in the order of their code points, each once.
use Prim.Native.Nat.{Ordering}
use Prim.Native.String.{compare}
use mcp_governance_gateway.Base.{String, List, [], ◌∷◌, ◌≡◌, refl}

unfoldable pub insert : String → List String → List String
insert s [] = s ∷ []
insert s (t ∷ ts) =
    let rest = insert s ts in
    elim (compare s t) [ Ordering.lt ↦ s ∷ t ∷ ts | Ordering.eq ↦ t ∷ ts | Ordering.gt ↦ t ∷ rest ]

unfoldable pub sorted_set : List String → List String → List String
unfolding insert
sorted_set out [] = out
sorted_set out (s ∷ ss) = sorted_set (insert s out) ss

unfoldable pub sorted_union : List String → List String → List String
unfolding sorted_set
sorted_union a b = sorted_set (sorted_set [] a) b

sorted_union_runs : sorted_union ("b" ∷ "a" ∷ []) ("c" ∷ "a" ∷ []) ≡ "a" ∷ "b" ∷ "c" ∷ []
unfolding sorted_union
sorted_union_runs = refl
