-- ===== src/Base/Dict.antt =====
-- Python's `dict`: an association list in insertion order. Writing to a key that is there keeps
-- its place, a new key goes to the end.
use Prim.Native.Nat.{◌≤◌}
use mathlib.Core.Path.{◌≡◌, refl}
use mathlib.Core.Logic.{inl, inr}
use mathlib.Core.Option.{Option, none, some}
use mathlib.Core.List.{List, [], ◌∷◌}
use native.Mathlib.Omega.{arith}
use mcp_governance_gateway.Base.Tests.{if◌then◌else◌, Bool-cases}
use mcp_governance_gateway.Base.Lists.{length}
use mcp_governance_gateway.Base.Eq.{Eq, ◌==◌}

abbrev pub Dict {ℓ} : Type ℓ → Type ℓ → Type ℓ
Dict K V = List (K × V)

module _ {ℓ} {K V : Type ℓ} where
  abbrev pub keys : Dict K V → List K
  keys [] = []
  keys ((k, v) ∷ d) = k ∷ keys d

module _ {ℓ} {K V : Type ℓ} ⦃e : Eq K⦄ where
  -- d.get(k)
  unfoldable pub get : K → Dict K V → Option V
  get k [] = none
  get k ((j, v) ∷ d) = if j == k then some v else get k d

  -- d[k] = v
  unfoldable pub put : K → V → Dict K V → Dict K V
  put k v [] = (k, v) ∷ []
  put k v ((j, w) ∷ d) = if j == k then (j, v) ∷ d else (j, w) ∷ put k v d

  -- d.pop(k, None), del d[k]
  unfoldable pub remove : K → Dict K V → Dict K V
  remove k [] = []
  remove k ((j, w) ∷ d) = let rest = remove k d in if j == k then rest else (j, w) ∷ rest

  -- d.update(more), {**d, **more}
  unfoldable pub update : Dict K V → Dict K V → Dict K V
  unfolding put
  update d [] = d
  update d ((k, v) ∷ more) = update (put k v d) more

  -- No key stands twice.
  abbrev pub IsDict : Dict K V → Type ℓ
  IsDict [] = Unit
  IsDict ((k, v) ∷ d) = (get k d ≡ none) × IsDict d

  pub get-put :
      (k j : K) (v : V) (d : Dict K V) → get j (put k v d) ≡ (if k == j then some v else get j d)
  unfolding get put
  get-put k j v [] = refl
  get-put k j v ((i, w) ∷ d) =
      ground (arith, e.beq_iff i k, e.beq_iff i j, e.beq_iff k j, get-put k j v d)

  pub get-remove :
      (k j : K) (d : Dict K V) → get j (remove k d) ≡ (if k == j then none else get j d)
  unfolding get remove
  get-remove k j [] = ground arith
  get-remove k j ((i, w) ∷ d) =
      ground (arith, e.beq_iff i k, e.beq_iff i j, e.beq_iff k j, get-remove k j d)

  pub get-put_self : (k : K) (v : V) (d : Dict K V) → get k (put k v d) ≡ some v
  get-put_self k v d = rw (get-put, (e.beq_iff k k).1 refl)

  pub put-IsDict : (k : K) (v : V) (d : Dict K V) → IsDict d → IsDict (put k v d)
  unfolding put get
  put-IsDict k v [] h = (refl, tt)
  put-IsDict k v ((j, w) ∷ d) (fresh, h) = elim (Bool-cases (j == k)) [
    | inl same ↦ rw same (fresh, h)
    | inr other ↦
        rw other (ground (arith, get-put k j v d, e.beq_iff j k, e.beq_iff k j), put-IsDict k v d h)
  ]

  pub update-IsDict : (d more : Dict K V) → IsDict d → IsDict (update d more)
  unfolding update
  update-IsDict d [] h = h
  update-IsDict d ((k, v) ∷ more) h = update-IsDict (put k v d) more (put-IsDict k v d h)

  pub put-put : (k : K) (v w : V) (d : Dict K V) → put k w (put k v d) ≡ put k w d
  unfolding put
  put-put k v w [] = ground (arith, e.beq_iff k k)
  put-put k v w ((j, x) ∷ d) = ground (arith, e.beq_iff j k, put-put k v w d)

  pub length-remove-le : (k : K) (d : Dict K V) → length (remove k d) ≤ length d
  unfolding remove
  length-remove-le k [] = omega arith
  length-remove-le k ((i, w) ∷ d) = ground (arith, length-remove-le k d)

  pub ruleset dict_laws = (get-put, get-remove)
