-- ===== src/Oidc/Fetches.antt =====
-- How often keys are fetched. Code: `JwksCache` of mcp_governance_gateway/oidc.py.
use mcp_governance_gateway.Base.{
  ℕ, ◌+◌, ◌-◌, ◌<◌, String, ◌≡◌, refl, Bool, true, false, Option, List, [], ◌∷◌, arith, ltb,
  if◌then◌else◌,
}
use mcp_governance_gateway.Base.Dict.{Dict}
use mcp_governance_gateway.Errors.{Result, ok, err}
use mcp_governance_gateway.Oidc.{JwksCache, is_due, fetch_keys, get_signing_key}

-- One lookup of a key, and what a fetch would come to.
pub record Lookup (Key : Type 0) : Type 0 where
  pub kid : Option String
  pub fetched : Result (Dict String Key)
  pub now : ℕ
  pub after : ℕ

-- Each time is more than the cooldown after the next in the list.
abbrev pub Spaced : ℕ → List ℕ → Type 0
Spaced cooldown [] = Unit
Spaced cooldown (t ∷ []) = Unit
Spaced cooldown (t ∷ (u ∷ ts)) = (u + cooldown < t) × Spaced cooldown (u ∷ ts)

-- The newest fetch is the last attempt, and there is none while nothing was attempted.
abbrev pub IsRecorded : ℕ → ℕ → List ℕ → Type 0
IsRecorded cooldown last [] = Unit
IsRecorded cooldown last (t ∷ ts) = (t ≡ last) × Spaced cooldown (t ∷ ts)

Spaced-IsRecorded :
    (cooldown last : ℕ) (ts : List ℕ) → IsRecorded cooldown last ts → Spaced cooldown ts
Spaced-IsRecorded cooldown last [] h = tt
Spaced-IsRecorded cooldown last (t ∷ ts) h = h.1

IsRecorded-add :
    (cooldown last now : ℕ) (ts : List ℕ)
    → ltb cooldown (now - last) ≡ true
    → IsRecorded cooldown last ts
    → IsRecorded cooldown now (now ∷ ts)
IsRecorded-add cooldown last now [] due h = (refl, tt)
IsRecorded-add cooldown last now (t ∷ ts) due (e, h) = (refl, (gap, h))
  where
    gap : t + cooldown < now
    gap = ground arith

module _ {Key : Type 0} (ttl cooldown : ℕ) where
  -- The cache after lookups, the first one first.
  unfoldable pub look_up : List (Lookup Key) → JwksCache Key → JwksCache Key
  look_up [] c = c
  look_up (l ∷ ls) c = look_up ls (get_signing_key ttl cooldown l.kid l.fetched l.now l.after c).1

  is_due-cooldown :
      (kid : Option String) (now : ℕ) (c : JwksCache Key)
      → is_due ttl cooldown kid now c ≡ true
      → ltb cooldown (now - c.last_attempt) ≡ true
  unfolding is_due
  is_due-cooldown kid now c h = ground arith

  fetch_keys-IsRecorded :
      (r : Result (Dict String Key)) (now after : ℕ) (c : JwksCache Key)
      → ltb cooldown (now - c.last_attempt) ≡ true
      → IsRecorded cooldown c.last_attempt c.fetches
      → let d = fetch_keys ttl cooldown r now after (record c { last_attempt = now }) in
        IsRecorded cooldown d.last_attempt d.fetches
  unfolding fetch_keys
  fetch_keys-IsRecorded (ok keys) now after c due h =
      IsRecorded-add cooldown c.last_attempt now c.fetches due h
  fetch_keys-IsRecorded (err e) now after c due h =
      IsRecorded-add cooldown c.last_attempt now c.fetches due h

  get_signing_key-IsRecorded :
      (kid : Option String) (r : Result (Dict String Key)) (now after : ℕ) (c : JwksCache Key)
      → IsRecorded cooldown c.last_attempt c.fetches
      → let d = (get_signing_key ttl cooldown kid r now after c).1 in
        IsRecorded cooldown d.last_attempt d.fetches
  unfolding get_signing_key
  get_signing_key-IsRecorded kid r now after c h = go (is_due ttl cooldown kid now c) refl
    where
      next : Bool → JwksCache Key
      next due =
          if due then fetch_keys ttl cooldown r now after (record c { last_attempt = now }) else c

      go :
          (due : Bool)
          → is_due ttl cooldown kid now c ≡ due
          → IsRecorded cooldown (next due).last_attempt (next due).fetches
      go true e = fetch_keys-IsRecorded r now after c (is_due-cooldown kid now c e) h
      go false e = h

-- However many keys are looked up, of whatever ids, at whatever times and whatever the fetches come
-- to: any two consecutive calls of the fetch are more than the cooldown apart, if that holds of
-- the calls before and the newest of these was the last attempt.
pub fetches-Spaced :
    {Key : Type 0} (ttl cooldown : ℕ) (ls : List (Lookup Key)) (c : JwksCache Key)
    → IsRecorded cooldown c.last_attempt c.fetches
    → Spaced cooldown (look_up ttl cooldown ls c).fetches
unfolding look_up
fetches-Spaced ttl cooldown [] c h = Spaced-IsRecorded cooldown c.last_attempt c.fetches h
fetches-Spaced ttl cooldown (l ∷ ls) c h =
    fetches-Spaced ttl cooldown ls (get_signing_key ttl cooldown l.kid l.fetched l.now l.after c).1
      (get_signing_key-IsRecorded ttl cooldown l.kid l.fetched l.now l.after c h)
