-- ===== src/Auth/Scan.antt =====
-- The digest index against a scan of the token map. Code: `_TokenIndex`, `authenticate_header` and
-- `_load_token_claims` of mcp_governance_gateway/auth.py.
use mcp_governance_gateway.Base.{
  ℕ, String, ◌≡◌, refl, sym, subst, ◌∙◌, inl, inr, Bool, true, false, Option, none, some, List, [],
  ◌∷◌, Bool-cases, if◌then◌else◌,
}
use mcp_governance_gateway.Base.Dict.{
  Dict, get, put, update, IsDict, get-put, put-IsDict, update-IsDict,
}
use mcp_governance_gateway.Base.Eq.{◌==◌, string_eq, pair_eq, nat_eq, option_eq, list_eq}
use mcp_governance_gateway.Errors.{auth_error, Result, ok, err, ◌>>=◌}
use mcp_governance_gateway.Hotfile.{Signature, Reloading, reload, refresh}
use mcp_governance_gateway.Principal.{Principal}
use mcp_governance_gateway.Runtime.{Runtime, IsCollisionFree}
use mcp_governance_gateway.Value.{Items, nil, cons}
use mcp_governance_gateway.Auth.Files.{
  Claims, Source, entry_of, add_entries, load_token_claims, merge_into, merge_sources,
  reload_claims, non_empty,
}
use mcp_governance_gateway.Auth.{
  TokenIndex, index_into, build, token_access, admitted, bearer, authenticate_header,
}

-- What the map itself says of a token.
unfoldable pub scan : Claims → String → Result Principal
unfolding get
scan claims token = elim (get token claims) [
  | none ↦ err (auth_error "invalid token")
  | some principal ↦ ok principal
]

-- A result whose value, where there is one, has no key twice.
abbrev pub IsClaims : Result Claims → Type 0
IsClaims (ok claims) = IsDict claims
IsClaims (err e) = Unit

bind-IsClaims :
    {A : Type 0} (r : Result A) (f : A → Result Claims)
    → ((a : A) → IsClaims (f a))
    → IsClaims (r >>= f)
bind-IsClaims (ok a) f h = h a
bind-IsClaims (err e) f h = tt

module _ (rt : Runtime) where
  add_entries-IsClaims :
      (tokens : Items) (claims : Claims) → IsDict claims → IsClaims (add_entries rt tokens claims)
  unfolding add_entries
  add_entries-IsClaims nil claims h = h
  add_entries-IsClaims (cons v rest) claims h =
      bind-IsClaims (entry_of rt v) (λ entry. add_entries rt rest (put entry.0 entry.1 claims))
        (λ entry.
          add_entries-IsClaims rest (put entry.0 entry.1 claims)
            (put-IsDict entry.0 entry.1 claims h))

  merge_into-IsClaims :
      (sources : List Source) (merged : Claims)
      → IsDict merged
      → IsClaims (merge_into rt sources merged)
  unfolding merge_into
  merge_into-IsClaims [] merged h = h
  merge_into-IsClaims (s ∷ more) merged h =
      bind-IsClaims (load_token_claims rt s) (λ claims. merge_into rt more (update merged claims))
        (λ claims. merge_into-IsClaims more (update merged claims) (update-IsDict merged claims h))

  reload_claims-IsClaims :
      (allow_empty : Bool) (sources : List Source) → IsClaims (reload_claims rt allow_empty sources)
  unfolding reload_claims merge_sources
  reload_claims-IsClaims true sources = merge_into-IsClaims sources [] tt
  reload_claims-IsClaims false sources =
      go (merge_sources rt sources) (merge_into-IsClaims sources [] tt)
    where
      go : (r : Result Claims) → IsClaims r → IsClaims (r >>= non_empty)
      go (ok []) h = tt
      go (ok (c ∷ claims)) h = h
      go (err e) h = tt

  abbrev with_token :
      String → Option Principal → Option (String × Principal) → Option (String × Principal)
  with_token token (some principal) older = some (token, principal)
  with_token token none older = older

  -- A token's digest leads to its principal, and to no other token's.
  get-index_into :
      IsCollisionFree rt
      → (claims : Claims) (by_digest : Dict String (String × Principal)) (token : String)
      → IsDict claims
      → get (rt.sha256 token) (index_into rt claims by_digest)
        ≡ with_token token (get token claims) (get (rt.sha256 token) by_digest)
  unfolding index_into get
  get-index_into free [] by_digest token h = refl
  get-index_into free ((t, principal) ∷ claims) by_digest token (fresh, h) =
      get-index_into free claims (put (rt.sha256 t) (t, principal) by_digest) token h
      ∙ elim (Bool-cases (t == token)) [
        | inl same ↦
            let eq : t ≡ token = (string_eq.beq_iff t token).0 same in
            let gone : get token claims ≡ none = rw (← eq) fresh in
            rw (
              gone,
              same,
              get-put,
              eq,
              (string_eq.beq_iff (rt.sha256 token) (rt.sha256 token)).1 refl,
            )
        | inr other ↦ rw (other, get-put, distinct t token other)
      ]
    where
      distinct :
          (t token : String) → (t == token) ≡ false → (rt.sha256 t == rt.sha256 token) ≡ false
      distinct t token other = elim (Bool-cases (rt.sha256 t == rt.sha256 token)) [
        | inr apart ↦ apart
        | inl met ↦
            let eq : t ≡ token =
              free t token ((string_eq.beq_iff (rt.sha256 t) (rt.sha256 token)).0 met) in
            absurd (let no : true ≡ false = sym ((string_eq.beq_iff t token).1 eq) ∙ other in cc)
      ]

  admitted-scan :
      IsCollisionFree rt
      → (claims : Claims) (token : String) → IsDict claims
      → admitted rt (build rt claims) token ≡ scan claims token
  unfolding admitted build scan
  admitted-scan free claims token h =
      rw (admitted, get-index_into free claims [] token h) (go (get token claims))
    where
      go :
          (o : Option Principal)
          → elim (with_token token o none) [
            | none ↦ err (auth_error "invalid token")
            | some found ↦ if found.0 == token then ok found.1 else err (auth_error "invalid token")
          ]
            ≡ elim o [ none ↦ err (auth_error "invalid token") | some principal ↦ ok principal ]
      go none = refl
      go (some principal) = rw ((string_eq.beq_iff token token).1 refl)

  bearer-cong :
      (f g : String → Result Principal) (authorization : Option String)
      → ((token : String) → f token ≡ g token)
      → bearer rt f authorization ≡ bearer rt g authorization
  unfolding bearer
  bearer-cong f g none h = refl
  bearer-cong f g (some authorization) h = rw (bearer, h)

  -- A change of the files is in force at the next access.
  refresh-new :
      (allow_empty : Bool) (sources : List Source) (claims : Claims) (seen locked : Signature)
      (now : ℕ) (s : Reloading TokenIndex)
      → reload_claims rt allow_empty sources ≡ ok claims
      → (some seen == s.sig) ≡ false
      → (some locked == s.sig) ≡ false
      → (refresh true false (token_access rt allow_empty sources seen locked now) s).value
        ≡ build rt claims
  unfolding refresh reload token_access
  refresh-new allow_empty sources claims seen locked now s parsed unseen unlocked =
      rw (unseen, unlocked, parsed)

-- Where no two texts with one digest are met: at the first request after the token files changed,
-- if they parse and merge to a map of tokens, the answer to an Authorization header is the one that
-- looking its bearer up in that map gives; a token that a file no longer holds is refused.
pub authenticate_header-scan :
    (rt : Runtime) (allow_empty : Bool) (sources : List Source) (claims : Claims)
    (seen locked : Signature) (now : ℕ) (s : Reloading TokenIndex) (authorization : Option String)
    → IsCollisionFree rt
    → reload_claims rt allow_empty sources ≡ ok claims
    → (some seen == s.sig) ≡ false
    → (some locked == s.sig) ≡ false
    → (authenticate_header rt true
        (token_access rt allow_empty sources seen locked now)
        authorization
        s).0
      ≡ bearer rt (scan claims) authorization
unfolding authenticate_header
authenticate_header-scan rt allow_empty sources claims seen locked now s authorization free parsed
      unseen unlocked =
    rw (refresh-new rt allow_empty sources claims seen locked now s parsed unseen unlocked) (
      bearer-cong rt (admitted rt (build rt claims)) (scan claims) authorization
        (λ token. admitted-scan rt free claims token distinct))
  where
    distinct : IsDict claims
    distinct = subst IsClaims parsed (reload_claims-IsClaims rt allow_empty sources)
