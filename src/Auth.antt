-- ===== src/Auth.antt =====
-- Who holds a bearer token, and whom a front gateway vouches for.
-- Code: mcp_governance_gateway/auth.py. `hmac` is an argument: the HMAC-SHA256 hex digest of a text
-- under a secret.
pub mod Files
pub mod Scan
pub mod Vouched
mod Tests
use mcp_governance_gateway.Base.{
  ℕ, String, ◌<>◌, Bool, true, false, not, ◌&&◌, ◌||◌, Option, none, some, List, [], ◌∷◌, ltb,
  if◌then◌else◌,
}
use mcp_governance_gateway.Base.Dict.{Dict, get, put}
use mcp_governance_gateway.Base.Text.{is_empty, before, behind, all_codes}
use mcp_governance_gateway.Base.Eq.{◌==◌, string_eq}
use mcp_governance_gateway.Errors.{auth_error, type_error, Result, ok, err, ◌>>=◌}
use mcp_governance_gateway.Hotfile.{Signature, Reloading, Access, start, refresh}
use mcp_governance_gateway.Principal.{Principal, or_empty}
use mcp_governance_gateway.Runtime.{Runtime}
use mcp_governance_gateway.Auth.Files.{Claims, Source, reload_claims}

-- The principals by their tokens' digests.
pub record TokenIndex : Type 0 where
  pub claims : Claims
  pub by_digest : Dict String (String × Principal)

module _ (rt : Runtime) where
  unfoldable pub index_into :
      Claims → Dict String (String × Principal) → Dict String (String × Principal)
  unfolding put
  index_into [] by_digest = by_digest
  index_into ((token, principal) ∷ claims) by_digest =
      index_into claims (put (rt.sha256 token) (token, principal) by_digest)

  unfoldable pub build : Claims → TokenIndex
  unfolding index_into
  build claims = record { claims = claims; by_digest = index_into claims [] }

  -- What an access of the files finds, with the authenticator's parser.
  unfoldable pub token_access : Bool → List Source → Signature → Signature → ℕ → Access TokenIndex
  unfolding reload_claims build ◌>>=◌
  token_access allow_empty sources seen locked now = record {
    seen = seen;
    locked = locked;
    parsed = λ previous. reload_claims rt allow_empty sources >>= λ claims. ok (build claims);
    now = now;
  }

  unfoldable pub from_files : List Source → Bool → Result (Reloading TokenIndex)
  unfolding reload_claims build start ◌>>=◌
  from_files sources allow_empty =
      reload_claims rt allow_empty sources >>= λ merged. ok (start (has_any sources) (build merged))
    where
      has_any : List Source → Bool
      has_any [] = false
      has_any (s ∷ more) = true

  -- The digest's candidate, compared with the bearer itself.
  unfoldable pub admitted : TokenIndex → String → Result Principal
  unfolding get
  admitted index token = elim (get (rt.sha256 token) index.by_digest) [
    | none ↦ err (auth_error "invalid token")
    | some found ↦ if found.0 == token then ok found.1 else err (auth_error "invalid token")
  ]

  -- The header's bearer, and what `admit` says of it.
  unfoldable pub bearer : (String → Result Principal) → Option String → Result Principal
  unfolding before behind
  bearer admit none = err (auth_error "missing authorization")
  bearer admit (some authorization) =
      let token = behind b' ' authorization in
      if is_empty authorization
      then err (auth_error "missing authorization")
      else if not (rt.lower (before b' ' authorization) == "bearer") || is_empty token
      then err (auth_error "invalid authorization")
      else admit token

  unfoldable pub authenticate_header :
      Bool
      → Access TokenIndex
      → Option String
      → Reloading TokenIndex
      → Result Principal × Reloading TokenIndex
  unfolding bearer admitted refresh
  authenticate_header has_paths a authorization s =
      let live = refresh has_paths false a s in (bearer (admitted live.value) authorization, live)

-- hmac.compare_digest of texts, which raises TypeError on one that is not ASCII.
unfoldable pub compare_digest : String → String → Result Bool
unfolding all_codes
compare_digest a b =
    if all_codes (λ n. ltb n 128) a && all_codes (λ n. ltb n 128) b
    then ok (a == b)
    else err type_error

pub record IdentityVerifier : Type 0 where
  pub secret : String
  pub prefix : String

module _ (hmac : String → String → String) where
  unfoldable pub vouched : Bool → Principal → String → Result Principal
  vouched true base user_id = ok (record base { actor = user_id })
  vouched false base user_id = err (auth_error "invalid identity claims signature")

  -- IdentityVerifier.resolve
  unfoldable pub resolve :
      IdentityVerifier → (String → Option String) → Principal → Result Principal
  unfolding compare_digest vouched ◌>>=◌
  resolve v header_get base =
      let user_id = or_empty (header_get (v.prefix <> "-Id")) in
      let signature = or_empty (header_get (v.prefix <> "-Claims-Signature")) in
      let email = or_empty (header_get (v.prefix <> "-Email")) in
      if is_empty v.secret || (is_empty user_id && is_empty signature)
      then ok base
      else if is_empty user_id || is_empty signature
      then err (auth_error "incomplete identity propagation headers")
      else compare_digest (hmac v.secret (user_id <> ":" <> email)) signature >>= λ same.
          vouched same base user_id
