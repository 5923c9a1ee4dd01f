-- ===== src/Oidc/Granted.antt =====
-- Whom an identity provider's token admits. Code: `authenticate` and `_check_claims` of
-- mcp_governance_gateway/oidc.py.
use mcp_governance_gateway.Base.{ℕ, String, ◌<>◌, ◌≡◌, true, Option, some}
use mcp_governance_gateway.Base.Eq.{string_eq, contains}
use mcp_governance_gateway.Errors.{ok}
use mcp_governance_gateway.Hotfile.{refresh}
use mcp_governance_gateway.Principal.{Principal}
use mcp_governance_gateway.Runtime.{Runtime}
use mcp_governance_gateway.Value.{Value, Args, get_value}
use mcp_governance_gateway.Oidc.Grants.{Grant, GrantMap, resolve_grant}
use mcp_governance_gateway.Oidc.Times.{Clock, finite_number, with_skew, float_of, AtMost}
use mcp_governance_gateway.Oidc.{
  get_signing_key, algorithms, OidcConfig, audiences, is_text, has_scope, groups_of, subject_in,
  Opened, Arrival, OidcState, opened,
}

-- A claim that is a number is of no later time than now and the skew.
abbrev pub IsPast : Clock → Value → Type 0
IsPast clock value =
    finite_number value ≡ ok true → AtMost (float_of clock value) (with_skew clock clock.now)

-- The claims are the issuer's, for this gateway and of the scope that is required; now is no later
-- than their finite expiry and the skew, and they are of no later time.
pub record IsAccepted (config : OidcConfig) (clock : Clock) (claims : Args) : Type 0 where
  pub issued : is_text (get_value claims "iss") config.issuer ≡ true
  pub meant : contains config.audience (audiences (get_value claims "aud")) ≡ true
  pub bounded : finite_number (get_value claims "exp") ≡ ok true
  pub live : AtMost clock.now (with_skew clock (float_of clock (get_value claims "exp")))
  pub begun : IsPast clock (get_value claims "nbf")
  pub past : IsPast clock (get_value claims "iat")
  pub scoped : has_scope config.required_scope claims ≡ true

module _ (rt : Runtime) {Key : Type 0} (config : OidcConfig) (ttl cooldown : ℕ)
    (a : Arrival Key) where
  -- The key that the cache has for the token, after a fetch that is due.
  abbrev pub signing_key : Opened → OidcState Key → Option Key
  signing_key o s = (get_signing_key ttl cooldown o.kid a.fetched a.now a.after s.jwks).0

  -- The grants as the file has them.
  abbrev pub grants_now : OidcState Key → GrantMap
  grants_now s = (refresh true true a.file s.grants).value

  -- A principal whose token a known key signed, with claims that are accepted and a grant.
  pub record IsGranted (token : String) (s : OidcState Key) (p : Principal) : Type 0 where
    pub parts : Opened
    pub key : Key
    pub claims : Args
    pub grant : Grant
    pub opens : opened rt config ttl cooldown a token ≡ ok parts
    pub algorithm : contains parts.alg algorithms ≡ true
    pub known : signing_key parts s ≡ some key
    pub signed :
        a.check_signature parts.alg key (parts.header <> ("." <> parts.payload)) parts.signature
        ≡ ok tt
    pub reads : a.decode parts.payload "payload" ≡ ok claims
    pub accepted : IsAccepted config a.clock claims
    pub subject : subject_in (get_value claims "sub") ≡ ok p.actor
    pub grants : resolve_grant (grants_now s) p.actor (groups_of config claims) ≡ ok (some grant)
    pub project : p.project ≡ grant.project
    pub roles : p.roles ≡ grant.roles
    pub issue_project : p.issue_project ≡ grant.issue_project
