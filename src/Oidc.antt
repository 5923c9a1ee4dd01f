-- ===== src/Oidc.antt =====
-- Bearers that an identity provider signed. Code: `OidcAuthenticator`, `JwksCache` and
-- `CompositeAuthenticator` of mcp_governance_gateway/oidc.py. The decoding of a segment into a JSON
-- object, the verification of a signature, the fetched keys, the clock and the rounding of floats
-- are arguments. Of a time of the cache only comparisons and differences are used.
pub mod Times
pub mod Grants
pub mod Granted
pub mod Fetches
pub mod Tests
use mcp_governance_gateway.Base.{
  ℕ, ◌-◌, String, ◌<>◌, Bool, true, false, not, ◌&&◌, ◌||◌, Option, none, some, List, [], ◌∷◌,
  length, leb, ltb, eqb, is_some, if◌then◌else◌,
}
use mcp_governance_gateway.Base.Dict.{Dict, get}
use mcp_governance_gateway.Base.Text.{
  is_empty, strip, split, words, before, behind, take, codes, all_codes,
}
use mcp_governance_gateway.Base.Eq.{◌==◌, string_eq, contains}
use mcp_governance_gateway.Errors.{auth_error, Result, ok, err, ◌>>=◌}
use mcp_governance_gateway.Principal.{Principal, or_empty}
use mcp_governance_gateway.Runtime.{Runtime}
use mcp_governance_gateway.Auth.Files.{email_of}
use mcp_governance_gateway.Value.{Value, null, str, arr, Items, nil, cons, Args, get_value}
use mcp_governance_gateway.Hotfile.{Reloading, Access, refresh}
use mcp_governance_gateway.Oidc.Times.{Clock, finite_number, later, with_skew, float_of}
use mcp_governance_gateway.Oidc.Grants.{Grant, GrantMap, roles_of, resolve_grant}

-- The key set. `fetches` holds the times of the calls of `_fetch_keys`, the newest first. `Key` is a public key of the cryptography library.
pub record JwksCache (Key : Type 0) : Type 0 where
  pub keys : Dict String Key
  pub fetched_at : ℕ
  pub last_attempt : ℕ
  pub fetches : List ℕ

module _ {Key : Type 0} (ttl cooldown : ℕ) where
  -- Whether this call fetches.
  unfoldable pub is_due : Option String → ℕ → JwksCache Key → Bool
  unfolding get
  is_due kid now c =
      let stale = not (has_keys c.keys) || ltb ttl (now - c.fetched_at) in
      let unknown =
        has_keys c.keys && elim kid [ none ↦ false | some k ↦ not (is_some (get k c.keys)) ] in
      (stale || unknown) && ltb cooldown (now - c.last_attempt)
    where
      has_keys : Dict String Key → Bool
      has_keys [] = false
      has_keys (k ∷ ks) = true

  -- The key of an id; without one, the only key.
  abbrev pub the_only : Dict String Key → Option Key
  the_only (k ∷ []) = some k.1
  the_only _ = none

  abbrev pub key_of : Option String → Dict String Key → Option Key
  key_of none keys = the_only keys
  key_of (some kid) keys = if is_empty kid then the_only keys else get kid keys

  abbrev pub with_fetched : Result (Dict String Key) → ℕ → JwksCache Key → JwksCache Key
  with_fetched (err e) after c = c
  with_fetched (ok keys) after c = record c { keys = keys; fetched_at = after }

  -- The call of `_fetch_keys`, and what becomes of its result.
  unfoldable pub fetch_keys : Result (Dict String Key) → ℕ → ℕ → JwksCache Key → JwksCache Key
  fetch_keys fetched now after c =
      with_fetched fetched after (record c { fetches = now ∷ c.fetches })

  -- `get`; `fetched` is what fetching comes to, if it is due.
  unfoldable pub get_signing_key :
      Option String → Result (Dict String Key) → ℕ → ℕ → JwksCache Key → Option Key × JwksCache Key
  unfolding is_due fetch_keys get
  get_signing_key kid fetched now after c =
      let next =
        if is_due kid now c
        then fetch_keys fetched now after (record c { last_attempt = now })
        else c in
      (key_of kid next.keys, next)

abbrev pub max_token_bytes : ℕ
max_token_bytes = 16_384

abbrev pub algorithms : List String
algorithms = "RS256" ∷ "RS384" ∷ "RS512" ∷ "ES256" ∷ "ES384" ∷ "ES512" ∷ []

-- [A-Za-z0-9_-]
abbrev pub is_b64url_code : ℕ → Bool
is_b64url_code n =
    (leb b'A' n && leb n b'Z')
    || (leb b'a' n && leb n b'z')
    || (leb b'0' n && leb n b'9')
    || eqb n b'_'
    || eqb n b'-'

abbrev pub is_b64url : String → Bool
is_b64url s = not (is_empty s) && all_codes is_b64url_code s

-- The three segments of a JWS.
unfoldable pub segments : String → Option (String × (String × String))
unfolding split all_codes
segments token = elim (split b'.' token) [
  | header ∷ (payload ∷ (signature ∷ [])) ↦
      if is_b64url header && is_b64url payload && is_b64url signature
      then some (header, (payload, signature))
      else none
  | _ ↦ none
]

pub record OidcConfig : Type 0 where
  pub issuer : String
  pub audience : String
  pub groups_claim : String
  pub required_scope : Option String

unfoldable pub texts_in : Items → List String
texts_in nil = []
texts_in (cons (str s) rest) = s ∷ texts_in rest
texts_in (cons _ rest) = texts_in rest

-- aud if isinstance(aud, list) else [aud], the texts of it.
unfoldable pub audiences : Value → List String
unfolding texts_in
audiences (arr vs) = texts_in vs
audiences (str s) = s ∷ []
audiences _ = []

unfoldable pub scopes : Args → List String
unfolding words texts_in get_value
scopes claims = elim (get_value claims "scope") [
  | str s ↦ words s
  | _ ↦ elim (get_value claims "scp") [ arr vs ↦ texts_in vs | _ ↦ [] ]
]

abbrev pub is_text : Value → String → Bool
is_text (str s) text = s == text
is_text _ text = false

abbrev pub demand : Bool → String → Result (Unit {0})
demand true reason = ok tt
demand false reason = err (auth_error reason)

-- A claim that is a number in the future is refused.
unfoldable pub not_future : Clock → Value → String → Result (Unit {0})
unfolding finite_number later with_skew float_of ◌>>=◌
not_future clock value reason = finite_number value >>= λ finite.
    demand (not (finite && later (float_of clock value) (with_skew clock clock.now))) reason

unfoldable pub has_scope : Option String → Args → Bool
unfolding scopes
has_scope none claims = true
has_scope (some scope) claims = is_empty scope || contains scope (scopes claims)

module _ (config : OidcConfig) (clock : Clock) where
  unfoldable pub check_claims : Args → Result (Unit {0})
  unfolding get_value audiences finite_number later with_skew float_of not_future has_scope ◌>>=◌
  check_claims claims =
      demand (is_text (get_value claims "iss") config.issuer) "token issuer is not accepted"
      >>= λ issued.
          demand (contains config.audience (audiences (get_value claims "aud")))
            "token audience is not accepted"
          >>= λ meant. finite_number (get_value claims "exp") >>= λ finite.
              demand finite "token has no expiry" >>= λ bounded.
              demand
                (not (later clock.now (with_skew clock (float_of clock (get_value claims "exp")))))
                "token has expired"
              >>= λ live.
                  not_future clock (get_value claims "nbf") "token is not valid yet" >>= λ begun.
                  not_future clock (get_value claims "iat") "token is issued in the future"
                  >>= λ past.
                      demand (has_scope config.required_scope claims)
                        "token lacks the required scope"

-- `_groups_of`
unfoldable pub groups_of : OidcConfig → Args → List String
unfolding get_value roles_of
groups_of config claims = elim (get_value claims config.groups_claim) [
  | str s ↦ s ∷ []
  | raw ↦ roles_of raw
]

abbrev pub subject_in : Value → Result String
subject_in (str s) =
    if is_empty (strip s) then err (auth_error "token has no subject") else ok (strip s)
subject_in _ = err (auth_error "token has no subject")

abbrev pub algorithm_in : Value → Result String
algorithm_in (str alg) =
    if contains alg algorithms then ok alg else err (auth_error "unsupported token algorithm")
algorithm_in _ = err (auth_error "unsupported token algorithm")

abbrev pub kid_in : Value → Result (Option String)
kid_in null = ok none
kid_in (str kid) = ok (some kid)
kid_in _ = err (auth_error "malformed token header")

-- A token's parts, with what its header says.
pub record Opened : Type 0 where
  pub alg : String
  pub kid : Option String
  pub header : String
  pub payload : String
  pub signature : String

-- What one authentication finds: the clocks, the keys that fetching gives, the file of grants.
-- `decode` is the JSON object of a segment; `check_signature` raises where the signature is not one of the
-- key for the input.
pub record Arrival (Key : Type 0) : Type 0 where
  pub clock : Clock
  pub fetched : Result (Dict String Key)
  pub now : ℕ
  pub after : ℕ
  pub file : Access GrantMap
  pub decode : (segment what : String) → Result Args
  pub check_signature : (alg : String) (key : Key) (input signature : String) → Result (Unit {0})

pub record OidcState (Key : Type 0) : Type 0 where
  pub jwks : JwksCache Key
  pub grants : Reloading GrantMap

module _ (rt : Runtime) {Key : Type 0} (config : OidcConfig) (ttl cooldown : ℕ)
    (a : Arrival Key) where
  abbrev pub header_of : String × (String × String) → Args → Result Opened
  header_of (header, (payload, signature)) fields = algorithm_in (get_value fields "alg") >>= λ alg.
      kid_in (get_value fields "kid") >>= λ kid.
      ok
        (record { alg = alg; kid = kid; header = header; payload = payload; signature = signature })

  -- `authenticate` up to the key.
  unfoldable pub opened : String → Result Opened
  unfolding segments get_value codes ◌>>=◌
  opened token =
      if ltb max_token_bytes (length (codes token))
      then err (auth_error "token too large")
      else elim (segments token) [
        | none ↦ err (auth_error "token is not a JWS")
        | some parts ↦ a.decode parts.0 "header" >>= λ fields. header_of parts fields
      ]

  -- The claims and the subject of a token that its key signed.
  unfoldable pub verified : Opened → Option Key → Result (Args × String)
  unfolding check_claims get_value strip ◌>>=◌
  verified o none = err (auth_error "unknown token key")
  verified o (some key) =
      a.check_signature o.alg key (o.header <> ("." <> o.payload)) o.signature >>= λ signed.
      a.decode o.payload "payload" >>= λ claims. check_claims config a.clock claims >>= λ checked.
      subject_in (get_value claims "sub") >>= λ subject. ok (claims, subject)

  unfoldable pub principal_of : Args → String → Option Grant → Result Principal
  unfolding email_of get_value take
  principal_of claims subject none = err (auth_error "no project grant for this subject")
  principal_of claims subject (some grant) = ok (record {
    actor = subject;
    project = grant.project;
    roles = grant.roles;
    token_id = take 12 (rt.sha256 (config.issuer <> ("|" <> subject)));
    issue_project = grant.issue_project;
    email = email_of (get_value claims "email");
  })

  -- The principal of a subject, by the grants.
  unfoldable pub granted_principal : GrantMap → Args × String → Result Principal
  unfolding resolve_grant groups_of principal_of ◌>>=◌
  granted_principal grants (claims, subject) =
      resolve_grant grants subject (groups_of config claims) >>= λ grant.
      principal_of claims subject grant

  unfoldable pub settled : Result (Args × String) → OidcState Key → Result Principal × OidcState Key
  unfolding refresh granted_principal
  settled (err e) s = (err e, s)
  settled (ok found) s =
      let grants = refresh true true a.file s.grants in
      (granted_principal grants.value found, record s { grants = grants })

  -- `authenticate` from the key on.
  unfoldable pub authenticate_at : OidcState Key → Result Opened → Result Principal × OidcState Key
  unfolding get_signing_key verified settled
  authenticate_at s (err e) = (err e, s)
  authenticate_at s (ok o) =
      let (key, jwks) = get_signing_key ttl cooldown o.kid a.fetched a.now a.after s.jwks in
      settled (verified o key) (record s { jwks = jwks })

  unfoldable pub authenticate : String → OidcState Key → Result Principal × OidcState Key
  unfolding opened authenticate_at
  authenticate token s = authenticate_at s (opened token)

  abbrev pub is_auth_error : Result Principal → Bool
  is_auth_error (err (auth_error reason)) = true
  is_auth_error _ = false

  -- CompositeAuthenticator.authenticate_header, behind what the token file answers.
  unfoldable pub composite :
      Bool → Result Principal → Option String → OidcState Key → Result Principal × OidcState Key
  unfolding authenticate before behind segments
  composite has_oidc from_file authorization s =
      let text = or_empty authorization in
      let token = behind b' ' text in
      if not (is_auth_error from_file) || not has_oidc
      then (from_file, s)
      else if not (rt.lower (before b' ' text) == "bearer")
          || is_empty token
          || not (is_some (segments token))
      then (err (auth_error "invalid token"), s)
      else authenticate token s
