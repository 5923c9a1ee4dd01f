-- ===== src/Server.antt =====
-- The HTTP route of the MCP endpoint. Code: `_mcp`, `_read_json` and `is_origin_allowed` of
-- mcp_governance_gateway/server.py. What `int` makes of the Content-Length and what parsing the body
-- comes to are arguments of a request.
pub mod Authorized
mod Tests
use mcp_governance_gateway.Base.{
  ℕ, String, Bool, true, false, not, ◌||◌, Option, none, some, List, [], ◌∷◌, if◌then◌else◌,
}
use mcp_governance_gateway.Base.Int.{ℤ, pos, leb_ℤ, ltb_ℤ}
use mcp_governance_gateway.Base.Eq.{string_eq, contains}
use mcp_governance_gateway.Errors.{value_error, auth_error, Result, ok, err, ◌>>=◌}
use mcp_governance_gateway.Hotfile.{Reloading, Access}
use mcp_governance_gateway.Principal.{Principal}
use mcp_governance_gateway.Runtime.{Runtime}
use mcp_governance_gateway.Value.{Value, str, obj, entries, dict}
use mcp_governance_gateway.Auth.{TokenIndex, IdentityVerifier, authenticate_header, resolve}
use mcp_governance_gateway.Oidc.{OidcConfig, OidcState, Arrival, composite}
use mcp_governance_gateway.Gateway.Rpc.{handle_rpc}
use mcp_governance_gateway.Gateway.{App, Moment, Deployment, message_of}

-- What a request carries, with the readings that answering it takes.
pub record Incoming (Key : Type 0) : Type 0 where
  pub header_get : String → Option String
  pub length : Result ℤ
  pub body : Result Value
  pub token_files : Access TokenIndex
  pub provider : Arrival Key
  pub moment : Moment

pub record Reply : Type 0 where
  pub status : ℕ
  pub payload : Option Value
  pub close : Bool

-- The configuration that the route reads.
pub record Listener : Type 0 where
  pub rt : Runtime
  pub host : Deployment
  pub serves_mcp : Bool
  pub allowed_origins : List String
  pub has_sources : Bool
  pub has_oidc : Bool
  pub oidc : OidcConfig
  pub ttl : ℕ
  pub cooldown : ℕ
  pub hmac : String → String → String
  pub verifier : IdentityVerifier

-- What requests share and change.
pub record ServerState (Key : Type 0) : Type 0 where
  pub tokens : Reloading TokenIndex
  pub identities : OidcState Key
  pub app : App

unfoldable pub is_origin_allowed : Option String → List String → Bool
is_origin_allowed none allowed = true
is_origin_allowed (some origin) allowed = contains origin allowed

-- `_read_json`
unfoldable pub read_json : Result ℤ → Result Value → Result Value
read_json (err e) body = err (value_error "invalid content length")
read_json (ok length) body =
    if leb_ℤ length (pos 0) || ltb_ℤ (pos 2_000_000) length
    then err (value_error "invalid request size")
    else body

abbrev pub told : String → Value
told message = dict (("error", str message) ∷ [])

module _ {Key : Type 0} (l : Listener) (r : Incoming Key) where
  -- The authenticator's answer for the request, with what it leaves.
  unfoldable pub bearer_of : ServerState Key → Result Principal × ServerState Key
  unfolding authenticate_header composite
  bearer_of s =
      let (from_file, tokens) =
        authenticate_header l.rt l.has_sources r.token_files (r.header_get "Authorization")
          s.tokens in
      let (principal, identities) =
        composite l.rt l.oidc l.ttl l.cooldown r.provider l.has_oidc from_file
          (r.header_get "Authorization") s.identities in
      (principal, record s { tokens = tokens; identities = identities })

  -- The acting principal.
  unfoldable pub acting : Result Principal → Result Principal
  unfolding resolve ◌>>=◌
  acting bearer = bearer >>= resolve l.hmac l.verifier r.header_get

  -- The reply to what `handle_rpc` returns; what it raises ends the request.
  abbrev pub sent : Result (Option Value) → Result Reply
  sent (ok none) = ok (record { status = 202; payload = none; close = false })
  sent (ok (some response)) = ok (record { status = 200; payload = some response; close = false })
  sent (err e) = err e

  -- `_mcp` from the body on.
  unfoldable pub answer_body : Principal → Result Value → App → Result Reply × App
  unfolding handle_rpc message_of
  answer_body p (err (value_error message)) app =
      (ok (record { status = 400; payload = some (told message); close = true }), app)
  answer_body p (err e) app = (err e, app)
  answer_body p (ok (obj fs)) app =
      let (response, after) = handle_rpc l.host (entries fs) p r.moment app in
      (sent response, after)
  answer_body p (ok _) app = (
    ok (record {
      status = 400;
      payload = some (told "request body must be a JSON object");
      close = false;
    }),
    app,
  )

  unfoldable pub answer_principal : Result Principal → App → Result Reply × App
  unfolding answer_body read_json
  answer_principal (err (auth_error reason)) app =
      (ok (record { status = 401; payload = some (told "unauthorized"); close = true }), app)
  answer_principal (err e) app = (err e, app)
  answer_principal (ok p) app = answer_body p (read_json r.length r.body) app

  -- `_mcp`, by whether it is served and whether the origin is allowed.
  unfoldable pub mcp_at : (served allowed : Bool) → ServerState Key → Result Reply × ServerState Key
  unfolding bearer_of acting answer_principal
  mcp_at false allowed s =
      (ok (record { status = 404; payload = some (told "not found"); close = true }), s)
  mcp_at true false s =
      (ok (record { status = 403; payload = some (told "forbidden origin"); close = true }), s)
  mcp_at true true s =
      let (bearer, s') = bearer_of s in
      let (reply, app) = answer_principal (acting bearer) s'.app in (reply, record s' { app = app })

  unfoldable pub mcp : ServerState Key → Result Reply × ServerState Key
  unfolding is_origin_allowed mcp_at
  mcp = mcp_at l.serves_mcp (is_origin_allowed (r.header_get "Origin") l.allowed_origins)
