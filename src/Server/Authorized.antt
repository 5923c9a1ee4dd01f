-- ===== src/Server/Authorized.antt =====
-- Who reaches the gateway through its MCP route. Code: `_mcp` of mcp_governance_gateway/server.py.
use mcp_governance_gateway.Base.{◌≡◌, refl, ◌⊎◌, inl, inr, Bool, true, false}
use mcp_governance_gateway.Errors.{
  Error, value_error, permission_error, auth_error, backend_error, key_store_error, key_error,
  type_error, attribute_error, overflow_error, Result, ok, err,
}
use mcp_governance_gateway.Principal.{Principal}
use mcp_governance_gateway.Value.{Value, null, str, obj, arr, bool, int, float, Fields, entries}
use mcp_governance_gateway.Gateway.{App}
use mcp_governance_gateway.Gateway.Rpc.{handle_rpc}
use mcp_governance_gateway.Server.{
  Incoming, Listener, ServerState, is_origin_allowed, read_json, bearer_of, acting, answer_body,
  answer_principal, mcp_at, mcp,
}

module _ {Key : Type 0} (l : Listener) (r : Incoming Key) where
  -- The change is what the gateway makes of an object that an admitted principal sent from an
  -- allowed origin.
  pub record IsAuthorized (s : ServerState Key) (after : App) : Type 0 where
    pub principal : Principal
    pub fs : Fields
    pub served : l.serves_mcp ≡ true
    pub origin : is_origin_allowed (r.header_get "Origin") l.allowed_origins ≡ true
    pub holder : acting l r (bearer_of l r s).0 ≡ ok principal
    pub body : read_json r.length r.body ≡ ok (obj fs)
    pub change : after ≡ (handle_rpc l.host (entries fs) principal r.moment s.app).1

  -- What one step may make of the gateway's state.
  abbrev Follows : App → Principal → Result Value → App → Type 0
  Follows app p body after =
      (after ≡ app)
      ⊎ ((fs : Fields) × (body ≡ ok (obj fs))
          × (after ≡ (handle_rpc l.host (entries fs) p r.moment app).1))

  answer_body-Follows :
      (p : Principal) (body : Result Value) (app : App)
      → Follows app p body (answer_body l r p body app).1
  unfolding answer_body
  answer_body-Follows p (err e) app = inl (raised-app e)
    where
      raised-app : (e : Error) → (answer_body l r p (err e) app).1 ≡ app
      raised-app (value_error m) = refl
      raised-app (permission_error m) = refl
      raised-app (auth_error m) = refl
      raised-app (backend_error m status) = refl
      raised-app (key_store_error m) = refl
      raised-app key_error = refl
      raised-app type_error = refl
      raised-app attribute_error = refl
      raised-app overflow_error = refl
  answer_body-Follows p (ok (obj fs)) app = inr (fs, refl, refl)
  answer_body-Follows p (ok null) app = inl refl
  answer_body-Follows p (ok (str s)) app = inl refl
  answer_body-Follows p (ok (arr vs)) app = inl refl
  answer_body-Follows p (ok (bool b)) app = inl refl
  answer_body-Follows p (ok (int n)) app = inl refl
  answer_body-Follows p (ok (float x)) app = inl refl

  refused-app : (e : Error) (app : App) → (answer_principal l r (err e) app).1 ≡ app
  unfolding answer_principal
  refused-app (value_error m) app = refl
  refused-app (permission_error m) app = refl
  refused-app (auth_error m) app = refl
  refused-app (backend_error m status) app = refl
  refused-app (key_store_error m) app = refl
  refused-app key_error app = refl
  refused-app type_error app = refl
  refused-app attribute_error app = refl
  refused-app overflow_error app = refl

-- A request to the MCP route leaves the gateway's quotas, confirmations, staged content, backend
-- calls and audit log as they are, or they change as `handle_rpc` changes them for a JSON object that
-- the body holds and for the principal that the authenticator and the identity headers give; and
-- then the route is served and the origin is allowed.
pub mcp-IsAuthorized :
    {Key : Type 0} (l : Listener) (r : Incoming Key) (s : ServerState Key)
    → ((mcp l r s).1.app ≡ s.app) ⊎ IsAuthorized l r s (mcp l r s).1.app
unfolding mcp mcp_at bearer_of answer_principal
mcp-IsAuthorized l r s =
    at l.serves_mcp (is_origin_allowed (r.header_get "Origin") l.allowed_origins) refl refl
  where
    go :
        l.serves_mcp ≡ true
        → is_origin_allowed (r.header_get "Origin") l.allowed_origins ≡ true
        → (who : Result Principal) → acting l r (bearer_of l r s).0 ≡ who
        → ((answer_principal l r who s.app).1 ≡ s.app)
          ⊎ IsAuthorized l r s (answer_principal l r who s.app).1
    go served origin (err e) holder = inl (refused-app l r e s.app)
    go served origin (ok p) holder =
        elim (answer_body-Follows l r p (read_json r.length r.body) s.app) [
          | inl same ↦ inl same
          | inr (fs, body, change) ↦ inr (record {
            principal = p;
            fs = fs;
            served = served;
            origin = origin;
            holder = holder;
            body = body;
            change = change;
          })
        ]

    at :
        (served allowed : Bool)
        → l.serves_mcp ≡ served
        → is_origin_allowed (r.header_get "Origin") l.allowed_origins ≡ allowed
        → ((mcp_at l r served allowed s).1.app ≡ s.app)
          ⊎ IsAuthorized l r s (mcp_at l r served allowed s).1.app
    at false allowed e f = inl refl
    at true false e f = inl refl
    at true true e f = go e f (acting l r (bearer_of l r s).0) refl
