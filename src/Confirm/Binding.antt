-- ===== src/Confirm/Binding.antt =====
-- What equal identity and action digests say of the callers, the tools and the arguments.
use mcp_governance_gateway.Base.{ℕ, ◌+◌, ◌*◌, ◌<◌, String, ◌≡◌, true, List, ◌++◌, [], ◌∷◌}
use mcp_governance_gateway.Base.Text.{join}
use mcp_governance_gateway.Base.Text.Join.{IsFree, join-injective}
use mcp_governance_gateway.Errors.{ok}
use mcp_governance_gateway.Principal.{Principal, or_empty}
use mcp_governance_gateway.Runtime.{Runtime, IsCollisionFree}
use mcp_governance_gateway.Limits.{second}
use mcp_governance_gateway.Value.{Args, str, dict}
use mcp_governance_gateway.Confirm.{
  Config, Store, owner_parts, action_key, separator, issue, verify,
}
use mcp_governance_gateway.Confirm.Runs.{Call, run}
use mcp_governance_gateway.Confirm.Verdicts.{NotDrawn, verify-binds}

-- No part that the digests are taken of, but the last, holds the separator.
pub record IsSeparable (p : Principal) (tool : String) : Type 0 where
  pub actor : IsFree p.actor
  pub project : IsFree p.project
  pub token_id : IsFree p.token_id
  pub issue_project : IsFree (or_empty p.issue_project)
  pub tool_name : IsFree tool

-- The two are the same caller to the confirmation gate.
pub record SameCaller (p q : Principal) : Type 0 where
  pub actor : p.actor ≡ q.actor
  pub project : p.project ≡ q.project
  pub token_id : p.token_id ≡ q.token_id
  pub issue_project : or_empty p.issue_project ≡ or_empty q.issue_project

module _ (p q : Principal) where
  join_parts-injective :
      (tool tool' : String) (rest rest' : List String)
      → IsSeparable p tool
      → IsSeparable q tool'
      → join separator (owner_parts p ++ tool ∷ rest)
        ≡ join separator (owner_parts q ++ tool' ∷ rest')
      → SameCaller p q × (join separator (tool ∷ rest) ≡ join separator (tool' ∷ rest'))
  join_parts-injective tool tool' rest rest' hp hq e =
      let (actor, e1) = join-injective p.actor q.actor _ _ _ _ hp.actor hq.actor e in
      let (project, e2) = join-injective p.project q.project _ _ _ _ hp.project hq.project e1 in
      let (token_id, e3) =
        join-injective p.token_id q.token_id _ _ _ _ hp.token_id hq.token_id e2 in
      let (issue_project, e4) =
        join-injective (or_empty p.issue_project) (or_empty q.issue_project) _ _ _ _
          hp.issue_project hq.issue_project e3 in
      (
        record {
          actor = actor;
          project = project;
          token_id = token_id;
          issue_project = issue_project;
        },
        e4,
      )

-- If SHA-256 has no collisions and no identity part holds the separator, a confirmation id that is
-- accepted was issued, whatever calls came between, to the same actor, project, token and tracker
-- project, for the same tool and for arguments of the same canonical JSON, less than the TTL ago.
pub confirm-binds :
    (rt : Runtime) (config : Config) (p p' : Principal) (tool tool' : String) (args args' : Args)
    (now now' : ℕ) (nonce : String) (s : Store) (cs : List Call)
    → IsCollisionFree rt
    → IsSeparable p tool
    → IsSeparable p' tool'
    → (issue rt config p tool args now nonce s).0 ≡ ok nonce
    → NotDrawn nonce cs
    → (verify rt config p' tool' args'
        (str nonce)
        now'
        (run rt config (issue rt config p tool args now nonce s).1 cs)).0.0
      ≡ true
    → SameCaller p p'
      × (tool ≡ tool')
      × (rt.dumps (dict args) ≡ rt.dumps (dict args'))
      × (now' < now + config.ttl_sec * second)
unfolding action_key join
confirm-binds rt config p p' tool tool' args args' now now' nonce s cs free hp hq issued d h =
    let (_, action, live) =
      verify-binds rt config p p' tool tool' args args' now now' nonce s cs issued d h in
    let (same, rest) =
      join_parts-injective p p' tool tool' (rt.dumps (dict args) ∷ []) (rt.dumps (dict args') ∷ [])
        hp hq (free _ _ action) in
    let (same_tool, same_args) =
      join-injective tool tool' _ _ [] [] hp.tool_name hq.tool_name rest in
    (same, same_tool, same_args, live)
