-- ===== src/Tools/Calls/Memory.antt =====
-- The memory family's handler. Code: `call` of mcp_governance_gateway/tools/memory.py.
use mcp_governance_gateway.Base.{String, ◌<>◌, Bool, false, some, List, [], ◌∷◌, map, if◌then◌else◌}
use mcp_governance_gateway.Base.Int.{pos}
use mcp_governance_gateway.Base.Eq.{◌==◌, string_eq, contains}
use mcp_governance_gateway.Errors.{value_error, Result, ok, err}
use mcp_governance_gateway.Value.{Value, bool, int, float, str, arr, nil, Args, get_value}
use mcp_governance_gateway.SecretScan.{find_secret, reject_secret}
use mcp_governance_gateway.Tools.Args.{
  required_text, optional_text, limit, offset, tags, confidence,
}
use mcp_governance_gateway.Tools.Calls.Values.{text_or_null, get_or, text_items}
use mcp_governance_gateway.Tools.Host.{
  Method, Env, M, lift, send, enforce_read_quota, take_write_quota, ◌>>=◌, ◌>>◌,
}

abbrev pub action_statuses : List String
action_statuses = "active" ∷ "done" ∷ "blocked" ∷ []

unfoldable pub require_bool : Value → Result Bool
require_bool (bool b) = ok b
require_bool _ = err (value_error "includeDone must be a boolean")

unfoldable pub require_status : String → Result (Unit {0})
require_status status =
    if contains status action_statuses
    then ok tt
    else err (value_error "status must be one of: active, done, blocked")

module _ (env : Env) (arguments : Args) where
  unfoldable pub search : M Value
  unfolding lift send enforce_read_quota required_text limit get_value
  search = do
    query ← lift (required_text arguments "query" 1_000)
    top ← lift (limit (get_value arguments "limit") (pos 10))
    enforce_read_quota env
    send env Method.memory_search (str query ∷ int top ∷ [])

  unfoldable pub save : M Value
  unfolding lift send take_write_quota required_text tags get_or find_secret reject_secret
      text_items
  save = do
    text ← lift (required_text arguments "text" 10_000)
    labels ← lift (tags (get_or arguments "tags" (arr nil)))
    lift (reject_secret (find_secret env.rt (some text ∷ map some labels)))
    take_write_quota env text
    send env Method.memory_save (str text ∷ arr (text_items labels) ∷ [])

  unfoldable pub list : M Value
  unfolding lift send enforce_read_quota limit offset get_value
  list = do
    top ← lift (limit (get_value arguments "limit") (pos 20))
    start ← lift (offset (get_value arguments "offset"))
    enforce_read_quota env
    send env Method.memory_list (int top ∷ int start ∷ [])

  unfoldable pub lesson_save : M Value
  unfolding lift send take_write_quota required_text optional_text confidence get_value find_secret
      reject_secret
  lesson_save = do
    rule ← lift (required_text arguments "rule" 2_000)
    reason ← lift (optional_text arguments "reason" 4_000)
    share ← lift (confidence (get_value arguments "confidence"))
    lift (reject_secret (find_secret env.rt (some rule ∷ reason ∷ [])))
    take_write_quota env rule
    send env Method.memory_lesson_save (str rule ∷ text_or_null reason ∷ float share ∷ [])

  unfoldable pub lesson_list : M Value
  unfolding lift send enforce_read_quota limit get_value
  lesson_list = do
    top ← lift (limit (get_value arguments "limit") (pos 20))
    enforce_read_quota env
    send env Method.memory_lesson_list (int top ∷ [])

  unfoldable pub action_create : M Value
  unfolding lift send take_write_quota required_text optional_text find_secret reject_secret
  action_create = do
    title ← lift (required_text arguments "title" 500)
    description ← lift (optional_text arguments "description" 4_000)
    priority ← lift (optional_text arguments "priority" 20)
    lift (reject_secret (find_secret env.rt (some title ∷ description ∷ priority ∷ [])))
    take_write_quota env title
    send env Method.memory_action_create
        (str title ∷ text_or_null description ∷ text_or_null priority ∷ [])

  unfoldable pub action_list : M Value
  unfolding lift send enforce_read_quota limit get_value get_or require_bool
  action_list = do
    top ← lift (limit (get_value arguments "limit") (pos 20))
    include_done ← lift (require_bool (get_or arguments "includeDone" (bool false)))
    enforce_read_quota env
    send env Method.memory_action_list (int top ∷ bool include_done ∷ [])

  unfoldable pub action_update_status : M Value
  unfolding lift send take_write_quota required_text require_status
  action_update_status = do
    action_id ← lift (required_text arguments "action_id" 200)
    status ← lift (required_text arguments "status" 20)
    lift (require_status status)
    take_write_quota env action_id
    send env Method.memory_action_update_status (str action_id ∷ str status ∷ [])

  unfoldable pub call : String → M Value
  unfolding search save list lesson_save lesson_list action_create action_list action_update_status
      lift
  call name =
      if name == "memory.search"
      then search
      else if name == "memory.save"
      then save
      else if name == "memory.list"
      then list
      else if name == "memory.lesson_save"
      then lesson_save
      else if name == "memory.lesson_list"
      then lesson_list
      else if name == "memory.action_create"
      then action_create
      else if name == "memory.action_list"
      then action_list
      else if name == "memory.action_update_status"
      then action_update_status
      else lift (err (value_error ("unsupported tool: " <> name)))
