-- ===== src/Tools/Calls/Issues.antt =====
-- The issue family's handler. Code: `call` of mcp_governance_gateway/tools/issues.py.
use mcp_governance_gateway.Base.{String, ◌<>◌, Option, none, some, [], ◌∷◌, map, if◌then◌else◌}
use mcp_governance_gateway.Base.Int.{ℤ, pos}
use mcp_governance_gateway.Base.Dict.{Dict, put}
use mcp_governance_gateway.Base.Eq.{◌==◌, string_eq}
use mcp_governance_gateway.Errors.{value_error, backend_error, ok, err}
use mcp_governance_gateway.Value.{Value, int, str, Args, get_value, dict}
use mcp_governance_gateway.SecretScan.{find_secret, reject_secret}
use mcp_governance_gateway.Tools.Args.{
  is_null, required_text, optional_text, limit, optional_int, required_issue_ref, planning_fields,
  planning_texts,
}
use mcp_governance_gateway.Tools.Calls.Values.{text_or_null, int_or_null, put_text, put_int, update}
use mcp_governance_gateway.Tools.Host.{
  Method, Env, M, lift, send, confirmation_gate, confirmed_then, ◌>>=◌, ◌>>◌,
}

module _ (env : Env) (arguments : Args) where
  unfoldable pub get_issue : M Value
  unfolding lift send required_issue_ref
  get_issue = do
    issue_id ← lift (required_issue_ref arguments "id")
    send env Method.issues_get (str issue_id ∷ [])

  -- `if arguments.get(key) is not None: filters[key] = ...`
  unfoldable pub with_filter : String → Args → M Args
  unfolding lift required_text get_value put
  with_filter key filters =
      if is_null (get_value arguments key)
      then lift (ok filters)
      else do text ← lift (required_text arguments key 40); lift (ok (put key (str text) filters))

  unfoldable pub search : M Value
  unfolding lift send limit get_value with_filter
  search = do
    top ← lift (limit (get_value arguments "limit") (pos 20))
    by_status ← with_filter "status" []
    filters ← with_filter "assignee" by_status
    send env Method.issues_search (dict filters ∷ int top ∷ [])

  unfoldable pub mine : M Value
  unfolding lift send limit get_value
  mine = do
    top ← lift (limit (get_value arguments "limit") (pos 20))
    send env Method.issues_mine (int top ∷ [])

  -- What `create` confirms: the fields that are there.
  unfoldable pub create_semantic :
      String → Option String → Option String → Option String → Dict String String → Args
  unfolding put_text update
  create_semantic subject description tracker assignee planning =
      let fields = put_text "description" description (("subject", str subject) ∷ []) in
      update (put_text "assignee" assignee (put_text "tracker" tracker fields)) planning

  -- What `create` sends: the description stands there also when it is `None`.
  unfoldable pub create_fields :
      String → Option String → Option String → Option String → Dict String String → Args
  unfolding put_text update
  create_fields subject description tracker assignee planning =
      let fields : Args =
        ("subject", str subject) ∷ ("description", text_or_null description) ∷ [] in
      update (put_text "assignee" assignee (put_text "tracker" tracker fields)) planning

  unfoldable pub create : M Value
  unfolding lift send required_text optional_text planning_fields planning_texts find_secret
      reject_secret create_semantic create_fields confirmation_gate confirmed_then
  create = do
    subject ← lift (required_text arguments "subject" 255)
    description ← lift (optional_text arguments "description" 10_000)
    tracker ← lift (optional_text arguments "tracker" 60)
    assignee ← lift (optional_text arguments "assignee" 40)
    planning ← lift (planning_fields arguments)
    lift (
        reject_secret (
          find_secret env.rt
            (some subject ∷ description ∷ tracker ∷ assignee ∷ map some (planning_texts planning))))
    confirmed_then
        (confirmation_gate env "issues.create"
          (create_semantic subject description tracker assignee planning) arguments
          ("Create issue: " <> env.rt.repr subject))
        (send env Method.issues_create
          (dict (create_fields subject description tracker assignee planning) ∷ []))

  unfoldable pub add_note : M Value
  unfolding lift send required_text required_issue_ref find_secret reject_secret confirmation_gate
      confirmed_then
  add_note = do
    issue_id ← lift (required_issue_ref arguments "id")
    note ← lift (required_text arguments "note" 10_000)
    lift (reject_secret (find_secret env.rt (some note ∷ [])))
    confirmed_then
        (confirmation_gate env "issues.add_note" (("id", str issue_id) ∷ ("note", str note) ∷ [])
          arguments ("Add note to issue #" <> issue_id))
        (send env Method.issues_add_note (str issue_id ∷ str note ∷ []))

  unfoldable pub update_semantic :
      String → String → Option ℤ → Option String → Dict String String → Args
  unfolding put_text put_int update
  update_semantic issue_id status done_ratio assignee planning =
      let fields =
        put_int "doneRatio" done_ratio (("id", str issue_id) ∷ ("status", str status) ∷ []) in
      update (put_text "assignee" assignee fields) planning

  unfoldable pub update_status : M Value
  unfolding lift send required_text required_issue_ref optional_int optional_text planning_fields
      planning_texts find_secret reject_secret update_semantic update confirmation_gate
      confirmed_then
  update_status = do
    issue_id ← lift (required_issue_ref arguments "id")
    status ← lift (required_text arguments "status" 40)
    done_ratio ← lift (optional_int arguments "doneRatio" (pos 0) (pos 100))
    assignee ← lift (optional_text arguments "assignee" 40)
    planning ← lift (planning_fields arguments)
    lift (reject_secret (find_secret env.rt (assignee ∷ map some (planning_texts planning))))
    confirmed_then
        (confirmation_gate env "issues.update_status"
          (update_semantic issue_id status done_ratio assignee planning) arguments
          ("Set issue #" <> issue_id <> " status to " <> status))
        (send env Method.issues_update_status (
          str issue_id
          ∷ str status
          ∷ int_or_null done_ratio
          ∷ text_or_null assignee
          ∷ dict (update [] planning)
          ∷ []))

  -- `call` with a backend.
  unfoldable pub dispatch : String → M Value
  unfolding get_issue search mine create add_note update_status lift send
  dispatch name =
      if name == "issues.get"
      then get_issue
      else if name == "issues.search"
      then search
      else if name == "issues.mine"
      then mine
      else if name == "issues.categories"
      then send env Method.issues_categories []
      else if name == "issues.create"
      then create
      else if name == "issues.add_note"
      then add_note
      else if name == "issues.update_status"
      then update_status
      else lift (err (value_error ("unsupported tool: " <> name)))

  unfoldable pub call : String → M Value
  unfolding dispatch lift
  call name =
      if env.has_issues
      then dispatch name
      else lift (err (backend_error "issue tracker adapter is not configured" none))
