-- ===== src/Tools/Calls/Confirmed.antt =====
-- No handler calls a gated backend method without a confirmation.
-- Code: `call` of the modules of mcp_governance_gateway/tools.
use mcp_governance_gateway.Base.{String, refl, none, some, [], ◌∷◌}
use mcp_governance_gateway.Base.Dict.{put}
use mcp_governance_gateway.Base.Eq.{string_eq}
use mcp_governance_gateway.Value.{Args, get_value}
use mcp_governance_gateway.Base.{map}
use mcp_governance_gateway.Value.{str}
use mcp_governance_gateway.Base.Int.{pos}
use mcp_governance_gateway.SecretScan.{find_secret, reject_secret}
use mcp_governance_gateway.Tools.Args.{
  is_null, required_text, optional_text, limit, optional_int, required_issue_ref, planning_fields,
  planning_texts,
}
use mcp_governance_gateway.Tools.Host.{
  Method, is_gated, World, Env, ◌>>=◌, lift, send, enforce_read_quota,
}
use mcp_governance_gateway.Tools.Calls.Issues as Issues
use mcp_governance_gateway.Tools.Calls.Ci as Ci
use mcp_governance_gateway.Errors.{ok, err, backend_error}
use mcp_governance_gateway.Tools.Calls.Gated.{
  Keeps, Guards, lift-Keeps, enforce_read_quota-Keeps, send-Keeps, bind-Keeps, bind-Guards,
  if-Keeps, if-Guards, case-Guards, gate-Guards, checked, plain, raised,
}

module _ (env : Env) (arguments : Args) (w0 : World) where
  log-Guards : (name : String) → Guards env arguments w0 name (Ci.log env arguments)
  unfolding Ci.log is_gated ◌>>=◌
  log-Guards name = checked env arguments w0 name (required_text arguments "job" 200) _ (λ job.
      checked env arguments w0 name (optional_int arguments "lines" (pos 1) (pos 1_000)) _
        (λ lines. plain env arguments w0 name _ _ refl))

  builds-Guards : (name : String) → Guards env arguments w0 name (Ci.builds env arguments)
  unfolding Ci.builds is_gated ◌>>=◌
  builds-Guards name =
      checked env arguments w0 name (optional_text arguments "job" 200) _ (λ job_filter.
        checked env arguments w0 name (optional_int arguments "count" (pos 1) (pos 50)) _
          (λ count. plain env arguments w0 name _ _ refl))

  artifact-Guards : (name : String) → Guards env arguments w0 name (Ci.artifact env arguments)
  unfolding Ci.artifact is_gated ◌>>=◌
  artifact-Guards name = checked env arguments w0 name (required_text arguments "job" 200) _ (λ job.
      checked env arguments w0 name (optional_int arguments "build" (pos 1) Ci.build_max) _
        (λ build. plain env arguments w0 name _ _ refl))

  stop-Guards : Guards env arguments w0 "ci.stop" (Ci.stop env arguments)
  unfolding Ci.stop is_gated ◌>>=◌
  stop-Guards = checked env arguments w0 "ci.stop" (required_text arguments "job" 200) _ (λ job.
      checked env arguments w0 "ci.stop" (optional_int arguments "queueItem" (pos 1) Ci.build_max) _
        (λ queue_item.
          checked env arguments w0 "ci.stop" (optional_int arguments "build" (pos 1) Ci.build_max) _
            (λ build.
              checked env arguments w0 "ci.stop" (Ci.exactly_one env arguments queue_item build) _
                (λ one.
                  bind-Guards env arguments w0 "ci.stop"
                    (send env Method.ci_require_triggerable (str job ∷ [])) _
                    (send-Keeps env arguments w0 Method.ci_require_triggerable _ refl)
                    (λ _. gate-Guards env arguments w0 "ci.stop" _ _ _)))))

  rerun-Guards : Guards env arguments w0 "ci.rerun" (Ci.rerun env arguments)
  unfolding Ci.rerun is_gated ◌>>=◌
  rerun-Guards = checked env arguments w0 "ci.rerun" (required_text arguments "job" 200) _ (λ job.
      bind-Guards env arguments w0 "ci.rerun"
        (send env Method.ci_require_triggerable (str job ∷ [])) _
        (send-Keeps env arguments w0 Method.ci_require_triggerable _ refl)
        (λ _. gate-Guards env arguments w0 "ci.rerun" _ _ _))

  ci_dispatch-Guards :
      (name : String) → Guards env arguments w0 name (Ci.dispatch env arguments name)
  unfolding Ci.dispatch is_gated
  ci_dispatch-Guards name =
      case-Guards env arguments w0 name _ _ _ (plain env arguments w0 _ _ _ refl) (
        case-Guards env arguments w0 name _ _ _ (log-Guards _) (
          case-Guards env arguments w0 name _ _ _ (builds-Guards _) (
            case-Guards env arguments w0 name _ _ _ (artifact-Guards _) (
              case-Guards env arguments w0 name _ _ _ stop-Guards (
                case-Guards env arguments w0 name _ _ _ rerun-Guards
                  (raised env arguments w0 name _))))))

  pub ci-Guards : (name : String) → Guards env arguments w0 name (Ci.call env arguments name)
  unfolding Ci.call
  ci-Guards name =
      if-Guards env arguments w0 name env.has_ci _ _
        (bind-Guards env arguments w0 name (enforce_read_quota env) _
          (enforce_read_quota-Keeps env arguments w0) (λ _. ci_dispatch-Guards name))
        (raised env arguments w0 name
          (err (backend_error "CI is not enabled on this gateway" (some 404))))

  get_issue-Guards : (name : String) → Guards env arguments w0 name (Issues.get_issue env arguments)
  unfolding Issues.get_issue is_gated ◌>>=◌
  get_issue-Guards name =
      checked env arguments w0 name (required_issue_ref arguments "id") _
        (λ issue_id. plain env arguments w0 name _ _ refl)

  mine-Guards : (name : String) → Guards env arguments w0 name (Issues.mine env arguments)
  unfolding Issues.mine is_gated ◌>>=◌
  mine-Guards name =
      checked env arguments w0 name (limit (get_value arguments "limit") (pos 20)) _
        (λ top. plain env arguments w0 name _ _ refl)

  create-Guards : Guards env arguments w0 "issues.create" (Issues.create env arguments)
  unfolding Issues.create is_gated ◌>>=◌
  create-Guards =
      checked env arguments w0 "issues.create" (required_text arguments "subject" 255) _ (λ subject.
        checked env arguments w0 "issues.create" (optional_text arguments "description" 10_000) _
          (λ description.
            checked env arguments w0 "issues.create" (optional_text arguments "tracker" 60) _
              (λ tracker.
                checked env arguments w0 "issues.create" (optional_text arguments "assignee" 40) _
                  (λ assignee.
                    checked env arguments w0 "issues.create" (planning_fields arguments) _
                      (λ planning.
                        checked env arguments w0 "issues.create"
                          (reject_secret (
                            find_secret env.rt (
                              some subject
                              ∷ description
                              ∷ tracker
                              ∷ assignee
                              ∷ map some (planning_texts planning))))
                          _ (λ _. gate-Guards env arguments w0 "issues.create" _ _ _))))))

  add_note-Guards : Guards env arguments w0 "issues.add_note" (Issues.add_note env arguments)
  unfolding Issues.add_note is_gated ◌>>=◌
  add_note-Guards =
      checked env arguments w0 "issues.add_note" (required_issue_ref arguments "id") _ (λ issue_id.
        checked env arguments w0 "issues.add_note" (required_text arguments "note" 10_000) _
          (λ note.
            checked env arguments w0 "issues.add_note"
              (reject_secret (find_secret env.rt (some note ∷ []))) _
              (λ _. gate-Guards env arguments w0 "issues.add_note" _ _ _)))

  update_status-Guards :
      Guards env arguments w0 "issues.update_status" (Issues.update_status env arguments)
  unfolding Issues.update_status is_gated ◌>>=◌
  update_status-Guards =
      checked env arguments w0 "issues.update_status" (required_issue_ref arguments "id") _
        (λ issue_id.
          checked env arguments w0 "issues.update_status" (required_text arguments "status" 40) _
            (λ status.
              checked env arguments w0 "issues.update_status"
                (optional_int arguments "doneRatio" (pos 0) (pos 100)) _
                (λ done_ratio.
                  checked env arguments w0 "issues.update_status"
                    (optional_text arguments "assignee" 40) _
                    (λ assignee.
                      checked env arguments w0 "issues.update_status" (planning_fields arguments) _
                        (λ planning.
                          checked env arguments w0 "issues.update_status"
                            (reject_secret
                              (find_secret env.rt (assignee ∷ map some (planning_texts planning))))
                            _ (λ _. gate-Guards env arguments w0 "issues.update_status" _ _ _))))))

  with_filter-Keeps :
      (key : String) (filters : Args)
      → Keeps env arguments w0 (Issues.with_filter env arguments key filters)
  unfolding Issues.with_filter
  with_filter-Keeps key filters =
      if-Keeps env arguments w0 (is_null (get_value arguments key)) _ _
        (lift-Keeps env arguments w0 (ok filters))
        (bind-Keeps env arguments w0 (lift (required_text arguments key 40)) _
          (lift-Keeps env arguments w0 (required_text arguments key 40))
          (λ text. lift-Keeps env arguments w0 (ok (put key (str text) filters))))

  search-Guards : (name : String) → Guards env arguments w0 name (Issues.search env arguments)
  unfolding Issues.search is_gated
  search-Guards name = checked env arguments w0 _ _ _ (λ _.
      bind-Guards env arguments w0 name _ _ (with_filter-Keeps "status" _) (λ _.
        bind-Guards env arguments w0 name _ _ (with_filter-Keeps "assignee" _)
          (λ _. plain env arguments w0 _ _ _ refl)))

  issues_dispatch-Guards :
      (name : String) → Guards env arguments w0 name (Issues.dispatch env arguments name)
  unfolding Issues.dispatch is_gated
  issues_dispatch-Guards name =
      case-Guards env arguments w0 name _ _ _
        (checked env arguments w0 _ _ _ (λ _. plain env arguments w0 _ _ _ refl))
        (case-Guards env arguments w0 name _ _ _ (search-Guards _) (
          case-Guards env arguments w0 name _ _ _
            (checked env arguments w0 _ _ _ (λ _. plain env arguments w0 _ _ _ refl))
            (case-Guards env arguments w0 name _ _ _ (plain env arguments w0 _ _ _ refl) (
              case-Guards env arguments w0 name _ _ _ create-Guards (
                case-Guards env arguments w0 name _ _ _ add_note-Guards (
                  case-Guards env arguments w0 name _ _ _ update_status-Guards
                    (raised env arguments w0 name _)))))))

  pub issues-Guards :
      (name : String) → Guards env arguments w0 name (Issues.call env arguments name)
  unfolding Issues.call
  issues-Guards name =
      if-Guards env arguments w0 name env.has_issues _ _ (issues_dispatch-Guards name) (
        raised env arguments w0 name
          (err (backend_error "issue tracker adapter is not configured" none)))
