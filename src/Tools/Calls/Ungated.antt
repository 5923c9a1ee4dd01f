-- ===== src/Tools/Calls/Ungated.antt =====
-- The memory handler calls no gated backend method.
-- Code: `call` of mcp_governance_gateway/tools/memory.py.
use mcp_governance_gateway.Base.{String, refl, false, some, [], ◌∷◌}
use mcp_governance_gateway.Base.Eq.{string_eq}
use mcp_governance_gateway.Value.{Args, get_value}
use mcp_governance_gateway.Base.{map, ◌<>◌}
use mcp_governance_gateway.Value.{bool, arr, nil}
use mcp_governance_gateway.Tools.Calls.Values.{get_or}
use mcp_governance_gateway.Tools.Calls.Memory.{require_bool, require_status}
use mcp_governance_gateway.Base.Int.{pos}
use mcp_governance_gateway.SecretScan.{find_secret, reject_secret}
use mcp_governance_gateway.Tools.Args.{
  tags, offset, confidence, required_text, optional_text, limit,
}
use mcp_governance_gateway.Tools.Host.{
  is_gated, World, Env, ◌>>=◌, enforce_read_quota, take_write_quota,
}
use mcp_governance_gateway.Tools.Calls.Memory as Memory
use mcp_governance_gateway.Errors.{err, value_error}
use mcp_governance_gateway.Tools.Calls.Gated.{
  Guards, enforce_read_quota-Keeps, take_write_quota-Keeps, bind-Guards, case-Guards, checked,
  plain, raised,
}

module _ (env : Env) (arguments : Args) (w0 : World) where
  search-Guards : (name : String) → Guards env arguments w0 name (Memory.search env arguments)
  unfolding Memory.search is_gated ◌>>=◌
  search-Guards name =
      checked env arguments w0 name (required_text arguments "query" 1_000) _ (λ query.
        checked env arguments w0 name (limit (get_value arguments "limit") (pos 10)) _ (λ top.
          bind-Guards env arguments w0 name (enforce_read_quota env) _
            (enforce_read_quota-Keeps env arguments w0)
            (λ _. plain env arguments w0 name _ _ refl)))

  save-Guards : (name : String) → Guards env arguments w0 name (Memory.save env arguments)
  unfolding Memory.save is_gated ◌>>=◌
  save-Guards name =
      checked env arguments w0 name (required_text arguments "text" 10_000) _ (λ text.
        checked env arguments w0 name (tags (get_or arguments "tags" (arr nil))) _ (λ labels.
          checked env arguments w0 name
            (reject_secret (find_secret env.rt (some text ∷ map some labels))) _
            (λ _.
              bind-Guards env arguments w0 name (take_write_quota env text) _
                (take_write_quota-Keeps env arguments w0 text)
                (λ _. plain env arguments w0 name _ _ refl))))

  list-Guards : (name : String) → Guards env arguments w0 name (Memory.list env arguments)
  unfolding Memory.list is_gated ◌>>=◌
  list-Guards name =
      checked env arguments w0 name (limit (get_value arguments "limit") (pos 20)) _ (λ top.
        checked env arguments w0 name (offset (get_value arguments "offset")) _ (λ start.
          bind-Guards env arguments w0 name (enforce_read_quota env) _
            (enforce_read_quota-Keeps env arguments w0)
            (λ _. plain env arguments w0 name _ _ refl)))

  lesson_save-Guards :
      (name : String) → Guards env arguments w0 name (Memory.lesson_save env arguments)
  unfolding Memory.lesson_save is_gated ◌>>=◌
  lesson_save-Guards name =
      checked env arguments w0 name (required_text arguments "rule" 2_000) _ (λ rule.
        checked env arguments w0 name (optional_text arguments "reason" 4_000) _ (λ reason.
          checked env arguments w0 name (confidence (get_value arguments "confidence")) _ (λ share.
            checked env arguments w0 name
              (reject_secret (find_secret env.rt (some rule ∷ reason ∷ []))) _
              (λ _.
                bind-Guards env arguments w0 name (take_write_quota env rule) _
                  (take_write_quota-Keeps env arguments w0 rule)
                  (λ _. plain env arguments w0 name _ _ refl)))))

  lesson_list-Guards :
      (name : String) → Guards env arguments w0 name (Memory.lesson_list env arguments)
  unfolding Memory.lesson_list is_gated ◌>>=◌
  lesson_list-Guards name =
      checked env arguments w0 name (limit (get_value arguments "limit") (pos 20)) _ (λ top.
        bind-Guards env arguments w0 name (enforce_read_quota env) _
          (enforce_read_quota-Keeps env arguments w0) (λ _. plain env arguments w0 name _ _ refl))

  action_create-Guards :
      (name : String) → Guards env arguments w0 name (Memory.action_create env arguments)
  unfolding Memory.action_create is_gated ◌>>=◌
  action_create-Guards name =
      checked env arguments w0 name (required_text arguments "title" 500) _ (λ title.
        checked env arguments w0 name (optional_text arguments "description" 4_000) _
          (λ description.
            checked env arguments w0 name (optional_text arguments "priority" 20) _ (λ priority.
              checked env arguments w0 name
                (reject_secret (find_secret env.rt (some title ∷ description ∷ priority ∷ []))) _
                (λ _.
                  bind-Guards env arguments w0 name (take_write_quota env title) _
                    (take_write_quota-Keeps env arguments w0 title)
                    (λ _. plain env arguments w0 name _ _ refl)))))

  action_list-Guards :
      (name : String) → Guards env arguments w0 name (Memory.action_list env arguments)
  unfolding Memory.action_list is_gated ◌>>=◌
  action_list-Guards name =
      checked env arguments w0 name (limit (get_value arguments "limit") (pos 20)) _ (λ top.
        checked env arguments w0 name (require_bool (get_or arguments "includeDone" (bool false))) _
          (λ include_done.
            bind-Guards env arguments w0 name (enforce_read_quota env) _
              (enforce_read_quota-Keeps env arguments w0)
              (λ _. plain env arguments w0 name _ _ refl)))

  action_update_status-Guards :
      (name : String) → Guards env arguments w0 name (Memory.action_update_status env arguments)
  unfolding Memory.action_update_status is_gated ◌>>=◌
  action_update_status-Guards name =
      checked env arguments w0 name (required_text arguments "action_id" 200) _ (λ action_id.
        checked env arguments w0 name (required_text arguments "status" 20) _ (λ status.
          checked env arguments w0 name (require_status status) _ (λ _.
            bind-Guards env arguments w0 name (take_write_quota env action_id) _
              (take_write_quota-Keeps env arguments w0 action_id)
              (λ _. plain env arguments w0 name _ _ refl))))

  pub memory-Guards :
      (name : String) → Guards env arguments w0 name (Memory.call env arguments name)
  unfolding Memory.call
  memory-Guards name =
      (case-Guards env arguments w0 name _ _ _ (search-Guards _) (
        case-Guards env arguments w0 name _ _ _ (save-Guards _) (
          case-Guards env arguments w0 name _ _ _ (list-Guards _) (
            case-Guards env arguments w0 name _ _ _ (lesson_save-Guards _) (
              case-Guards env arguments w0 name _ _ _ (lesson_list-Guards _) (
                case-Guards env arguments w0 name _ _ _ (action_create-Guards _) (
                  case-Guards env arguments w0 name _ _ _ (action_list-Guards _) (
                    case-Guards env arguments w0 name _ _ _ (action_update_status-Guards _) (
                      raised env arguments w0 name
                        (err (value_error ("unsupported tool: " <> name))))))))))))
