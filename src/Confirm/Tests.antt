-- ===== src/Confirm/Tests.antt =====
-- The confirmation store at concrete calls, with a digest that is the text itself.
use mcp_governance_gateway.Base.{
  String, ◌≡◌, ◌≢◌, refl, true, false, none, some, List, [], ◌∷◌, arith, ◌<◌, ◌+◌, ◌*◌, ap,
}
use mcp_governance_gateway.Base.Text.{has_char, join}
use mcp_governance_gateway.Base.Eq.{string_eq}
use mcp_governance_gateway.Base.Dict.{get, put}
use mcp_governance_gateway.Errors.{ok}
use mcp_governance_gateway.Principal.{Principal}
use mcp_governance_gateway.Runtime.{Runtime}
use mcp_governance_gateway.Limits.{second}
use mcp_governance_gateway.Value.{Value, Args, str, obj, field, dict}
use mcp_governance_gateway.Confirm.{
  Entry, default_config, Store, empty, unknown, owner_key, identity_key, new_entry, issue, verify,
  drop,
}
use mcp_governance_gateway.Confirm.Index.{IsIndexed}
use mcp_governance_gateway.Confirm.Runs.{
  DrawsFresh, Call, issuing, verifying, step, run, run-IsSound,
}
use mcp_governance_gateway.Confirm.Bounds.{IsSound}
use mcp_governance_gateway.Confirm.Verdicts.{verify-single_use, verify-hides_foreign}
use mcp_governance_gateway.Confirm.Binding.{SameCaller, confirm-binds}
use mcp_governance_gateway.Confirm.Isolation.{Undisturbed, confirm-available}

-- The value of the first field stands for its JSON.
first_text : Value → String
first_text (obj (field key (str s) fs)) = s
first_text _ = ""

abbrev plain : Runtime
plain = record {
  sha256 = λ s. s;
  dumps = first_text;
  dumps_text = first_text;
  str_of = first_text;
  lower = λ s. s;
  repr = λ s. s;
  re_search = λ pattern text. false;
}

abbrev ann : Principal
ann = record {
  actor = "ann";
  project = "p";
  roles = [];
  token_id = "t1";
  issue_project = none;
  email = none;
}

abbrev bob : Principal
bob = record {
  actor = "bob";
  project = "p";
  roles = [];
  token_id = "t2";
  issue_project = none;
  email = none;
}

abbrev subject : Args
subject = ("subject", str "boot loop") ∷ []

abbrev prepared : Store
prepared = (issue plain default_config ann "issues.create" subject 0 "n1" empty).1

-- Bob prepares a write of his own and tries a wrong id.
abbrev others : List Call
others =
    issuing bob "ci.rerun" (("job", str "nightly") ∷ []) second "n2"
    ∷ verifying bob "ci.rerun" (("job", str "nightly") ∷ []) (str "n9") second
    ∷ []

issued : (issue plain default_config ann "issues.create" subject 0 "n1" empty).0 ≡ ok "n1"
unfolding issue
issued = refl

accepted :
    (verify plain default_config ann "issues.create" subject
      (str "n1")
      (2 * second)
      (run plain default_config prepared others)).0.0
    ≡ true
unfolding issue verify run first_text dict put join
accepted = refl

n2≢n1 : ◌≢◌ {A = String} "n2" "n1"
n2≢n1 = ground (arith, string_eq.beq_iff "n2" "n1")

confirm-binds_example :
    SameCaller ann ann
    × (◌≡◌ {A = String} "issues.create" "issues.create")
    × (plain.dumps (dict subject) ≡ plain.dumps (dict subject))
    × (2 * second < 0 + default_config.ttl_sec * second)
unfolding has_char
confirm-binds_example =
    confirm-binds plain default_config ann ann "issues.create" "issues.create" subject subject 0
      (2 * second) "n1" empty others (λ a b e. e)
      (record {
        actor = refl;
        project = refl;
        token_id = refl;
        issue_project = refl;
        tool_name = refl;
      })
      (record {
        actor = refl;
        project = refl;
        token_id = refl;
        issue_project = refl;
        tool_name = refl;
      })
      issued (n2≢n1, tt) accepted

once :
    (verify plain default_config ann "issues.create" subject (str "n1") second prepared).0.0 ≡ true
unfolding issue verify first_text dict put join
once = refl

verify-single_use_example :
    (verify plain default_config ann "issues.create" subject (str "n1") (2 * second) (
      run plain default_config
        (verify plain default_config ann "issues.create" subject (str "n1") second prepared).1
        others)).0
    ≡ unknown
verify-single_use_example =
    verify-single_use plain default_config ann ann "issues.create" "issues.create" subject subject
      second (2 * second) "n1" prepared others once (n2≢n1, tt)

abbrev ann_entry : Entry
ann_entry = new_entry plain default_config ann "issues.create" subject 0

held : get "n1" prepared.pending ≡ some ann_entry
unfolding issue get put new_entry
held = refl

foreign : ann_entry.identity_key ≢ identity_key plain bob "issues.create"
unfolding new_entry identity_key join
foreign =
    ground
      (arith, string_eq.beq_iff ann_entry.identity_key (identity_key plain bob "issues.create"))

verify-hides_foreign_example :
    ((verify plain default_config bob "issues.create" subject (str "n1") second prepared).0
      ≡ (verify plain default_config bob "issues.create" subject
          (str "n1")
          second
          (drop "n1" prepared)).0)
    × ((verify plain default_config bob "issues.create" subject (str "n1") second prepared).1
        ≡ prepared)
verify-hides_foreign_example =
    verify-hides_foreign plain default_config bob "issues.create" subject second "n1" prepared
      ann_entry held foreign

absent : get "n1" empty.pending ≡ none
unfolding get
absent = refl

-- Ann prepares two writes and uses one.
abbrev calls : List Call
calls =
    issuing ann "issues.create" subject 0 "n1"
    ∷ issuing ann "ci.rerun" (("job", str "nightly") ∷ []) second "n2"
    ∷ verifying ann "issues.create" subject (str "n1") (2 * second)
    ∷ []

calls-DrawsFresh : DrawsFresh plain default_config empty calls
unfolding issue step get put
calls-DrawsFresh = (refl, (refl, tt))

run-IsSound_example : IsSound default_config (run plain default_config empty calls)
run-IsSound_example = run-IsSound plain default_config calls (omega arith) calls-DrawsFresh

bob_owner : owner_key plain bob ≢ ann_entry.owner
unfolding new_entry owner_key join
bob_owner = ground (arith, string_eq.beq_iff (owner_key plain bob) ann_entry.owner)

text_is : Value → String
text_is (str s) = s
text_is _ = ""

n9≢n1 : str "n9" ≢ str "n1"
unfolding text_is
n9≢n1 e =
    let same : ◌≡◌ {A = String} "n9" "n1" = ap text_is e in
    ground (arith, string_eq.beq_iff "n9" "n1")

others-Undisturbed : Undisturbed plain default_config "n1" ann_entry prepared others
unfolding issue step get put
others-Undisturbed = (bob_owner, n2≢n1, refl, omega arith, omega arith, (n9≢n1, tt))

empty-IsIndexed : IsIndexed empty
unfolding run
empty-IsIndexed = (run-IsSound plain default_config [] (omega arith) tt).indexed

confirm-available_example :
    (verify plain default_config ann "issues.create" subject
      (str "n1")
      (2 * second)
      (run plain default_config prepared others)).0
    ≡ (true, none)
confirm-available_example =
    confirm-available plain default_config ann "issues.create" subject 0 (2 * second) "n1" empty
      others empty-IsIndexed refl absent issued others-Undisturbed (omega arith)
