-- ===== src/Auth/Tests.antt =====
-- A bearer and a vouched user at concrete files and headers.
use mcp_governance_gateway.Base.{
  String, ◌≡◌, refl, ◌⊎◌, true, false, Option, none, some, List, [], ◌∷◌, if◌then◌else◌,
}
use mcp_governance_gateway.Base.Dict.{get, put, update}
use mcp_governance_gateway.Base.Eq.{◌==◌, string_eq}
use mcp_governance_gateway.Base.Text.{strip, take}
use mcp_governance_gateway.Errors.{ok}
use mcp_governance_gateway.Hotfile.{Signature, start}
use mcp_governance_gateway.Value.{str, arr, nil, cons, dict, entries, get_value}
use mcp_governance_gateway.Gateway.Tests.{plain, ann}
use mcp_governance_gateway.Auth.Files.{
  Claims, Source, entry_of, required_str, roles_of, issue_project_in, token_id, email_of,
  add_entries, claims_in, load_token_claims, merge_into, merge_sources, reload_claims,
}
use mcp_governance_gateway.Auth.{
  IdentityVerifier, build, token_access, bearer, authenticate_header, resolve, compare_digest,
}
use mcp_governance_gateway.Auth.Scan.{scan, authenticate_header-scan}
use mcp_governance_gateway.Auth.Vouched.{IsVouched, resolve-IsVouched}

abbrev sources : List Source
sources =
    record {
      path = "tokens.json";
      required = true;
      content = some (
          ok (
            dict (
              (
                "tokens",
                arr (
                    cons
                      (dict
                        (("token", str "t-ann") ∷ ("actor", str "ann") ∷ ("project", str "p") ∷ []))
                      nil),
              )
              ∷ [])));
    }
    ∷ []

abbrev claims : Claims
claims =
    (
      "t-ann",
      record {
        actor = "ann";
        project = "p";
        roles = [];
        token_id = "t-ann";
        issue_project = none;
        email = none;
      },
    )
    ∷ []

claims_read : reload_claims plain false sources ≡ ok claims
unfolding reload_claims merge_sources merge_into load_token_claims claims_in add_entries entry_of
    required_str strip roles_of issue_project_in token_id take email_of get get_value put update
    dict entries
claims_read = refl

abbrev seen : Signature
seen = some (1, (2, 3)) ∷ []

authenticate_header-scan_example :
    (authenticate_header plain true
      (token_access plain false sources seen seen 0)
      (some "bearer t-ann")
      (start true (build plain []))).0
    ≡ bearer plain (scan claims) (some "bearer t-ann")
unfolding start
authenticate_header-scan_example =
    authenticate_header-scan plain false sources claims seen seen 0 (start true (build plain []))
      (some "bearer t-ann") (λ a b same. same) claims_read refl refl

abbrev digest : String → String → String
digest secret text = "d"

abbrev verifier : IdentityVerifier
verifier = record { secret = "s"; prefix = "X-User" }

abbrev headers : String → Option String
headers name =
    if name == "X-User-Id"
    then some "bob"
    else if name == "X-User-Claims-Signature"
    then some "d"
    else none

bob_signed : resolve digest verifier headers ann ≡ ok (record ann { actor = "bob" })
unfolding resolve compare_digest
bob_signed = refl

resolve-IsVouched_example :
    (record ann { actor = "bob" } ≡ ann)
    ⊎ ((record ann { actor = "bob" } ≡ record ann { actor = "bob" })
        × IsVouched digest verifier headers ann "bob")
resolve-IsVouched_example =
    resolve-IsVouched digest verifier headers ann (record ann { actor = "bob" }) bob_signed
