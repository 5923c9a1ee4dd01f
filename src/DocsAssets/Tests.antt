-- ===== src/DocsAssets/Tests.antt =====
-- A staged body at concrete calls: minted, uploaded and claimed.
use mcp_governance_gateway.Base.{◌≡◌, refl, false, some, [], ◌*◌}
use mcp_governance_gateway.Base.Dict.{get, put, remove}
use mcp_governance_gateway.Errors.{ok, is_ok}
use mcp_governance_gateway.Limits.{second}
use mcp_governance_gateway.DocsAssets.{
  Body, Owner, AssetStage, mint_upload_url, accept_upload, claim,
}
use mcp_governance_gateway.DocsAssets.Claims.{claim-exclusive}

abbrev ann : Owner
ann = record { actor = "ann"; project = "p"; token_id = "t1" }

abbrev body : Body
body = record { size = 7; text = some "# Title" }

abbrev minted : AssetStage
minted =
    (mint_upload_url "https://gateway" ann "content" 0 "a1" "u1"
      (record { uploads = []; staged = [] })).1

abbrev uploaded : AssetStage
uploaded = (accept_upload "u1" body ann second (2 * second) minted).1

claimed : (claim "doc_a1" ann (3 * second) uploaded).0 ≡ ok "# Title"
unfolding claim mint_upload_url accept_upload get put remove
claimed = refl

claim-exclusive_example :
    is_ok (claim "doc_a1" ann (4_000 * second) (claim "doc_a1" ann (3 * second) uploaded).1).0
    ≡ false
claim-exclusive_example =
    claim-exclusive "doc_a1" ann ann (3 * second) (4_000 * second) uploaded "# Title" claimed
