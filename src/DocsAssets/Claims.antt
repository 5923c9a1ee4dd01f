-- ===== src/DocsAssets/Claims.antt =====
-- A claimed body is the claimant's alone. Code: `claim`, `_owned_locked` and `_gc_locked` of
-- mcp_governance_gateway/docs_assets.py.
use mcp_governance_gateway.Base.{
  ℕ, String, ◌≡◌, refl, ap, ◌∙◌, inl, inr, true, false, some, [], ◌∷◌, arith, Bool-cases,
  Option-cases,
}
use mcp_governance_gateway.Base.Dict.{Dict, get, get-put}
use mcp_governance_gateway.Base.Eq.{string_eq, ==_refl}
use mcp_governance_gateway.Errors.{ok, err, is_ok}
use mcp_governance_gateway.DocsAssets.{
  Stage, Owner, AssetStage, live_stages, gc, owned_stage, is_owner, text_of, claim_meta, claim,
}

-- A stage that is in use is kept.
live_stages-busy :
    (now : ℕ) (id : String) (meta : Stage) (d : Dict String Stage)
    → get id d ≡ some meta
    → meta.busy ≡ true
    → get id (live_stages now d) ≡ some meta
unfolding live_stages get
live_stages-busy now id meta [] h b = h
live_stages-busy now id meta ((k, m) ∷ d) h b =
    ground (arith, live_stages-busy now id meta d, string_eq.beq_iff k id, h, b)

module _ (id : String) (o : Owner) (now : ℕ) (s : AssetStage) where
  -- Who claims a stage in use is refused, whoever it is.
  busy-refused :
      (meta : Stage)
      → get id s.staged ≡ some meta
      → meta.busy ≡ true
      → is_ok (claim id o now s).0 ≡ false
  unfolding claim owned_stage gc claim_meta
  busy-refused meta h b =
      let kept = live_stages-busy now id meta s.staged h b in
      elim (Bool-cases (is_owner o meta)) [
        | inl e ↦ rw (claim, owned_stage, kept, e, b)
        | inr e ↦ rw (claim, owned_stage, kept, e)
      ]

  -- What a claim that succeeds leaves: the owner's stage, in use.
  record Claimed (text : String) : Type 0 where
    meta : Stage
    found : get id (claim id o now s).1.staged ≡ some meta
    busy : meta.busy ≡ true
    mine : is_owner o meta ≡ true
    content : text_of meta ≡ some text

  claim_meta-Claimed :
      (meta : Stage) (text : String)
      → is_owner o meta ≡ true
      → claim id o now s ≡ claim_meta id meta (gc now s)
      → (claim id o now s).0 ≡ ok text
      → Claimed text
  unfolding claim_meta text_of
  claim_meta-Claimed meta text mine same h = elim (Bool-cases meta.busy) [
    | inl b ↦ absurd (let no : err _ ≡ ok text = rw (same, b) at h in cc)
    | inr b ↦ elim (Option-cases (text_of meta)) [
      | inl e ↦ absurd (let no : err _ ≡ ok text = rw (same, claim_meta, b, e) at h in cc)
      | inr (content, e) ↦
          let got : ok content ≡ ok text = rw (same, claim_meta, b, e) at h in
          record {
            meta = record meta { busy = true };
            found = rw (same, claim_meta, b, e, get-put, ==_refl id);
            busy = refl;
            mine = mine;
            content = e ∙ (let eq : content ≡ text = cc in ap some eq);
          }
    ]
  ]

  claim-Claimed : (text : String) → (claim id o now s).0 ≡ ok text → Claimed text
  unfolding claim owned_stage
  claim-Claimed text h = elim (Option-cases (get id (gc now s).staged)) [
    | inl e ↦ absurd (let no : err _ ≡ ok text = rw (claim, owned_stage, e) at h in cc)
    | inr (meta, e) ↦ elim (Bool-cases (is_owner o meta)) [
      | inl mine ↦ claim_meta-Claimed meta text mine (rw (claim, owned_stage, e, mine)) h
      | inr other ↦ absurd (let no : err _ ≡ ok text = rw (claim, owned_stage, e, other) at h in cc)
    ]
  ]

-- In the state that a successful claim leaves, any claim of the same staged body is refused,
-- whoever makes it and however late.
pub claim-exclusive :
    (id : String) (o o' : Owner) (now now' : ℕ) (s : AssetStage) (text : String)
    → (claim id o now s).0 ≡ ok text
    → is_ok (claim id o' now' (claim id o now s).1).0 ≡ false
claim-exclusive id o o' now now' s text h =
    let claimed = claim-Claimed id o now s text h in
    busy-refused id o' now' (claim id o now s).1 claimed.meta claimed.found claimed.busy
