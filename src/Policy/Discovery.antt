-- ===== src/Policy/Discovery.antt =====
-- Discovery against policy, over the registry.
use mcp_governance_gateway.Base.{
  String, ◌≡◌, refl, inl, inr, true, false, List, [], ◌∷◌, arith, Bool-cases, All, All-zip,
  Option-cases, is_some,
}
use mcp_governance_gateway.Base.Text.{is_empty}
use mcp_governance_gateway.Base.Dict.{get}
use mcp_governance_gateway.Base.Eq.{string_eq}
use mcp_governance_gateway.Errors.{is_ok}
use mcp_governance_gateway.Principal.{Principal}
use mcp_governance_gateway.Tools.Spec.{ToolSpec, Feature}
use mcp_governance_gateway.Tools.Registry.{
  registry, specs_by_name, is_visible, lacks_role, lacks_tracker, visible_from, visible_tools,
}
use mcp_governance_gateway.Tools.Registry.Sound.{get-All, IsFound, registry-IsFound}
use mcp_governance_gateway.Policy.{
  allow_reason, is_destructive, decide, decide_spec, allow, misses_role, misses_tracker,
}
use mcp_governance_gateway.Policy.Decision.{Allows, Passes-decide}

-- The tool is not destructive by name, and the reason of its family and access is on record.
abbrev pub IsAllowable : ToolSpec → Type 0
IsAllowable spec =
    (is_destructive spec.name ≡ false) × (is_some (allow_reason spec.family spec.access) ≡ true)

pub registry-IsAllowable : All IsAllowable registry
unfolding registry is_destructive allow_reason
registry-IsAllowable = assumption refl

module _ (p : Principal) (enabled : List Feature) where
  is_visible-passes :
      (spec : ToolSpec)
      → is_visible p enabled spec ≡ true
      → (misses_tracker spec p ≡ false) × (misses_role spec p ≡ false)
  unfolding is_visible lacks_tracker lacks_role misses_tracker misses_role
  is_visible-passes spec h = ground arith

  -- What holds of every spec, and of a visible one by its tests, holds of all that are shown.
  visible_from-All :
      {P Q : ToolSpec → Type 0} (specs : List ToolSpec)
      → ((spec : ToolSpec) → is_visible p enabled spec ≡ true → P spec → Q spec)
      → All P specs
      → All Q (visible_from p enabled specs)
  unfolding visible_from
  visible_from-All [] keep h = tt
  visible_from-All (spec ∷ specs) keep h = elim (Bool-cases (is_visible p enabled spec)) [
    | inl e ↦ rw e (keep spec e h.0, visible_from-All specs keep h.1)
    | inr e ↦ rw e (visible_from-All specs keep h.1)
  ]

-- A tool that `tools/list` shows to a token with a project, whatever features are on, is one that
-- policy allows the same token to call.
pub visible_tools-Allows :
    (p : Principal) (enabled : List Feature)
    → is_empty p.project ≡ false
    → All (λ spec. Allows (decide specs_by_name spec.name p)) (visible_tools p enabled)
unfolding visible_tools
visible_tools-Allows p enabled project =
    visible_from-All p enabled registry grant
      (All-zip IsFound IsAllowable registry registry-IsFound registry-IsAllowable)
  where
    grant :
        (spec : ToolSpec)
        → is_visible p enabled spec ≡ true
        → IsFound spec × IsAllowable spec
        → Allows (decide specs_by_name spec.name p)
    grant spec shown (found, (plain, reasoned)) =
        let (tracker, role) = is_visible-passes p enabled spec shown in
        elim (Option-cases (allow_reason spec.family spec.access)) [
          | inl e ↦ let missing : false ≡ true = rw e at reasoned in cc
          | inr (reason, e) ↦ Passes-decide specs_by_name spec.name p (record {
            spec = spec;
            reason = reason;
            project = project;
            plain = plain;
            known = found;
            tracker = tracker;
            role = role;
            reasoned = e;
          })
        ]

specs-IsAllowable : All (λ (entry : String × ToolSpec). IsAllowable entry.1) specs_by_name
unfolding specs_by_name is_destructive allow_reason
specs-IsAllowable = assumption refl

decide_spec-returns :
    (spec : ToolSpec) (p : Principal)
    → is_some (allow_reason spec.family spec.access) ≡ true
    → is_ok (decide_spec spec p) ≡ true
unfolding decide_spec allow
decide_spec-returns spec p h = elim (Option-cases (allow_reason spec.family spec.access)) [
  | inl e ↦ let missing : false ≡ true = rw e at h in absurd (cc)
  | inr (reason, e) ↦ elim (Bool-cases (misses_tracker spec p)) [
    | inl t ↦ rw t
    | inr t ↦ elim (Bool-cases (misses_role spec p)) [
      | inl r ↦ rw (t, r)
      | inr r ↦ rw (t, r, allow, e)
    ]
  ]
]

-- With the gateway's own registry `decide` always returns a decision: the reason that it looks up
-- for an allowed call is there, so no call ends in a KeyError.
pub decide-returns :
    (tool_name : String) (p : Principal) → is_ok (decide specs_by_name tool_name p) ≡ true
unfolding decide
decide-returns tool_name p = elim (Bool-cases (is_empty p.project)) [
  | inl e ↦ rw e
  | inr e ↦ elim (Bool-cases (is_destructive tool_name)) [
    | inl d ↦ rw (e, d)
    | inr d ↦ elim (Option-cases (get tool_name specs_by_name)) [
      | inl k ↦ rw (e, d, k)
      | inr (spec, k) ↦
          rw (e, d, k)
            (decide_spec-returns spec p
              (get-All IsAllowable tool_name specs_by_name specs-IsAllowable k).1)
    ]
  ]
]
