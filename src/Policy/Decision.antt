-- ===== src/Policy/Decision.antt =====
-- What `Policy.decide` allows, over any map of specs.
use mcp_governance_gateway.Base.{
  String, ◌≡◌, ◌↔◌, inl, inr, true, false, some, Bool-cases, Option-cases, ◌≢◌, refl, sym, ◌∙◌,
  subst, not, ◌&&◌, none, Option, List, [], ◌∷◌, All, arith,
}
use mcp_governance_gateway.Base.Text.{is_empty, last_part, has_char}
use mcp_governance_gateway.Base.Eq.{string_eq, contains, contains_iff, Among}
use mcp_governance_gateway.Base.Dict.{Dict, get}
use mcp_governance_gateway.Errors.{Result, ok, err}
use mcp_governance_gateway.Principal.{Principal, or_empty}
use mcp_governance_gateway.Tools.Spec.{ToolSpec, Family, family_eq}
use mcp_governance_gateway.Base.Text.Parts.{is_empty-eq, EndsIn, EndsIn-last_part, last_part-EndsIn}
use mcp_governance_gateway.Policy.{
  PolicyDecision, allowed, allow, allow_reason, is_destructive, decide, decide_spec, misses_role,
  misses_tracker, destructive_suffixes,
}

-- `decide` returns an allowing decision.
abbrev pub Allows : Result PolicyDecision → Type 0
Allows (ok d) = allowed d ≡ true
Allows (err e) = ⊥

-- The issue tools are for a token with a tracker project.
abbrev pub HasTracker : Family → Option String → Type 0
HasTracker Family.issues tracker = (t : String) × (tracker ≡ some t) × (t ≢ "")
HasTracker _ tracker = Unit

-- The role that a tool names, if any, is one of the token's.
abbrev pub HasRole : Option String → List String → Type 0
HasRole none roles = Unit
HasRole (some role) roles = Among role roles

-- The last dotted part of the name is no destructive word.
abbrev pub IsPlain : String → Type 0
IsPlain tool_name = All (λ suffix. EndsIn tool_name suffix → ⊥) destructive_suffixes

-- What has to hold of a caller and a tool.
pub record Grants (specs : Dict String ToolSpec) (tool_name : String) (p : Principal) : Type 0 where
  pub spec : ToolSpec
  pub reason : String
  pub project : p.project ≢ ""
  pub plain : IsPlain tool_name
  pub known : get tool_name specs ≡ some spec
  pub tracker : HasTracker spec.family p.issue_project
  pub role : HasRole spec.role p.roles
  pub reasoned : allow_reason spec.family spec.access ≡ some reason

is_empty-filled : (s : String) → is_empty s ≡ false → s ≢ ""
is_empty-filled s h = λ e. let no_text : true ≡ false = rw (e) at h in cc

filled-is_empty : (s : String) → s ≢ "" → is_empty s ≡ false
filled-is_empty s h = elim (Bool-cases (is_empty s)) [
  | inl e ↦ absurd (h (is_empty-eq s e))
  | inr e ↦ e
]

pub misses_tracker-HasTracker :
    (spec : ToolSpec) (p : Principal)
    → (misses_tracker spec p ≡ false) ↔ HasTracker spec.family p.issue_project
unfolding misses_tracker
misses_tracker-HasTracker spec p = go spec.family p.issue_project
  where
    go :
        (family : Family) (tracker : Option String)
        → (family_eq family Family.issues && is_empty (or_empty tracker) ≡ false)
          ↔ HasTracker family tracker
    go Family.issues none = (
      λ h. absurd (let no_tracker : true ≡ false = h in cc),
      λ has. absurd (let (t, e, filled) = has in let no_tracker : none ≡ some t = e in cc),
    )
    go Family.issues (some t) = (
      λ h. (t, refl, is_empty-filled t h),
      λ has.
          let (u, e, filled) = has in
          let same : t ≡ u = cc in
          subst (λ x. is_empty x ≡ false) (sym same) (filled-is_empty u filled),
    )
    go Family.memory tracker = (λ h. tt, λ h. refl)
    go Family.docs tracker = (λ h. tt, λ h. refl)
    go Family.ci tracker = (λ h. tt, λ h. refl)

pub misses_role-HasRole :
    (spec : ToolSpec) (p : Principal) → (misses_role spec p ≡ false) ↔ HasRole spec.role p.roles
unfolding misses_role
misses_role-HasRole spec p = go spec.role
  where
    go :
        (role : Option String)
        → (elim role [ none ↦ false | some r ↦ not (contains r p.roles) ] ≡ false)
          ↔ HasRole role p.roles
    go none = (λ h. tt, λ h. refl)
    go (some role) = ground (arith, contains_iff role p.roles)

-- The words that a name ends in, against the words that its last part is among.
module _ (tool_name : String) where
  abbrev last : String
  last = last_part b'.' tool_name

  plain-words :
      (words : List String)
      → All (λ word. has_char b'.' word ≡ false) words
      → (Among last words → ⊥)
      → All (λ word. EndsIn tool_name word → ⊥) words
  plain-words [] free h = tt
  plain-words (word ∷ words) (first, free) h = (
    λ ends. h (inl (sym (EndsIn-last_part tool_name word first ends))),
    plain-words words free (λ found. h (inr found)),
  )

  words-plain :
      (words : List String) → All (λ word. EndsIn tool_name word → ⊥) words → Among last words → ⊥
  words-plain [] h found = found
  words-plain (word ∷ words) (first, h) (inl e) =
      first (subst (EndsIn tool_name) (sym e) (last_part-EndsIn tool_name))
  words-plain (word ∷ words) (first, h) (inr found) = words-plain words h found

  pub is_destructive-IsPlain : (is_destructive tool_name ≡ false) ↔ IsPlain tool_name
  unfolding is_destructive has_char
  is_destructive-IsPlain = (
    λ h. plain-words destructive_suffixes (refl, (refl, (refl, (refl, tt)))) (absent h),
    λ h. elim (Bool-cases (contains last destructive_suffixes)) [
      | inl found ↦
          absurd
            (words-plain destructive_suffixes h ((contains_iff last destructive_suffixes).0 found))
      | inr e ↦ e
    ],
  )
    where
      absent : is_destructive tool_name ≡ false → Among last destructive_suffixes → ⊥
      absent h found =
          let there : contains last destructive_suffixes ≡ true =
            (contains_iff last destructive_suffixes).1 found in
          let no_way : true ≡ false = sym there ∙ h in cc

-- What the tests of `decide` come to where it allows.
pub record Passes (specs : Dict String ToolSpec) (tool_name : String) (p : Principal) : Type 0 where
  pub spec : ToolSpec
  pub reason : String
  pub project : is_empty p.project ≡ false
  pub plain : is_destructive tool_name ≡ false
  pub known : get tool_name specs ≡ some spec
  pub tracker : misses_tracker spec p ≡ false
  pub role : misses_role spec p ≡ false
  pub reasoned : allow_reason spec.family spec.access ≡ some reason

module _ (specs : Dict String ToolSpec) (tool_name : String) (p : Principal) where
  decide-Passes : Allows (decide specs tool_name p) → Passes specs tool_name p
  unfolding decide decide_spec allowed
  decide-Passes h = elim (Bool-cases (is_empty p.project)) [
    | inl e ↦ let no_project : false ≡ true = rw e at h in cc
    | inr e ↦ elim (Bool-cases (is_destructive tool_name)) [
      | inl d ↦ let destructive : false ≡ true = rw (e, d) at h in cc
      | inr d ↦ elim (Option-cases (get tool_name specs)) [
        | inl k ↦ let unknown : false ≡ true = rw (e, d, k) at h in cc
        | inr (spec, k) ↦ elim (Bool-cases (misses_tracker spec p)) [
          | inl t ↦ let no_tracker : false ≡ true = rw (e, d, k, t) at h in cc
          | inr t ↦ elim (Bool-cases (misses_role spec p)) [
            | inl r ↦ let no_role : false ≡ true = rw (e, d, k, t, r) at h in cc
            | inr r ↦ elim (Option-cases (allow_reason spec.family spec.access)) [
              | inl a ↦ absurd (rw (e, d, k, t, r, allow, a) at h)
              | inr (reason, a) ↦ record {
                spec = spec;
                reason = reason;
                project = e;
                plain = d;
                known = k;
                tracker = t;
                role = r;
                reasoned = a;
              }
            ]
          ]
        ]
      ]
    ]
  ]

  pub Passes-decide : Passes specs tool_name p → Allows (decide specs tool_name p)
  unfolding decide decide_spec allowed
  Passes-decide t = rw (t.project, t.plain, t.known, t.tracker, t.role, allow, t.reasoned) refl

-- A call is allowed exactly when the token has a project, the tool's name is not and does not end in
-- one of the destructive words, the tool is registered, the token has a tracker project if it is an
-- issue tool and the role that the tool names among its roles, if it names one; and the policy has a
-- reason for the tool's family and access.
pub decide-Allows_iff :
    (specs : Dict String ToolSpec) (tool_name : String) (p : Principal)
    → Allows (decide specs tool_name p) ↔ Grants specs tool_name p
decide-Allows_iff specs tool_name p = (
  λ h.
      let t = decide-Passes specs tool_name p h in
      record {
        spec = t.spec;
        reason = t.reason;
        project = is_empty-filled p.project t.project;
        plain = (is_destructive-IsPlain tool_name).0 t.plain;
        known = t.known;
        tracker = (misses_tracker-HasTracker t.spec p).0 t.tracker;
        role = (misses_role-HasRole t.spec p).0 t.role;
        reasoned = t.reasoned;
      },
  λ g. Passes-decide specs tool_name p (record {
    spec = g.spec;
    reason = g.reason;
    project = filled-is_empty p.project g.project;
    plain = (is_destructive-IsPlain tool_name).1 g.plain;
    known = g.known;
    tracker = (misses_tracker-HasTracker g.spec p).1 g.tracker;
    role = (misses_role-HasRole g.spec p).1 g.role;
    reasoned = g.reasoned;
  }),
)
