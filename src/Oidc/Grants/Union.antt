-- ===== src/Oidc/Grants/Union.antt =====
-- A union of groups' grants gives no project, role or issue project that none of them gives.
-- Code: `resolve` of mcp_governance_gateway/oidc.py.
use Prim.Native.Nat.{Ordering}
use Prim.Native.String.{compare}
use mcp_governance_gateway.Base.{
  String, ◌≡◌, refl, subst, ◌∙◌, ◌⊎◌, inl, inr, true, ◌||◌, Option, none, some, List, [], ◌∷◌, All,
  arith, Bool-cases, sym, Option-cases, ap,
}
use mcp_governance_gateway.Base.Dict.{get}
use mcp_governance_gateway.Base.Eq.{◌==◌, string_eq, contains, Among}
use mcp_governance_gateway.Base.Text.{is_empty}
use mcp_governance_gateway.Base.Text.Parts.{is_empty-eq}
use mcp_governance_gateway.Confirm.Sorted.{insert, sorted_set}
use mcp_governance_gateway.Errors.{Result, ok, err, ◌>>=◌, ok_inj}
use mcp_governance_gateway.Oidc.Grants.{
  Grant, GrantMap, all_roles, matching, one_project, union_of, resolve_grant, issue_projects,
  all_are, one_issue_project,
}

contains-insert :
    (role r : String) (xs : List String)
    → contains role (insert r xs) ≡ ((r == role) || contains role xs)
unfolding insert
contains-insert role r [] = refl
contains-insert role r (x ∷ xs) = go (compare r x) refl (contains-insert role r xs)
  where
    go :
        (o : Ordering)
        → compare r x ≡ o
        → contains role (insert r xs) ≡ ((r == role) || contains role xs)
        → contains role (elim o [
          | Ordering.lt ↦ r ∷ x ∷ xs
          | Ordering.eq ↦ x ∷ xs
          | Ordering.gt ↦ x ∷ insert r xs
        ])
          ≡ ((r == role) || contains role (x ∷ xs))
    go Ordering.lt e ih = refl
    go Ordering.eq e ih =
        let same : r ≡ x = (string_eq.beq_iff r x).0 (rw (e)) in
        subst (λ t. contains role (x ∷ xs) ≡ ((t == role) || contains role (x ∷ xs))) (sym same)
          (ground arith)
    go Ordering.gt e ih = rw (ih) (ground arith)

contains-sorted_set :
    (role : String) (out rs : List String)
    → contains role (sorted_set out rs) ≡ (contains role out || contains role rs)
unfolding sorted_set
contains-sorted_set role out [] = ground arith
contains-sorted_set role out (r ∷ rs) =
    contains-sorted_set role (insert r out) rs ∙ rw (contains-insert role r out) (ground arith)

one_project-All :
    (project : String) (gs : List Grant)
    → one_project project gs ≡ true
    → All (λ (g : Grant). g.project ≡ project) gs
unfolding one_project
one_project-All project [] h = tt
one_project-All project (g ∷ gs) h = (
  (string_eq.beq_iff g.project project).0 (ground arith),
  one_project-All project gs (ground arith),
)

-- One of the grants has that issue project.
abbrev pub Names : String → List Grant → Type 0
Names t [] = ⊥
Names t (g ∷ gs) = (g.issue_project ≡ some t) ⊎ Names t gs

-- What the set of issue projects tells of each grant, and of one of them.
tracker-All :
    (P : String → Type 0) (gs : List Grant)
    → All P (issue_projects gs)
    → All (λ (g : Grant). (u : String) → g.issue_project ≡ some u → (u ≡ "") ⊎ P u) gs
unfolding issue_projects
tracker-All P [] h = tt
tracker-All P (g ∷ gs) h = elim (Option-cases g.issue_project) [
  | inl e ↦ (
    λ u there. absurd (let gone : none ≡ some u = sym e ∙ there in cc),
    tracker-All P gs (rw e at h),
  )
  | inr (t, e) ↦ elim (Bool-cases (is_empty t)) [
    | inl blank ↦ (
      λ u there.
          let same : t ≡ u = let both : some t ≡ some u = sym e ∙ there in cc in
          inl (sym same ∙ is_empty-eq t blank),
      tracker-All P gs (rw (e, blank) at h),
    )
    | inr filled ↦
        let each : P t × All P (issue_projects gs) = rw (e, filled) at h in
        (
          λ u there.
              let same : t ≡ u = let both : some t ≡ some u = sym e ∙ there in cc in
              inr (subst P same each.0),
          tracker-All P gs each.1,
        )
  ]
]

Among-Names : (t : String) (gs : List Grant) → Among t (issue_projects gs) → Names t gs
unfolding issue_projects
Among-Names t [] h = h
Among-Names t (g ∷ gs) h = elim (Option-cases g.issue_project) [
  | inl e ↦ inr (Among-Names t gs (rw e at h))
  | inr (u, e) ↦ elim (Bool-cases (is_empty u)) [
    | inl blank ↦ inr (Among-Names t gs (rw (e, blank) at h))
    | inr filled ↦
        let found : (u ≡ t) ⊎ Among t (issue_projects gs) = rw (e, filled) at h in
        elim found [ inl same ↦ inl (e ∙ ap some same) | inr rest ↦ inr (Among-Names t gs rest) ]
  ]
]

all_are-All :
    (p : String) (ps : List String)
    → all_are p ps ≡ true
    → All (λ (u : String). ◌≡◌ {A = Option String} (some p) (some u)) ps
all_are-All p [] h = tt
all_are-All p (q ∷ qs) h =
    (ap some (sym ((string_eq.beq_iff q p).0 (ground arith))), all_are-All p qs (ground arith))

one_issue_project-ok :
    (ps : List String) (o : Option String)
    → one_issue_project ps ≡ ok o
    → All (λ (u : String). o ≡ some u) ps × ((t : String) → o ≡ some t → Among t ps)
unfolding one_issue_project
one_issue_project-ok [] o h =
    let same : none ≡ o = ok_inj none o h in
    (tt, λ t e. let gone : none ≡ some t = same ∙ e in absurd (cc))
one_issue_project-ok (p ∷ ps) o h = elim (Bool-cases (all_are p ps)) [
  | inr two ↦ absurd (let several : err _ ≡ ok o = rw two at h in cc)
  | inl one ↦
      let same : some p ≡ o = ok_inj (some p) o (rw one at h) in
      (
        (sym same, subst (λ x. All (λ (u : String). x ≡ some u) ps) same (all_are-All p ps one)),
        λ t e. inl (let both : some p ≡ some t = same ∙ e in cc),
      )
]

-- The grant's project is each of theirs, its roles are theirs, and its issue project is that of each
-- that has one, and of one of them if there is any.
pub record IsUnion (matched : List Grant) (grant : Grant) : Type 0 where
  pub projects : All (λ (g : Grant). g.project ≡ grant.project) matched
  pub roles : (role : String) → contains role grant.roles ≡ contains role (all_roles matched)
  pub tracker :
      All
        (λ (g : Grant).
          (u : String) → g.issue_project ≡ some u → (u ≡ "") ⊎ (grant.issue_project ≡ some u))
        matched
  pub given : (t : String) → grant.issue_project ≡ some t → Names t matched

union_of-IsUnion :
    (matched : List Grant) (grant : Grant)
    → union_of matched ≡ ok (some grant)
    → IsUnion matched grant
unfolding union_of
union_of-IsUnion [] grant h = absurd (let no : none ≡ some grant = ok_inj none (some grant) h in cc)
union_of-IsUnion (g ∷ gs) grant h = elim (Bool-cases (one_project g.project gs)) [
  | inr two ↦ absurd (let no : err _ ≡ ok (some grant) = rw (two) at h in cc)
  | inl one ↦
      go (one_issue_project (issue_projects (g ∷ gs))) refl (rw (one) at h)
        (one_project-All g.project gs one)
]
  where
    go :
        (r : Result (Option String))
        → one_issue_project (issue_projects (g ∷ gs)) ≡ r
        → ◌≡◌ {A = Result (Option Grant)}
            (r >>= λ issue_project. ok (
              some (record {
                project = g.project;
                issue_project = issue_project;
                roles = sorted_set [] (all_roles (g ∷ gs));
              })))
            (ok (some grant))
        → All (λ (x : Grant). x.project ≡ g.project) gs
        → IsUnion (g ∷ gs) grant
    go (err e) found h each = absurd (let no : err e ≡ ok (some grant) = h in cc)
    go (ok issue_project) found h each =
        let (tracker, given_by) =
          one_issue_project-ok (issue_projects (g ∷ gs)) issue_project found in
        let given : Grant = record {
          project = g.project;
          issue_project = issue_project;
          roles = sorted_set [] (all_roles (g ∷ gs));
        } in
        let eq : given ≡ grant = let same = ok_inj (some given) (some grant) h in cc in
        subst (IsUnion (g ∷ gs)) eq (record {
          projects = (refl, each);
          roles = λ role. contains-sorted_set role [] (all_roles (g ∷ gs));
          tracker = tracker-All (λ u. issue_project ≡ some u) (g ∷ gs) tracker;
          given = λ t e. Among-Names t (g ∷ gs) (given_by t e);
        })

-- The grant that an identity is given is its own, or it is one of the project of each of its groups
-- that has a grant, with the roles of these and no others, the issue project of each of these that
-- has one, and no issue project that none of these has.
pub resolve_grant-IsUnion :
    (grants : GrantMap) (subject : String) (groups : List String) (grant : Grant)
    → resolve_grant grants subject groups ≡ ok (some grant)
    → (get subject grants.0 ≡ some grant) ⊎ IsUnion (matching grants.1 groups) grant
unfolding resolve_grant
resolve_grant-IsUnion (subjects, group_grants) subject groups grant h =
    go (get subject subjects) refl h
  where
    go :
        (o : Option Grant)
        → get subject subjects ≡ o
        → ◌≡◌ {A = Result (Option Grant)}
            (elim o [
              | some direct ↦ ok (some direct)
              | none ↦ union_of (matching group_grants groups)
            ])
            (ok (some grant))
        → (get subject subjects ≡ some grant) ⊎ IsUnion (matching group_grants groups) grant
    go (some direct) e h = inl (e ∙ ok_inj (some direct) (some grant) h)
    go none e h = inr (union_of-IsUnion (matching group_grants groups) grant h)
