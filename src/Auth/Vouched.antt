-- ===== src/Auth/Vouched.antt =====
-- Whom a request acts for behind a front gateway.
-- Code: `IdentityVerifier` of mcp_governance_gateway/auth.py.
use mcp_governance_gateway.Base.{
  String, ◌<>◌, ◌≡◌, refl, sym, ap, ◌∙◌, ◌⊎◌, inl, inr, Bool, true, false, Option, Bool-cases,
  if◌then◌else◌,
}
use mcp_governance_gateway.Base.Text.{is_empty}
use mcp_governance_gateway.Base.Eq.{◌==◌, string_eq}
use mcp_governance_gateway.Errors.{auth_error, type_error, Result, ok, err, ◌>>=◌}
use mcp_governance_gateway.Principal.{Principal, or_empty}
use mcp_governance_gateway.Auth.{IdentityVerifier, compare_digest, vouched, resolve}

compare_digest-ok : (a b : String) (same : Bool) → compare_digest a b ≡ ok same → (a == b) ≡ same
unfolding compare_digest
compare_digest-ok a b same h = go _ h
  where
    go :
        (ascii : Bool)
        → ◌≡◌ {A = Result Bool} (if ascii then ok (a == b) else err type_error) (ok same)
        → (a == b) ≡ same
    go true h = cc
    go false h = absurd (let no : err type_error ≡ ok same = h in cc)

module _ (hmac : String → String → String) (v : IdentityVerifier)
    (header_get : String → Option String) (base : Principal) where
  -- The headers name a user, with the digest of the name and the email under the secret.
  pub record IsVouched (actor : String) : Type 0 where
    pub configured : is_empty v.secret ≡ false
    pub named : or_empty (header_get (v.prefix <> "-Id")) ≡ actor
    pub signed :
        or_empty (header_get (v.prefix <> "-Claims-Signature"))
        ≡ hmac v.secret (actor <> ":" <> or_empty (header_get (v.prefix <> "-Email")))

  vouched-cases :
      (same : Bool) (user_id : String) (p : Principal)
      → vouched hmac same base user_id ≡ ok p
      → (same ≡ true) × (p ≡ record base { actor = user_id })
  unfolding vouched
  vouched-cases true user_id p h = (refl, cc)
  vouched-cases false user_id p h =
      absurd (let no : err (auth_error "invalid identity claims signature") ≡ ok p = h in cc)

  checked-IsVouched :
      (r : Result Bool) (p : Principal)
      → is_empty v.secret ≡ false
      → compare_digest
          (hmac v.secret (
            or_empty (header_get (v.prefix <> "-Id"))
            <> ":"
            <> or_empty (header_get (v.prefix <> "-Email"))))
          (or_empty (header_get (v.prefix <> "-Claims-Signature")))
        ≡ r
      → (r >>= λ same. vouched hmac same base (or_empty (header_get (v.prefix <> "-Id")))) ≡ ok p
      → (p ≡ record base { actor = p.actor }) × IsVouched p.actor
  checked-IsVouched (err e) p there compared h = absurd (let no : err e ≡ ok p = h in cc)
  checked-IsVouched (ok same) p there compared h =
      let (right, eq) = vouched-cases same _ p h in
      let named : or_empty (header_get (v.prefix <> "-Id")) ≡ p.actor =
        sym (ap (λ q. q.actor) eq) in
      let digest = (string_eq.beq_iff _ _).0 (compare_digest-ok _ _ same compared ∙ right) in
      (
        eq ∙ ap (λ u. record base { actor = u }) named,
        record {
          configured = there;
          named = named;
          signed =
              sym digest
              ∙ ap (λ u. hmac v.secret (u <> ":" <> or_empty (header_get (v.prefix <> "-Email"))))
                  named;
        },
      )

-- Where the verifier answers with a principal, it is the bearer's, or the bearer's with another
-- actor alone: the one that the identity headers name, under a secret that is configured and with
-- the digest of the name and the email under it. Project, roles and token never change.
pub resolve-IsVouched :
    (hmac : String → String → String) (v : IdentityVerifier) (header_get : String → Option String)
    (base p : Principal)
    → resolve hmac v header_get base ≡ ok p
    → (p ≡ base)
      ⊎ ((p ≡ record base { actor = p.actor }) × IsVouched hmac v header_get base p.actor)
unfolding resolve
resolve-IsVouched hmac v header_get base p h = elim (Bool-cases (is_empty v.secret)) [
  | inl off ↦ inl (let same : ok base ≡ ok p = rw (off) at h in cc)
  | inr on ↦ elim (Bool-cases (is_empty (or_empty (header_get (v.prefix <> "-Id"))))) [
    | inl no_id ↦
        elim (Bool-cases (is_empty (or_empty (header_get (v.prefix <> "-Claims-Signature"))))) [
          | inl bare ↦ inl (let same : ok base ≡ ok p = rw (on, no_id, bare) at h in cc)
          | inr signed ↦ absurd (let no : err _ ≡ ok p = rw (on, no_id, signed) at h in cc)
        ]
    | inr named ↦
        elim (Bool-cases (is_empty (or_empty (header_get (v.prefix <> "-Claims-Signature"))))) [
          | inl bare ↦ absurd (let no : err _ ≡ ok p = rw (on, named, bare) at h in cc)
          | inr signed ↦
              inr
                (checked-IsVouched hmac v header_get base _ p on refl (rw (on, named, signed) at h))
        ]
  ]
]
