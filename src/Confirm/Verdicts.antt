-- ===== src/Confirm/Verdicts.antt =====
-- What a verdict of `verify` says about the store, and what later calls make of it.
use mcp_governance_gateway.Base.{
  ℕ, ◌+◌, ◌*◌, ◌<◌, String, true, false, Option, none, some, List, [], ◌∷◌, ◌≡◌, ◌≢◌, refl, sym, ap,
  ◌∙◌, ◌⊎◌, inl, inr, arith, leb, Bool-cases, Option-cases,
}
use mcp_governance_gateway.Base.Eq.{◌==◌, string_eq, ==_refl}
use mcp_governance_gateway.Base.Text.{is_empty}
use mcp_governance_gateway.Base.Dict.{get, get-put}
use mcp_governance_gateway.Errors.{Result, ok, err}
use mcp_governance_gateway.Principal.{Principal}
use mcp_governance_gateway.Runtime.{Runtime}
use mcp_governance_gateway.Limits.{second}
use mcp_governance_gateway.Value.{Args, str}
use mcp_governance_gateway.Confirm.{
  Config, Entry, Store, drop, evict_total, make_room, add, new_entry, issue, verify, verify_nonce,
  verify_entry, identity_key, action_key, unknown, Verdict,
}
use mcp_governance_gateway.Confirm.Invariant.{get-drop, verify_ind, issue_ind}
use mcp_governance_gateway.Confirm.Runs.{Call, issuing, verifying, step, run}

-- No call draws this nonce.
abbrev pub NotDrawn : String → List Call → Type 0
NotDrawn nonce [] = Unit
NotDrawn nonce (issuing p tool args now n ∷ cs) = (n ≢ nonce) × NotDrawn nonce cs
NotDrawn nonce (c ∷ cs) = NotDrawn nonce cs

-- Under the nonce stands nothing, or this.
abbrev pub AtMost : String → Option Entry → Store → Type 0
AtMost nonce o s = (get nonce s.pending ≡ none) ⊎ (get nonce s.pending ≡ o)

drop-AtMost :
    (nonce : String) (o : Option Entry) (n : String) (s : Store)
    → AtMost nonce o s
    → AtMost nonce o (drop n s)
drop-AtMost nonce o n s h = elim (Bool-cases (n == nonce)) [
  | inl e ↦ inl (rw (get-drop, e))
  | inr e ↦ rw (get-drop, e) h
]

add-AtMost :
    (nonce : String) (o : Option Entry) (n : String) (entry : Entry) (s : Store)
    → n ≢ nonce
    → AtMost nonce o s
    → AtMost nonce o (add n entry s)
unfolding add
add-AtMost nonce o n entry s other h = elim (Bool-cases (n == nonce)) [
  | inl e ↦ absurd (other ((string_eq.beq_iff n nonce).0 e))
  | inr e ↦ rw (get-put, e) h
]

module _ (rt : Runtime) (config : Config) where
  run-AtMost :
      (nonce : String) (o : Option Entry) (cs : List Call) (s : Store)
      → NotDrawn nonce cs
      → AtMost nonce o s
      → AtMost nonce o (run rt config s cs)
  unfolding run step
  run-AtMost nonce o [] s d h = h
  run-AtMost nonce o (issuing p tool args now n ∷ cs) s d h =
      run-AtMost nonce o cs (issue rt config p tool args now n s).1 d.1 (
        issue_ind config (AtMost nonce o) (drop-AtMost nonce o) (AtMost nonce o) rt p tool args now
          n s (λ _ h'. h')
          (λ roomy h' _. add-AtMost nonce o n (new_entry rt config p tool args now) roomy d.0 h') h)
  run-AtMost nonce o (verifying p tool args provided now ∷ cs) s d h =
      run-AtMost nonce o cs (verify rt config p tool args provided now s).1 d
        (verify_ind config (AtMost nonce o) (drop-AtMost nonce o) rt p tool args provided now s h)

  -- What a positive verdict tells.
  pub record Accepted (p : Principal) (tool : String) (args : Args) (nonce : String) (now : ℕ)
      (s : Store) : Type 0 where
    pub nonempty : is_empty nonce ≡ false
    pub entry : Entry
    pub found : get nonce s.pending ≡ some entry
    pub identity : entry.identity_key ≡ identity_key rt p tool
    pub action : entry.action_key ≡ action_key rt p tool args
    pub live : now < entry.expiry
    pub consumed : (verify rt config p tool args (str nonce) now s).1 ≡ drop nonce s

  verify_nonce-Accepted :
      (p : Principal) (tool : String) (args : Args) (nonce : String) (now : ℕ) (s : Store)
      → is_empty nonce ≡ false
      → (verify_nonce rt config p tool args nonce now s).0.0 ≡ true
      → Accepted p tool args nonce now s
  unfolding verify verify_nonce verify_entry
  verify_nonce-Accepted p tool args nonce now s ne h = elim (Option-cases (get nonce s.pending)) [
    | inl e ↦ let no : false ≡ true = rw (verify_nonce, e) at h in absurd (cc)
    | inr (entry, e) ↦ elim (Bool-cases (entry.identity_key == identity_key rt p tool)) [
      | inl id ↦ elim (Bool-cases (leb entry.expiry now)) [
        | inl late ↦ let no : false ≡ true = rw (verify_nonce, e, id, late) at h in absurd (cc)
        | inr live ↦ elim (Bool-cases (entry.action_key == action_key rt p tool args)) [
          | inl act ↦ record {
            nonempty = ne;
            entry = entry;
            found = e;
            identity = (string_eq.beq_iff _ _).0 id;
            action = (string_eq.beq_iff _ _).0 act;
            live = ground arith;
            consumed = rw (ne, verify_nonce, e, id, live, act);
          }
          | inr changed ↦
              let no : false ≡ true = rw (verify_nonce, e, id, live, changed) at h in absurd (cc)
        ]
      ]
      | inr other ↦ let no : false ≡ true = rw (verify_nonce, e, other) at h in absurd (cc)
    ]
  ]

  pub verify-Accepted :
      (p : Principal) (tool : String) (args : Args) (nonce : String) (now : ℕ) (s : Store)
      → (verify rt config p tool args (str nonce) now s).0.0 ≡ true
      → Accepted p tool args nonce now s
  unfolding verify
  verify-Accepted p tool args nonce now s h = elim (Bool-cases (is_empty nonce)) [
    | inl e ↦ let no : false ≡ true = rw e at h in absurd (cc)
    | inr e ↦ verify_nonce-Accepted p tool args nonce now s e (rw e at h)
  ]

  pub issue-adds :
      (p : Principal) (tool : String) (args : Args) (now : ℕ) (nonce : String) (s : Store)
      → (issue rt config p tool args now nonce s).0 ≡ ok nonce
      → get nonce (issue rt config p tool args now nonce s).1.pending
        ≡ some (new_entry rt config p tool args now)
  unfolding issue add
  issue-adds p tool args now nonce s h = end (evict_total config (make_room rt config p now s)) refl
    where
      end :
          (r : Result Store)
          → evict_total config (make_room rt config p now s) ≡ r
          → get nonce (issue rt config p tool args now nonce s).1.pending
            ≡ some (new_entry rt config p tool args now)
      end (err x) e = let no : err x ≡ ok nonce = rw (issue, e) at h in absurd (cc)
      end (ok roomy) e = rw (issue, e, get-put, ==_refl nonce)

-- A confirmation id that `verify` accepts was issued, whatever calls came between, for a caller and
-- a tool with the same identity digest and for the same action digest, less than the TTL ago.
pub verify-binds :
    (rt : Runtime) (config : Config) (p p' : Principal) (tool tool' : String) (args args' : Args)
    (now now' : ℕ) (nonce : String) (s : Store) (cs : List Call)
    → (issue rt config p tool args now nonce s).0 ≡ ok nonce
    → NotDrawn nonce cs
    → (verify rt config p' tool' args'
        (str nonce)
        now'
        (run rt config (issue rt config p tool args now nonce s).1 cs)).0.0
      ≡ true
    → (identity_key rt p tool ≡ identity_key rt p' tool')
      × (action_key rt p tool args ≡ action_key rt p' tool' args')
      × (now' < now + config.ttl_sec * second)
unfolding new_entry
verify-binds rt config p p' tool tool' args args' now now' nonce s cs issued d h =
    elim (run-AtMost rt config nonce (some (new_entry rt config p tool args now)) cs
      (issue rt config p tool args now nonce s).1 d
      (inr (issue-adds rt config p tool args now nonce s issued))) [
        | inl gone ↦ absurd (let no : none ≡ some accepted.entry = sym gone ∙ accepted.found in cc)
        | inr there ↦
            let same : some (new_entry rt config p tool args now) ≡ some accepted.entry =
              sym there ∙ accepted.found in
            (
              ground (arith, accepted.identity),
              ground (arith, accepted.action),
              ground (arith, accepted.live),
            )
      ]
  where
    accepted :
        Accepted rt config p' tool' args' nonce now'
          (run rt config (issue rt config p tool args now nonce s).1 cs)
    accepted =
        verify-Accepted rt config p' tool' args' nonce now'
          (run rt config (issue rt config p tool args now nonce s).1 cs) h

absent-unknown :
    (rt : Runtime) (config : Config) (p : Principal) (tool : String) (args : Args) (now : ℕ)
    (nonce : String) (s : Store)
    → is_empty nonce ≡ false
    → get nonce s.pending ≡ none
    → verify rt config p tool args (str nonce) now s ≡ (unknown, s)
unfolding verify verify_nonce
absent-unknown rt config p tool args now nonce s ne e = rw (ne, verify_nonce, e)

-- A confirmation id that `verify` has accepted is unknown from then on, to whoever presents it, with
-- whatever tool and arguments, after whatever calls that do not draw it again.
pub verify-single_use :
    (rt : Runtime) (config : Config) (p p' : Principal) (tool tool' : String) (args args' : Args)
    (now now' : ℕ) (nonce : String) (s : Store) (cs : List Call)
    → (verify rt config p tool args (str nonce) now s).0.0 ≡ true
    → NotDrawn nonce cs
    → (verify rt config p' tool' args'
        (str nonce)
        now'
        (run rt config (verify rt config p tool args (str nonce) now s).1 cs)).0
      ≡ unknown
verify-single_use rt config p p' tool tool' args args' now now' nonce s cs h d =
    ap (λ (r : Verdict × Store). r.0)
      (absent-unknown rt config p' tool' args' now' nonce (run rt config used cs) accepted.nonempty
        (elim (run-AtMost rt config nonce none cs used d (inl gone)) [ inl e ↦ e | inr e ↦ e ]))
  where
    accepted : Accepted rt config p tool args nonce now s
    accepted = verify-Accepted rt config p tool args nonce now s h

    used : Store
    used = (verify rt config p tool args (str nonce) now s).1

    gone : get nonce used.pending ≡ none
    gone = rw (accepted.consumed, get-drop, ==_refl nonce)

foreign-unknown :
    (rt : Runtime) (config : Config) (p : Principal) (tool : String) (args : Args) (now : ℕ)
    (nonce : String) (s : Store) (entry : Entry)
    → is_empty nonce ≡ false
    → get nonce s.pending ≡ some entry
    → entry.identity_key ≢ identity_key rt p tool
    → verify rt config p tool args (str nonce) now s ≡ (unknown, s)
unfolding verify verify_nonce verify_entry
foreign-unknown rt config p tool args now nonce s entry ne found foreign =
    let other : (entry.identity_key == identity_key rt p tool) ≡ false =
      ground (arith, string_eq.beq_iff entry.identity_key (identity_key rt p tool)) in
    rw (ne, verify_nonce, found, other)

-- A confirmation id that was issued to another identity, expired or not, gets the same answer as one
-- that was never issued, and the store is left as it is.
pub verify-hides_foreign :
    (rt : Runtime) (config : Config) (p : Principal) (tool : String) (args : Args) (now : ℕ)
    (nonce : String) (s : Store) (entry : Entry)
    → get nonce s.pending ≡ some entry
    → entry.identity_key ≢ identity_key rt p tool
    → ((verify rt config p tool args (str nonce) now s).0
        ≡ (verify rt config p tool args (str nonce) now (drop nonce s)).0)
      × ((verify rt config p tool args (str nonce) now s).1 ≡ s)
unfolding verify
verify-hides_foreign rt config p tool args now nonce s entry found foreign =
    elim (Bool-cases (is_empty nonce)) [
      | inl e ↦ (rw e, rw e)
      | inr e ↦
          let shown = foreign-unknown rt config p tool args now nonce s entry e found foreign in
          let gone : get nonce (drop nonce s).pending ≡ none = rw (get-drop, ==_refl nonce) in
          let hidden = absent-unknown rt config p tool args now nonce (drop nonce s) e gone in
          (
            ap (λ (r : Verdict × Store). r.0) shown
                ∙ sym (ap (λ (r : Verdict × Store). r.0) hidden),
            ap (λ (r : Verdict × Store). r.1) shown,
          )
    ]
