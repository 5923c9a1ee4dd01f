-- ===== src/Tools/Calls/Gated.antt =====
-- Rules for handlers: which steps call no gated backend method, and when one may be called.
-- Code: `call` of the modules of mcp_governance_gateway/tools, `confirmation_gate` of
-- mcp_governance_gateway/mcp.py.
use mcp_governance_gateway.Base.{
  String, ◌≡◌, refl, sym, ap, ◌∙◌, subst, ◌⊎◌, inl, inr, Bool, true, false, Option, List, [], ◌∷◌,
  Bool-cases, if◌then◌else◌,
}
use mcp_governance_gateway.Base.Eq.{◌==◌, string_eq}
use mcp_governance_gateway.Errors.{Result, ok, err}
use mcp_governance_gateway.Value.{Value, Args, get_value}
use mcp_governance_gateway.Confirm.{Store, verify, issue}
use mcp_governance_gateway.DocsAssets.{AssetStage}
use mcp_governance_gateway.Review.{ReviewSpec}
use mcp_governance_gateway.Tools.Host.{
  Method, is_gated, Request, World, Env, M, ◌>>=◌, lift, send, send_request, send_review, staged,
  enforce_read_quota, take_write_quota, confirmation_gate, ask, confirmed_then,
}

-- The requests that need a confirmation.
unfoldable pub gated : List Request → List Request
unfolding is_gated
gated [] = []
gated (r ∷ rs) = let rest = gated rs in if is_gated r.method then r ∷ rest else rest

-- The call's `confirm` argument is one that the store accepts for the tool and for some arguments.
pub record IsConfirmed (env : Env) (arguments : Args) (name : String) (s : Store) : Type 0 where
  pub semantic : Args
  pub accepted :
      (verify env.rt env.confirm_config env.principal name semantic
        (get_value arguments "confirm")
        env.verified_at
        s).0.0
      ≡ true

module _ (env : Env) (arguments : Args) (w0 : World) where
  pub record IsBefore (w : World) : Type 0 where
    pub sent : gated w.sent ≡ gated w0.sent
    pub confirm : w.confirm ≡ w0.confirm

  abbrev pub IsAfter : String → World → Type 0
  IsAfter name w = (gated w.sent ≡ gated w0.sent) ⊎ IsConfirmed env arguments name w0.confirm

  -- The step calls no gated method and leaves the confirmations alone.
  pub record Keeps {A : Type 0} (m : M A) : Type 0 where
    pub keeps : (w : World) → IsBefore w → IsBefore (m w).1

  -- The rest of the handler calls a gated method only with a confirmation.
  pub record Guards (name : String) (m : M Value) : Type 0 where
    pub guards : (w : World) → IsBefore w → IsAfter name (m w).1

  pub lift-Keeps : {A : Type 0} (r : Result A) → Keeps (lift r)
  unfolding lift
  lift-Keeps r = record { keeps = λ w h. h }

  pub enforce_read_quota-Keeps : Keeps (enforce_read_quota env)
  unfolding enforce_read_quota
  enforce_read_quota-Keeps = record { keeps = λ w h. record { sent = h.sent; confirm = h.confirm } }

  pub take_write_quota-Keeps : (text : String) → Keeps (take_write_quota env text)
  unfolding take_write_quota
  take_write_quota-Keeps text = record {
    keeps = λ w h. record { sent = h.sent; confirm = h.confirm };
  }

  pub send_request-Keeps :
      (request : Request) → is_gated request.method ≡ false → Keeps (send_request env request)
  unfolding send_request gated
  send_request-Keeps request plain = record {
    keeps = λ w h. record { sent = rw plain h.sent; confirm = h.confirm };
  }

  pub send-Keeps :
      (method : Method) (values : List Value)
      → is_gated method ≡ false
      → Keeps (send env method values)
  unfolding send
  send-Keeps method values plain = send_request-Keeps _ plain

  pub send_review-Keeps :
      (spec : ReviewSpec) (credential : String) (method : Method) (values : List Value)
      → is_gated method ≡ false
      → Keeps (send_review env spec credential method values)
  unfolding send_review
  send_review-Keeps spec credential method values plain = send_request-Keeps _ plain

  pub staged-Keeps : {A : Type 0} (f : AssetStage → Result A × AssetStage) → Keeps (staged f)
  unfolding staged
  staged-Keeps f = record { keeps = λ w h. record { sent = h.sent; confirm = h.confirm } }

  pub bind-Keeps :
      {A B : Type 0} (m : M A) (f : A → M B) → Keeps m → ((a : A) → Keeps (f a)) → Keeps (m >>= f)
  unfolding ◌>>=◌
  bind-Keeps {A} {B} m f hm hf = record { keeps = λ w h. go w h (m w).0 refl }
    where
      go : (w : World) → IsBefore w → (r : Result A) → (m w).0 ≡ r → IsBefore ((m >>= f) w).1
      go w h (ok a) e = rw (◌>>=◌, e) ((hf a).keeps (m w).1 (hm.keeps w h))
      go w h (err x) e = rw (◌>>=◌, e) (hm.keeps w h)

  pub bind-Guards :
      {A : Type 0} (name : String) (m : M A) (f : A → M Value)
      → Keeps m
      → ((a : A) → Guards name (f a))
      → Guards name (m >>= f)
  unfolding ◌>>=◌
  bind-Guards {A} name m f hm hf = record { guards = λ w h. go w h (m w).0 refl }
    where
      go : (w : World) → IsBefore w → (r : Result A) → (m w).0 ≡ r → IsAfter name ((m >>= f) w).1
      go w h (ok a) e = rw (◌>>=◌, e) ((hf a).guards (m w).1 (hm.keeps w h))
      go w h (err x) e = rw (◌>>=◌, e) (inl (hm.keeps w h).sent)

  pub Keeps-Guards : (name : String) (m : M Value) → Keeps m → Guards name m
  Keeps-Guards name m k = record { guards = λ w h. inl (k.keeps w h).sent }

  pub if-Keeps :
      {A : Type 0} (t : Bool) (a b : M A) → Keeps a → Keeps b → Keeps (if t then a else b)
  if-Keeps true a b ha hb = ha
  if-Keeps false a b ha hb = hb

  pub if-Guards :
      (name : String) (t : Bool) (a b : M Value)
      → Guards name a
      → Guards name b
      → Guards name (if t then a else b)
  if-Guards name true a b ha hb = ha
  if-Guards name false a b ha hb = hb

  -- A branch of `call` on the tool's name.
  pub case-Guards :
      (name tool : String) (a b : M Value)
      → Guards tool a
      → Guards name b
      → Guards name (if name == tool then a else b)
  case-Guards name tool a b ha hb = elim (Bool-cases (name == tool)) [
    | inl e ↦ rw e (subst (λ n. Guards n a) (sym ((string_eq.beq_iff name tool).0 e)) ha)
    | inr e ↦ rw e hb
  ]

  -- Asking for a confirmation calls no backend.
  ask-Guards :
      (name : String) (semantic : Args) (summary : String) (reason : Option String) (rest : M Value)
      (w : World)
      → gated w.sent ≡ gated w0.sent
      → gated (confirmed_then (ask env name semantic summary reason) rest w).1.sent ≡ gated w0.sent
  unfolding confirmed_then ◌>>=◌ lift ask
  ask-Guards name semantic summary reason rest w h =
      go
        (issue env.rt env.confirm_config env.principal name semantic env.issued_at env.nonce
          w.confirm).0
        refl
    where
      go :
          (r : Result String)
          → (issue env.rt env.confirm_config env.principal name semantic env.issued_at env.nonce
              w.confirm).0
            ≡ r
          → gated (confirmed_then (ask env name semantic summary reason) rest w).1.sent
            ≡ gated w0.sent
      go (ok id) e = rw (confirmed_then, ◌>>=◌, ask, e) h
      go (err x) e = rw (confirmed_then, ◌>>=◌, ask, e) h

  -- What the gate's refusal comes to.
  gate_refused :
      (name : String) (semantic : Args) (summary : String) (w : World)
      → (verify env.rt env.confirm_config env.principal name semantic
          (get_value arguments "confirm")
          env.verified_at
          w.confirm).0.0
        ≡ false
      → confirmation_gate env name semantic arguments summary w
        ≡ ask env name semantic summary
            (verify env.rt env.confirm_config env.principal name semantic
              (get_value arguments "confirm")
              env.verified_at
              w.confirm).0.1
            (record w {
              confirm =
                  (verify env.rt env.confirm_config env.principal name semantic
                    (get_value arguments "confirm")
                    env.verified_at
                    w.confirm).1;
            })
  unfolding confirmation_gate
  gate_refused name semantic summary w e = rw e

  -- What follows a gate reads nothing but the gate's end.
  confirmed_then-cong :
      (m m' : M (Option Value)) (rest : M Value) (w w' : World)
      → m w ≡ m' w'
      → confirmed_then m rest w ≡ confirmed_then m' rest w'
  unfolding confirmed_then ◌>>=◌
  confirmed_then-cong m m' rest w w' e =
      ap (λ (p : Result (Option Value) × World). confirmed_then (λ _. p) rest w) e

  -- The gate, and behind it any calls.
  pub gate-Guards :
      (name : String) (semantic : Args) (summary : String) (rest : M Value)
      → Guards name (confirmed_then (confirmation_gate env name semantic arguments summary) rest)
  gate-Guards name semantic summary rest = record { guards = after }
    where
      after :
          (w : World)
          → IsBefore w
          → IsAfter name
              (confirmed_then (confirmation_gate env name semantic arguments summary) rest w).1
      after w h =
          elim (Bool-cases
            (verify env.rt env.confirm_config env.principal name semantic
              (get_value arguments "confirm") env.verified_at w.confirm).0.0) [
                | inl e ↦ inr (record { semantic = semantic; accepted = rw (← h.confirm) e })
                | inr e ↦
                    let refused : World = record w {
                      confirm =
                          (verify env.rt env.confirm_config env.principal name semantic
                            (get_value arguments "confirm") env.verified_at w.confirm).1;
                    } in
                    let reason =
                      (verify env.rt env.confirm_config env.principal name semantic
                        (get_value arguments "confirm") env.verified_at w.confirm).0.1 in
                    inl (
                      ap (λ (p : Result Value × World). gated p.1.sent)
                        (confirmed_then-cong (confirmation_gate env name semantic arguments summary)
                          (ask env name semantic summary reason) rest w refused
                          (gate_refused name semantic summary w e))
                      ∙ ask-Guards name semantic summary reason rest refused h.sent)
              ]

  -- A step that only checks.
  pub checked :
      {A : Type 0} (name : String) (r : Result A) (f : A → M Value)
      → ((a : A) → Guards name (f a))
      → Guards name (lift r >>= f)
  checked name r f h = bind-Guards name (lift r) f (lift-Keeps r) h

  pub plain :
      (name : String) (method : Method) (values : List Value)
      → is_gated method ≡ false
      → Guards name (send env method values)
  plain name method values h =
      Keeps-Guards name (send env method values) (send-Keeps method values h)

  pub raised : (name : String) (r : Result Value) → Guards name (lift r)
  raised name r = Keeps-Guards name (lift r) (lift-Keeps r)
