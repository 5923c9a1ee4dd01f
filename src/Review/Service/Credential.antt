-- ===== src/Review/Service/Credential.antt =====
-- Under whose credential review hosts are called. Code: `DocsReviewService` of
-- mcp_governance_gateway/docs_review.py.
use mcp_governance_gateway.Base.{
  String, ◌≡◌, refl, sym, ap, ◌∙◌, subst, inl, inr, Bool, true, false, Option, none, some, List, [],
  ◌∷◌, ◌++◌, append_assoc, All, All-append, Bool-cases, Option-cases,
}
use mcp_governance_gateway.Base.Int.{ℤ}
use mcp_governance_gateway.Base.Text.{is_empty}
use mcp_governance_gateway.Base.Eq.{string_eq, contains}
use mcp_governance_gateway.Errors.{Result, ok, err}
use mcp_governance_gateway.Value.{Value, str}
use mcp_governance_gateway.Keystore.{KeyState, key_ok, undecryptable, degraded, missing}
use mcp_governance_gateway.Review.{ReviewSpec, backend_key, require_servable}
use mcp_governance_gateway.Review.Service.{
  spec_for, usable, credential, resolve, resolved, refuse_if_present, create, update, comment,
  get_change, list_changes, add_reviewer, abandon, with_spec, proposed,
}
use mcp_governance_gateway.Tools.Host.{
  Method, Request, Env, World, M, ◌>>=◌, lift, send, send_request, send_review,
}

-- The service's operations.
pub data Operation : Type 0 where
  creates : (path content message : String) → Operation
  updates : (path content message base_sha : String) → Operation
  comments : (change_ref : ℤ) (body : String) → Operation
  gets : (change_ref : ℤ) → Operation
  lists : (limit : ℤ) → Operation
  adds_reviewer : (change_ref : ℤ) (reviewer : String) → Operation
  abandons : (change_ref : ℤ) (message : Option String) → Operation

-- The methods of a review host.
abbrev pub is_review : Method → Bool
is_review Method.review_open_change = true
is_review Method.review_update_change = true
is_review Method.review_comment = true
is_review Method.review_get_change = true
is_review Method.review_list_changes = true
is_review Method.review_add_reviewer = true
is_review Method.review_close_change = true
is_review _ = false

module _ (env : Env) where
  unfoldable pub perform : Operation → M Value
  unfolding create update comment get_change list_changes add_reviewer abandon
  perform (creates path content message) = create env path content message
  perform (updates path content message base_sha) = update env path content message base_sha
  perform (comments change_ref body) = comment env change_ref body
  perform (gets change_ref) = get_change env change_ref
  perform (lists limit) = list_changes env limit
  perform (adds_reviewer change_ref reviewer) = add_reviewer env change_ref reviewer
  perform (abandons change_ref message) = abandon env change_ref message

  -- The credential is the one that the store holds for the acting user and the type of host, and the
  -- host is the one that the acting user's project proposes to.
  pub record IsOwn (found : ReviewSpec × String) : Type 0 where
    pub project : spec_for env env.context.project ≡ some found.0
    pub resolver : String → String → KeyState × Option String
    pub known : env.key_resolver ≡ some resolver
    pub held : resolver env.context.actor (backend_key found.0) ≡ (key_ok, some found.1)
    pub present : is_empty found.1 ≡ false

  -- A request of no method of a review host, or one under the caller's own credential.
  abbrev pub IsAccountable : Request → Type 0
  IsAccountable r = elim r.review [ none ↦ is_review r.method ≡ false | some found ↦ IsOwn found ]

  usable-held :
      (spec : ReviewSpec) (answer : KeyState × Option String) (own : String)
      → usable env spec answer ≡ ok own
      → (answer ≡ (key_ok, some own)) × (is_empty own ≡ false)
  unfolding usable
  usable-held spec (degraded, personal) own h = absurd (let no : err _ ≡ ok own = h in cc)
  usable-held spec (undecryptable, personal) own h = absurd (let no : err _ ≡ ok own = h in cc)
  usable-held spec (key_ok, some personal) own h = elim (Bool-cases (is_empty personal)) [
    | inl e ↦ absurd (let no : err _ ≡ ok own = rw e at h in cc)
    | inr e ↦
        let same : ok personal ≡ ok own = rw e at h in
        let eq : personal ≡ own = cc in (λ i. (key_ok, some (eq i)), rw (← eq) e)
  ]
  usable-held spec (key_ok, none) own h = absurd (let no : err _ ≡ ok own = h in cc)
  usable-held spec (missing, personal) own h = absurd (let no : err _ ≡ ok own = h in cc)

  credential-IsOwn :
      (spec : ReviewSpec) (own : String)
      → spec_for env env.context.project ≡ some spec
      → credential env spec ≡ ok own
      → IsOwn (spec, own)
  unfolding credential
  credential-IsOwn spec own project h = elim (Option-cases env.key_resolver) [
    | inl e ↦ absurd (let no : err _ ≡ ok own = rw (credential, e) at h in cc)
    | inr (resolver, e) ↦
        let (held, present) =
          usable-held spec (resolver env.context.actor (backend_key spec)) own
            (rw (credential, e) at h) in
        record { project = project; resolver = resolver; known = e; held = held; present = present }
  ]

  with_spec-IsOwn :
      (spec : ReviewSpec) (found : ReviewSpec × String) (r : Result String)
      → spec_for env env.context.project ≡ some spec
      → credential env spec ≡ r
      → with_spec env spec r ≡ ok found
      → IsOwn found
  with_spec-IsOwn spec found (ok own) project e h =
      let same : (spec, own) ≡ found = cc in subst IsOwn same (credential-IsOwn spec own project e)
  with_spec-IsOwn spec found (err x) project e h = absurd (let no : err x ≡ ok found = h in cc)

  resolve-IsOwn : (found : ReviewSpec × String) → resolve env ≡ ok found → IsOwn found
  unfolding resolve
  resolve-IsOwn found h = elim (Option-cases (spec_for env env.context.project)) [
    | inl e ↦ absurd (let no : err _ ≡ ok found = rw (resolve, e) at h in cc)
    | inr (spec, e) ↦ elim (Bool-cases (contains spec.type env.review_hosts)) [
      | inl there ↦
          with_spec-IsOwn spec found (credential env spec) e refl (rw (resolve, e, there) at h)
      | inr gone ↦ absurd (let no : err _ ≡ ok found = rw (resolve, e, gone) at h in cc)
    ]
  ]

  -- The requests sent are those sent before, behind new ones that are accountable.
  pub record Adds (before after : List Request) : Type 0 where
    pub added : List Request
    pub all : after ≡ added ++ before
    pub accountable : All IsAccountable added

  Adds-none : (sent : List Request) → Adds sent sent
  Adds-none sent = record { added = []; all = refl; accountable = tt }

  Adds-one : (r : Request) (sent : List Request) → IsAccountable r → Adds sent (r ∷ sent)
  Adds-one r sent own = record { added = r ∷ []; all = refl; accountable = (own, tt) }

  Adds-trans : (first then last : List Request) → Adds first then → Adds then last → Adds first last
  Adds-trans first then last h k = record {
    added = k.added ++ h.added;
    all = k.all ∙ ap (λ sent. k.added ++ sent) h.all ∙ sym (append_assoc k.added h.added first);
    accountable = All-append IsAccountable k.added h.added k.accountable h.accountable;
  }

  -- A step that adds none but accountable requests, whatever was sent before.
  record Accounts {A : Type 0} (m : M A) : Type 0 where
    accounts : (w : World) → Adds w.sent (m w).1.sent

  lift-Accounts : {A : Type 0} (r : Result A) → Accounts (lift r)
  unfolding lift
  lift-Accounts r = record { accounts = λ w. Adds-none w.sent }

  send_request-Accounts : (r : Request) → IsAccountable r → Accounts (send_request env r)
  unfolding send_request
  send_request-Accounts r own = record { accounts = λ w. Adds-one r w.sent own }

  bind-Accounts :
      {A B : Type 0} (m : M A) (f : A → M B)
      → Accounts m
      → ((a : A) → Accounts (f a))
      → Accounts (m >>= f)
  unfolding ◌>>=◌
  bind-Accounts {A} {B} m f hm hf = record { accounts = λ w. go w (m w).0 refl }
    where
      go : (w : World) (r : Result A) → (m w).0 ≡ r → Adds w.sent ((m >>= f) w).1.sent
      go w (ok a) e =
          rw (◌>>=◌, e)
            (Adds-trans w.sent (m w).1.sent (f a (m w).1).1.sent (hm.accounts w)
              ((hf a).accounts (m w).1))
      go w (err x) e = rw (◌>>=◌, e) (hm.accounts w)

  -- What follows `_resolve` may use what it gave.
  resolve-Accounts :
      (f : ReviewSpec × String → M Value)
      → ((found : ReviewSpec × String) → IsOwn found → Accounts (f found))
      → Accounts (lift (resolve env) >>= f)
  unfolding ◌>>=◌ lift
  resolve-Accounts f hf = go (resolve env) refl
    where
      go :
          (r : Result (ReviewSpec × String)) → resolve env ≡ r → Accounts (lift (resolve env) >>= f)
      go (ok found) e = record {
        accounts = λ w. rw (◌>>=◌, lift, e) ((hf found (resolve-IsOwn found e)).accounts w);
      }
      go (err x) e = record { accounts = λ w. rw (◌>>=◌, lift, e) (Adds-none w.sent) }

  send_review-Accounts :
      (found : ReviewSpec × String) (method : Method) (values : List Value)
      → IsOwn found
      → Accounts (send_review env found.0 found.1 method values)
  unfolding send_review
  send_review-Accounts found method values own = send_request-Accounts _ own

  resolved-Accounts :
      (method : Method) (values : List Value) → Accounts (resolved env method values)
  unfolding resolved ◌>>=◌
  resolved-Accounts method values =
      resolve-Accounts (λ found. send_review env found.0 found.1 method values)
        (λ found own. send_review-Accounts found method values own)

  -- The read is of the corpus, under no credential.
  refuse_if_present-Accounts : (path : String) → Accounts (refuse_if_present env path)
  unfolding refuse_if_present send send_request
  refuse_if_present-Accounts path = record { accounts = λ w. go w _ refl }
    where
      go :
          (w : World) (r : Result Value)
          → (send env Method.docs_get (str path ∷ []) w).0 ≡ r
          → Adds w.sent (refuse_if_present env path w).1.sent
      go w (ok document) e = rw (refuse_if_present, e) (Adds-one _ w.sent refl)
      go w (err x) e = rw (refuse_if_present, e) (Adds-one _ w.sent refl)

  update-Accounts :
      (path content message base_sha : String) → Accounts (update env path content message base_sha)
  unfolding update ◌>>=◌
  update-Accounts path content message base_sha = resolve-Accounts _ (λ found own.
      bind-Accounts (lift (require_servable env.rt path)) _ (lift-Accounts _) (λ servable.
        bind-Accounts (send_review env found.0 found.1 Method.review_update_change _) _
          (send_review-Accounts found Method.review_update_change _ own)
          (λ result. lift-Accounts (ok (proposed path result)))))

  create-Accounts : (path content message : String) → Accounts (create env path content message)
  unfolding create ◌>>=◌
  create-Accounts path content message = resolve-Accounts _ (λ found own.
      bind-Accounts (lift (require_servable env.rt path)) _ (lift-Accounts _) (λ servable.
        bind-Accounts (refuse_if_present env path) _ (refuse_if_present-Accounts path) (λ absent.
          bind-Accounts (send_review env found.0 found.1 Method.review_open_change _) _
            (send_review-Accounts found Method.review_open_change _ own)
            (λ result. lift-Accounts (ok (proposed path result))))))

  perform-Accounts : (op : Operation) → Accounts (perform op)
  unfolding perform comment get_change list_changes add_reviewer abandon
  perform-Accounts (creates path content message) = create-Accounts path content message
  perform-Accounts (updates path content message base_sha) =
      update-Accounts path content message base_sha
  perform-Accounts (comments change_ref body) = resolved-Accounts _ _
  perform-Accounts (gets change_ref) = resolved-Accounts _ _
  perform-Accounts (lists limit) = resolved-Accounts _ _
  perform-Accounts (adds_reviewer change_ref reviewer) = resolved-Accounts _ _
  perform-Accounts (abandons change_ref message) = resolved-Accounts _ _

  -- Whatever operation of the service runs, however it ends, and whatever was sent before by whomever:
  -- the requests that it sends are new ones before those, and each new one that calls a method of a
  -- review host is under the acting user's own credential for the host that the acting user's
  -- project proposes to, held by the store and not empty.
  pub perform-IsAccountable : (op : Operation) (w : World) → Adds w.sent (perform op w).1.sent
  perform-IsAccountable op w = (perform-Accounts op).accounts w
