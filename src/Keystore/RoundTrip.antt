-- ===== src/Keystore/RoundTrip.antt =====
-- What is enrolled is what is read back, and nothing else changes.
-- Code: `get`, `set` and `clear` of mcp_governance_gateway/redmine_keystore.py.
use mcp_governance_gateway.Base.{
  String, ◌≡◌, ◌≢◌, refl, sym, ap, ◌∙◌, subst, ◌⊎◌, inl, inr, true, false, Option, none, some,
  arith, Bool-cases, Option-cases,
}
use mcp_governance_gateway.Base.Dict.{get}
use mcp_governance_gateway.Base.Eq.{◌==◌, string_eq, option_eq, pair_eq, nat_eq, list_eq}
use mcp_governance_gateway.Errors.{Result, ok, err}
use mcp_governance_gateway.Hotfile.{Access, refresh, publish}
use mcp_governance_gateway.Value.{Args, get_value}
use mcp_governance_gateway.Keystore.{
  key_ok, IsInverse, Keys, Records, CredentialStore, get_record, is_degraded, master_of, unsealed,
  find, get_key, aad_of,
}
use mcp_governance_gateway.Keystore.Write.{
  Drawn, actor_map, new_record, with_record, written, active, set_key,
}
use mcp_governance_gateway.Keystore.Enrolled.{
  added, actor_map-IsNested, added_own, added_other, added_actor, with_record-added,
}

module _ (keys : Keys) where
  active-master :
      (key_id master : String)
      → active keys ≡ some (key_id, master)
      → (is_degraded keys ≡ false) × (master_of keys (some key_id) ≡ some master)
  unfolding active is_degraded
  active-master key_id master h = elim (Bool-cases keys.available) [
    | inr off ↦ absurd (let no : none ≡ some (key_id, master) = rw (active, off) at h in cc)
    | inl on ↦ go on keys.active_key_id refl
  ]
    where
      go :
          keys.available ≡ true
          → (o : Option String) → keys.active_key_id ≡ o
          → (is_degraded keys ≡ false) × (master_of keys (some key_id) ≡ some master)
      go on none e = absurd (let no : none ≡ some (key_id, master) = rw (active, on, e) at h in cc)
      go on (some k) e = elim (Option-cases (get k keys.master_keys)) [
        | inl no_key ↦
            absurd (let no : none ≡ some (key_id, master) = rw (active, on, e, no_key) at h in cc)
        | inr (m, found) ↦
            let same : some (k, m) ≡ some (key_id, master) = rw (active, on, e, found) at h in
            let same_id : k ≡ key_id = ground arith in
            let same_master : m ≡ master = ground arith in
            (
              rw (is_degraded, on, e, found),
              subst (λ x. get x keys.master_keys ≡ some master) same_id
                  (found ∙ ap some same_master),
            )
      ]

  -- Reading is a function of the record alone.
  find-cong :
      (before after : Records) (actor backend : String)
      → get_record after actor backend ≡ get_record before actor backend
      → find keys after actor backend ≡ find keys before actor backend
  unfolding find
  find-cong before after actor backend h = rw (find, h)

  find-new :
      (records : Records) (key_id master actor plaintext backend : String) (login : Option String)
      (drawn : Drawn)
      → IsInverse keys.cipher
      → active keys ≡ some (key_id, master)
      → get_record records actor backend
        ≡ some (new_record keys master key_id actor plaintext login backend drawn)
      → find keys records actor backend ≡ (key_ok, some plaintext)
  unfolding find unsealed new_record aad_of get_value get
  find-new records key_id master actor plaintext backend login drawn inverse on h =
      let (fine, found) = active-master key_id master on in rw (find, h, fine, found, inverse)

  -- A read of a file that nobody wrote since it was last seen reads the records as they are.
  get_key-unchanged :
      (a : Access Records) (actor backend : String) (s : CredentialStore)
      → s.sig ≡ some a.seen
      → (get_key keys a actor backend s).0 ≡ find keys s.value actor backend
  unfolding get_key refresh
  get_key-unchanged a actor backend s h =
      let same : option_eq.beq (some a.seen) s.sig ≡ true =
        (option_eq.beq_iff (some a.seen) s.sig).1 (sym h) in
      rw same

  -- What a write that succeeds leaves.
  record Wrote (a : Access Records) (drawn : Drawn) (actor plaintext : String)
      (login : Option String) (backend : String) (s : CredentialStore) : Type 0 where
    key_id : String
    master : String
    map : Args
    on : active keys ≡ some (key_id, master)
    mapped : actor_map (get actor (refresh true false a s).value) ≡ ok map
    value :
        (set_key keys a drawn actor plaintext login backend s).1.value
        ≡ added keys actor backend
            (new_record keys master key_id actor plaintext login backend drawn)
            (refresh true false a s).value
            map
    signed : (set_key keys a drawn actor plaintext login backend s).1.sig ≡ some drawn.signature

  module _ (a : Access Records) (drawn : Drawn) (actor plaintext : String) (login : Option String)
      (backend : String) (s : CredentialStore) where
    -- The write with an active key.
    written-Wrote :
        (key_id master : String)
        → active keys ≡ some (key_id, master)
        → (r : Result Records)
        → with_record keys actor backend
            (new_record keys master key_id actor plaintext login backend drawn)
            (refresh true false a s).value
          ≡ r
        → (set_key keys a drawn actor plaintext login backend s).0 ≡ ok tt
        → Wrote a drawn actor plaintext login backend s
    unfolding set_key written publish
    written-Wrote key_id master on (ok after) e h =
        let (map, mapped, same) =
          with_record-added keys actor backend
            (new_record keys master key_id actor plaintext login backend drawn)
            (refresh true false a s).value after e in
        record {
          key_id = key_id;
          master = master;
          map = map;
          on = on;
          mapped = mapped;
          value = rw (set_key, on, e) same;
          signed = rw (set_key, on, e);
        }
    written-Wrote key_id master on (err x) e h =
        absurd (let no : err x ≡ ok tt = rw (set_key, on, e) at h in cc)

    set_key-Wrote :
        (set_key keys a drawn actor plaintext login backend s).0 ≡ ok tt
        → Wrote a drawn actor plaintext login backend s
    unfolding set_key
    set_key-Wrote h = elim (Option-cases (active keys)) [
      | inl off ↦ absurd (let no : err _ ≡ ok tt = rw (set_key, off) at h in cc)
      | inr ((key_id, master), on) ↦ written-Wrote key_id master on _ refl h
    ]

-- What `set` stored for an actor and a backend is what `get` reads back, if the file has not been
-- written by another since; the cipher opens what it sealed.
pub get_key-set_key :
    (keys : Keys) (a a' : Access Records) (drawn : Drawn) (actor plaintext : String)
    (login : Option String) (backend : String) (s : CredentialStore)
    → IsInverse keys.cipher
    → (set_key keys a drawn actor plaintext login backend s).0 ≡ ok tt
    → a'.seen ≡ drawn.signature
    → (get_key keys a' actor backend (set_key keys a drawn actor plaintext login backend s).1).0
      ≡ (key_ok, some plaintext)
get_key-set_key keys a a' drawn actor plaintext login backend s inverse h seen =
    let wrote = set_key-Wrote keys a drawn actor plaintext login backend s h in
    let rec = new_record keys wrote.master wrote.key_id actor plaintext login backend drawn in
    let old = (refresh true false a s).value in
    get_key-unchanged keys a' actor backend (set_key keys a drawn actor plaintext login backend s).1
      (wrote.signed ∙ ap some (sym seen))
    ∙ ap (λ (r : Records). find keys r actor backend) wrote.value
    ∙ find-new keys _ wrote.key_id wrote.master actor plaintext backend login drawn inverse wrote.on
        (added_own keys actor backend rec old wrote.map
          (actor_map-IsNested (get actor old) wrote.map wrote.mapped))

-- Storing a credential leaves what `get` reads for another actor, and for another backend of the
-- same actor, as it was in the file that the write was based on; also where the actor's entry was of
-- the old form with one credential.
pub set_key-others :
    (keys : Keys) (a a' : Access Records) (drawn : Drawn) (actor plaintext : String)
    (login : Option String) (backend : String) (s : CredentialStore) (who other : String)
    → (actor ≢ who) ⊎ (backend ≢ other)
    → (set_key keys a drawn actor plaintext login backend s).0 ≡ ok tt
    → a'.seen ≡ drawn.signature
    → (get_key keys a' who other (set_key keys a drawn actor plaintext login backend s).1).0
      ≡ find keys (refresh true false a s).value who other
set_key-others keys a a' drawn actor plaintext login backend s who other distinct h seen =
    get_key-unchanged keys a' who other (set_key keys a drawn actor plaintext login backend s).1
      (wrote.signed ∙ ap some (sym seen))
    ∙ ap (λ (r : Records). find keys r who other) wrote.value
    ∙ find-cong keys old (added keys actor backend rec old wrote.map) who other kept
  where
    wrote : Wrote keys a drawn actor plaintext login backend s
    wrote = set_key-Wrote keys a drawn actor plaintext login backend s h

    rec : Args
    rec = new_record keys wrote.master wrote.key_id actor plaintext login backend drawn

    old : Records
    old = (refresh true false a s).value

    kept :
        get_record (added keys actor backend rec old wrote.map) who other ≡ get_record old who other
    kept = elim distinct [
      | inl actors ↦ added_actor keys actor backend rec old wrote.map who other actors
      | inr backends ↦ elim (Bool-cases (actor == who)) [
        | inl e ↦
            let same : actor ≡ who = (string_eq.beq_iff actor who).0 e in
            subst
              (λ x.
                get_record (added keys actor backend rec old wrote.map) x other
                ≡ get_record old x other)
              same (added_other keys actor backend rec old wrote.map other wrote.mapped backends)
        | inr e ↦ added_actor keys actor backend rec old wrote.map who other (λ same.
            let yes : (actor == who) ≡ true = (string_eq.beq_iff actor who).1 same in
            let no : true ≡ false = sym yes ∙ e in absurd (cc))
      ]
    ]
