-- ===== src/Limits/Window.antt =====
-- The sliding window of a limiter: deques of times against the history of all accepted calls.
use mcp_governance_gateway.Base.{
  ℕ, suc, ◌+◌, ◌*◌, ◌≤◌, ◌≡◌, ◌↔◌, refl, ap, subst, true, ◌&&◌, List, [], ◌∷◌, ◌++◌, arith, length,
  length-append, All, ltb, leb, if◌then◌else◌, Bool-cases, inl, inr,
}
use mcp_governance_gateway.Base.Eq.{◌==◌, string_eq, pair_eq}
use mcp_governance_gateway.Base.Dict.{Dict, get, put, get-put, put-put}
use mcp_governance_gateway.Limits.{User, second, times_of, purge}

-- Every accepted call, the newest first.
abbrev pub History : Type 0
History = List (User × ℕ)

-- How many of a user's accepted calls are less than 60 seconds old.
unfoldable pub recent : ℕ → User → History → ℕ
recent now user [] = 0
recent now user ((who, t) ∷ h) =
    let rest = recent now user h in
    if (who == user) && ltb now (t + 60 * second) then suc rest else rest

abbrev pub IsAtMost : ℕ → List ℕ → Type 0
IsAtMost now times = All (λ t. t ≤ now) times

purge-purge : (n m : ℕ) (times : List ℕ) → n ≤ m → purge m (purge n times) ≡ purge m times
unfolding purge
purge-purge n m [] h = refl
purge-purge n m (t ∷ times) h = ground (arith, purge-purge n m times h)

purge-append :
    (n t : ℕ) (times : List ℕ)
    → IsAtMost t times
    → purge n (times ++ t ∷ []) ≡ purge n times ++ purge n (t ∷ [])
unfolding purge
purge-append n t [] h = refl
purge-append n t (u ∷ times) h = ground (arith, purge-append n t times h.1)

IsAtMost-purge : (n : ℕ) (times : List ℕ) → IsAtMost n times → IsAtMost n (purge n times)
unfolding purge
IsAtMost-purge n [] h = tt
IsAtMost-purge n (t ∷ times) h = elim (Bool-cases (leb (t + 60 * second) n)) [
  | inl e ↦ rw e (IsAtMost-purge n times h.1)
  | inr e ↦ rw e h
]

IsAtMost-weaken : (n m : ℕ) (times : List ℕ) → n ≤ m → IsAtMost n times → IsAtMost m times
IsAtMost-weaken n m [] le h = tt
IsAtMost-weaken n m (t ∷ times) le h = (omega arith, IsAtMost-weaken n m times le h.1)

IsAtMost-append : (n : ℕ) (times : List ℕ) → IsAtMost n times → IsAtMost n (times ++ n ∷ [])
IsAtMost-append n [] h = omega arith
IsAtMost-append n (t ∷ times) h = (h.0, IsAtMost-append n times h.1)

times_of-put :
    (u v : User) (times : List ℕ) (d : Dict User (List ℕ))
    → times_of v (put u times d) ≡ (if u == v then times else times_of v d)
unfolding times_of
times_of-put u v times d = ground (arith, get-put u v times d)

pub user_eq_iff : (u v : User) → ((u == v) ≡ true) ↔ (u ≡ v)
user_eq_iff u v = pair_eq.beq_iff u v

same_user : (u v : User) → (u == v) ≡ true → u ≡ v
same_user u v h = (pair_eq.beq_iff u v).0 h

pub times_of-put_self :
    (u : User) (times : List ℕ) (d : Dict User (List ℕ)) → times_of u (put u times d) ≡ times
times_of-put_self u times d = rw (times_of-put, (pair_eq.beq_iff u u).1 refl)

-- What holds of the new deque for its user, and of the old ones, holds of each deque.
put_ind :
    (P : List ℕ → Type 0) (u v : User) (times : List ℕ) (d : Dict User (List ℕ))
    → (u ≡ v → P times)
    → P (times_of v d)
    → P (times_of v (put u times d))
put_ind P u v times d new old = elim (Bool-cases (u == v)) [
  | inl e ↦ rw (times_of-put, e) (new ((pair_eq.beq_iff u v).0 e))
  | inr e ↦ rw (times_of-put, e) old
]

-- The deques tell of the history, up to the time `clock`, all that a later check asks of it.
pub record Tracks (d : Dict User (List ℕ)) (h : History) (clock : ℕ) : Type 0 where
  pub counted :
      (u : User) (now : ℕ) → clock ≤ now → length (purge now (times_of u d)) ≡ recent now u h
  pub bounded : (u : User) → IsAtMost clock (times_of u d)

pub Tracks-fresh : Tracks [] [] 0
unfolding times_of purge recent get
Tracks-fresh = record { counted = λ u now h. refl; bounded = λ u. tt }

-- Dropping the old times of a user loses nothing.
pub Tracks-purge :
    (u : User) (now : ℕ) {d : Dict User (List ℕ)} {h : History} {clock : ℕ}
    → Tracks d h clock
    → clock ≤ now
    → Tracks (put u (purge now (times_of u d)) d) h now
Tracks-purge u now {d} {h} {clock} t le = record {
  counted = λ v later le'.
      put_ind (λ l. length (purge later l) ≡ recent later v h) u v (purge now (times_of u d)) d
        (λ e. rw (purge-purge now later (times_of u d) le') (
          subst (λ w. length (purge later (times_of u d)) ≡ recent later w h) e
            (t.counted u later (omega arith))))
        (t.counted v later (omega arith));
  bounded = λ v.
      put_ind (IsAtMost now) u v (purge now (times_of u d)) d
        (λ _. IsAtMost-purge now _ (IsAtMost-weaken clock now _ le (t.bounded u)))
        (IsAtMost-weaken clock now _ le (t.bounded v));
}

purge_one :
    (later now : ℕ)
    → length (purge later (now ∷ [])) ≡ (if ltb later (now + 60 * second) then 1 else 0)
unfolding purge
purge_one later now = ground arith

pub recent_cons :
    (later now : ℕ) (u v : User) (h : History)
    → recent later v ((u, now) ∷ h)
      ≡ recent later v h + (if u == v then (if ltb later (now + 60 * second) then 1 else 0) else 0)
unfolding recent
recent_cons later now u v h = ground arith

-- Adding an accepted call to its user's deque and to the history keeps the two together.
pub Tracks-append :
    (u : User) (now : ℕ) {d : Dict User (List ℕ)} {h : History}
    → Tracks d h now
    → Tracks (put u (times_of u d ++ now ∷ []) d) ((u, now) ∷ h) now
Tracks-append u now {d} {h} t = record {
  counted = λ v later le. elim (Bool-cases (u == v)) [
    | inl e ↦
        rw (times_of-put, e, recent_cons, e, ← same_user u v e)
          (omega (
            arith,
            ap length (purge-append later now (times_of u d) (t.bounded u)),
            length-append {0} (purge later (times_of u d)) (purge later (now ∷ [])),
            purge_one later now,
            t.counted u later le,
          ))
    | inr e ↦ rw (times_of-put, e, recent_cons, e) (omega (arith, t.counted v later le))
  ];
  bounded = λ v.
      put_ind (IsAtMost now) u v (times_of u d ++ now ∷ []) d
        (λ _. IsAtMost-append now _ (t.bounded u)) (t.bounded v);
}

pub Tracks-later :
    (now : ℕ) {d : Dict User (List ℕ)} {h : History} {clock : ℕ}
    → Tracks d h clock
    → clock ≤ now
    → Tracks d h now
Tracks-later now {d} {h} {clock} t le = record {
  counted = λ u later le'. t.counted u later (omega arith);
  bounded = λ u. IsAtMost-weaken clock now _ le (t.bounded u);
}

-- A call that is granted: the old times are dropped and the new one is added, in one write.
pub Tracks-grant :
    (u : User) (now : ℕ) {d : Dict User (List ℕ)} {h : History} {clock : ℕ}
    → Tracks d h clock
    → clock ≤ now
    → Tracks (put u (purge now (times_of u d) ++ now ∷ []) d) ((u, now) ∷ h) now
Tracks-grant u now {d} {h} t le =
    let both = Tracks-append u now (Tracks-purge u now t le) in
    rw (times_of-put_self, put-put) at both

-- Calls only grow older.
pub recent-le :
    (now later : ℕ) (u : User) (h : History) → now ≤ later → recent later u h ≤ recent now u h
unfolding recent
recent-le now later u [] le = omega arith
recent-le now later u ((v, t) ∷ h) le = ground (arith, recent-le now later u h le)
