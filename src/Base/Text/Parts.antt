-- ===== src/Base/Text/Parts.antt =====
-- Where a text begins, ends and has a separator.
use Prim.Native.Nat.{ℕ}
use Prim.Native.Char.{Char, code}
use Prim.Native.String.{String, ◌++◌}
use text.Mathlib.TextLemmas.{nil-append, cons-append}
use text.Mathlib.TextEquality.{Char-path}
use mathlib.Core.Path.{◌≡◌, refl, sym, ap, ◌∙◌}
use mathlib.Core.Bool.{true, false, ◌&&◌}
use mathlib.Core.Logic.{◌⊎◌, inl, inr}
use native.Mathlib.Omega.{arith}
use mcp_governance_gateway.Base.Tests.{eqb, eqb_iff, Bool-cases}
use mcp_governance_gateway.Base.Text.{is_empty, has_char, last_part, starts_with, ends_with}

pub starts_with-split : (s p : String) → starts_with s p ≡ true → (rest : String) × (s ≡ p ++ rest)
unfolding starts_with
starts_with-split s String.[] h = (s, sym (nil-append s))
starts_with-split String.[] (String.◌∷◌ d p) h = absurd (cc)
starts_with-split (String.◌∷◌ c s) (String.◌∷◌ d p) h =
    let same : code c ≡ code d = ground (arith, eqb_iff (code c) (code d)) in
    let (rest, e) = starts_with-split s p (ground arith) in
    (
      rest,
      ap (λ x. String.◌∷◌ x s) (Char-path c d same)
          ∙ ap (String.◌∷◌ d) e
          ∙ sym (cons-append d p rest),
    )

pub is_empty-eq : (s : String) → is_empty s ≡ true → s ≡ ""
is_empty-eq String.[] h = refl
is_empty-eq (String.◌∷◌ c s) h = absurd (cc)

starts_with-both : (s p : String) → starts_with s p ≡ true → starts_with p s ≡ true → s ≡ p
unfolding starts_with
starts_with-both String.[] String.[] h k = refl
starts_with-both (String.◌∷◌ c s) String.[] h k = absurd (cc)
starts_with-both String.[] (String.◌∷◌ d p) h k = absurd (cc)
starts_with-both (String.◌∷◌ c s) (String.◌∷◌ d p) h k =
    let same : code c ≡ code d = ground (arith, eqb_iff (code c) (code d)) in
    ap (λ x. String.◌∷◌ x s) (Char-path c d same)
    ∙ ap (String.◌∷◌ d) (starts_with-both s p (ground arith) (ground arith))

pub ends_with-split : (s p : String) → ends_with s p ≡ true → (stem : String) × (s ≡ stem ++ p)
unfolding ends_with
ends_with-split String.[] p h = ("", sym (is_empty-eq p h) ∙ sym (nil-append p))
ends_with-split (String.◌∷◌ c s) p h =
    elim (Bool-cases (starts_with (String.◌∷◌ c s) p && starts_with p (String.◌∷◌ c s))) [
      | inl both ↦ (
        "",
        starts_with-both (String.◌∷◌ c s) p (ground arith) (ground arith) ∙ sym (nil-append p),
      )
      | inr other ↦
          let (stem, e) = ends_with-split s p (ground arith) in
          (String.◌∷◌ c stem, ap (String.◌∷◌ c) e ∙ sym (cons-append c stem p))
    ]

-- The full stop.
abbrev full_stop : ℕ
full_stop = b'.'

pub has_char-append : (head part : String) → has_char full_stop (head ++ ("." ++ part)) ≡ true
unfolding has_char
has_char-append String.[] part = rw (nil-append, cons-append) refl
has_char-append (String.◌∷◌ c head) part =
    rw cons-append (ground (arith, has_char-append head part))

last_part-inner :
    (c : Char) (s : String)
    → has_char full_stop s ≡ true
    → last_part full_stop (String.◌∷◌ c s) ≡ last_part full_stop s
unfolding last_part
last_part-inner c s more = elim (Bool-cases (eqb (code c) full_stop)) [
  | inl e ↦ rw (e, more)
  | inr e ↦ rw (e, more)
]

pub last_part-whole : (s : String) → has_char full_stop s ≡ false → last_part full_stop s ≡ s
unfolding last_part has_char
last_part-whole String.[] h = refl
last_part-whole (String.◌∷◌ c s) h =
    let first : eqb (code c) full_stop ≡ false = ground arith in
    let others : has_char full_stop s ≡ false = ground arith in
    rw (first, others, last_part-whole s others)

pub last_part-append :
    (head part : String)
    → has_char full_stop part ≡ false
    → last_part full_stop (head ++ ("." ++ part)) ≡ part
unfolding last_part
last_part-append String.[] part h = rw (nil-append, cons-append, nil-append, h) refl
last_part-append (String.◌∷◌ c head) part h = rw cons-append (
    last_part-inner c (head ++ ("." ++ part)) (has_char-append head part)
    ∙ last_part-append head part h)

-- The text is the part, or ends in a full stop and the part.
abbrev pub EndsIn : String → String → Type 0
EndsIn s part = (s ≡ part) ⊎ ((head : String) × (s ≡ head ++ ("." ++ part)))

last_part-split :
    (s : String)
    → has_char full_stop s ≡ true
    → (head : String) × (s ≡ head ++ ("." ++ last_part full_stop s))
unfolding last_part has_char
last_part-split String.[] h = absurd (cc)
last_part-split (String.◌∷◌ c s) h = elim (Bool-cases (has_char full_stop s)) [
  | inl more ↦
      let (head, e) = last_part-split s more in
      (
        String.◌∷◌ c head,
        ap (String.◌∷◌ c) e
            ∙ sym (cons-append c head _)
            ∙ ap (λ part. String.◌∷◌ c head ++ ("." ++ part)) (sym (last_part-inner c s more)),
      )
  | inr last ↦
      let same : eqb (code c) full_stop ≡ true = ground arith in
      let ends : last_part full_stop (String.◌∷◌ c s) ≡ s = rw (same, last) in
      (
        "",
        rw (nil-append, cons-append, nil-append, ends)
            (ap (λ x. String.◌∷◌ x s) (Char-path c _ ((eqb_iff (code c) full_stop).0 same))),
      )
]

pub last_part-EndsIn : (s : String) → EndsIn s (last_part full_stop s)
last_part-EndsIn s = elim (Bool-cases (has_char full_stop s)) [
  | inl some_stop ↦ inr (last_part-split s some_stop)
  | inr none ↦ inl (sym (last_part-whole s none))
]

pub EndsIn-last_part :
    (s part : String)
    → has_char full_stop part ≡ false
    → EndsIn s part
    → last_part full_stop s ≡ part
EndsIn-last_part s part free (inl e) = ap (last_part full_stop) e ∙ last_part-whole part free
EndsIn-last_part s part free (inr (head, e)) =
    ap (last_part full_stop) e ∙ last_part-append head part free
