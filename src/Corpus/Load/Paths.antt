-- ===== src/Corpus/Load/Paths.antt =====
-- What the tests of a path come to. Code: `_load_docs` of mcp_governance_gateway/docs_backend.py.
use Prim.Native.Char.{Char, code}
use text.Mathlib.TextLemmas.{nil-append, cons-append}
use text.Mathlib.TextEquality.{Char-path}
use mcp_governance_gateway.Base.{
  String, ◌<>◌, ◌≡◌, refl, sym, ap, ◌∙◌, ◌⊎◌, inl, inr, true, false, ◌||◌, List, [], ◌∷◌, arith,
  eqb, eqb_iff, subst, Bool-cases,
}
use mcp_governance_gateway.Base.Text.{is_empty, split, cons_char, starts_with}
use mcp_governance_gateway.Base.Text.Parts.{starts_with-split, ends_with-split}
use mcp_governance_gateway.Base.Eq.{◌==◌, string_eq}
use mcp_governance_gateway.Corpus.Load.{real_parts, any_hidden, is_served}

-- A part of a path ends here.
abbrev pub Ends : String → Type 0
Ends rest = (rest ≡ "") ⊎ ((more : String) × (rest ≡ "/" <> more))

-- A path that is served: a Markdown file under raw/ or wiki/, and no part of it behind the first one
-- begins with a full stop, but for a lone one, which names the same directory.
pub record IsServed (rel : String) : Type 0 where
  pub markdown : (stem : String) × (rel ≡ stem <> ".md")
  pub place :
      ((rest : String) × (rel ≡ "raw/" <> rest)) ⊎ ((rest : String) × (rel ≡ "wiki/" <> rest))
  pub plain : (before after : String) → rel ≡ before <> ("/." <> after) → Ends after

abbrev behind_first : List String → List String
behind_first [] = []
behind_first (p ∷ ps) = ps

any_hidden-behind :
    (ps : List String)
    → any_hidden (real_parts (behind_first ps)) ≡ true
    → any_hidden (real_parts ps) ≡ true
unfolding real_parts any_hidden
any_hidden-behind [] h = h
any_hidden-behind (p ∷ ps) h = elim (Bool-cases (is_empty p || (p == "."))) [
  | inl skipped ↦ rw skipped h
  | inr kept ↦ rw kept (ground arith)
]

behind-cons_char : (c : Char) (ps : List String) → behind_first (cons_char c ps) ≡ behind_first ps
unfolding cons_char
behind-cons_char c [] = refl
behind-cons_char c (p ∷ ps) = refl

-- A part that begins with a full stop and another character is hidden.
long_part-hidden :
    (d : Char) (p : String) (ps : List String)
    → any_hidden (real_parts (String.◌∷◌ "." (String.◌∷◌ d p) ∷ ps)) ≡ true
unfolding real_parts any_hidden starts_with
long_part-hidden d p ps = elim (Bool-cases (String.◌∷◌ "." (String.◌∷◌ d p) == ".")) [
  | inr kept ↦ rw kept refl
  | inl lone ↦
      let same = (string_eq.beq_iff (String.◌∷◌ "." (String.◌∷◌ d p)) ".").0 lone in
      let longer : false ≡ true = ap (λ s. is_empty (rest_of s)) same in absurd (cc)
]
  where
    rest_of : String → String
    rest_of String.[] = ""
    rest_of (String.◌∷◌ c s) = s

cons_char-hidden :
    (d : Char) (ps : List String) → any_hidden (real_parts (cons_char "." (cons_char d ps))) ≡ true
unfolding cons_char
cons_char-hidden d [] = long_part-hidden d "" []
cons_char-hidden d (p ∷ ps) = long_part-hidden d p ps

-- So is the part behind "/." where it goes on.
part-hidden :
    (d : Char) (s : String)
    → eqb (code d) b'/' ≡ false
    → any_hidden (real_parts (cons_char "." (split b'/' (String.◌∷◌ d s)))) ≡ true
unfolding split
part-hidden d s inside = rw inside (cons_char-hidden d (split b'/' s))

behind-hidden :
    (before : String) (d : Char) (s : String)
    → eqb (code d) b'/' ≡ false
    → any_hidden (real_parts (behind_first (split b'/' (before <> ("/." <> String.◌∷◌ d s)))))
      ≡ true
unfolding split
behind-hidden String.[] d s inside =
    rw (nil-append, cons-append, cons-append, nil-append) (part-hidden d s inside)
behind-hidden (String.◌∷◌ c before) d s inside =
    rw cons-append (elim (Bool-cases (eqb (code c) b'/')) [
      | inl slash ↦ rw slash (any_hidden-behind _ (behind-hidden before d s inside))
      | inr other ↦ rw (other, behind-cons_char) (behind-hidden before d s inside)
    ])

is_served-plain :
    (rel before after : String)
    → any_hidden (real_parts (split b'/' rel)) ≡ false
    → rel ≡ before <> ("/." <> after)
    → Ends after
is_served-plain rel before String.[] h e = inl refl
is_served-plain rel before (String.◌∷◌ d s) h e = elim (Bool-cases (eqb (code d) b'/')) [
  | inl slash ↦ inr (
    s,
    ap (λ x. String.◌∷◌ x s) (Char-path d "/" ((eqb_iff (code d) b'/').0 slash))
        ∙ sym (cons-append "/" "" s ∙ ap (String.◌∷◌ "/") (nil-append s)),
  )
  | inr inside ↦
      let hidden : any_hidden (real_parts (split b'/' rel)) ≡ true =
        any_hidden-behind (split b'/' rel) (
          subst (λ r. any_hidden (real_parts (behind_first (split b'/' r))) ≡ true) (sym e)
            (behind-hidden before d s inside)) in
      absurd (cc)
]

pub is_served-IsServed : (rel : String) → is_served rel ≡ true → IsServed rel
unfolding is_served
is_served-IsServed rel h = record {
  markdown = ends_with-split rel ".md" (ground arith);
  place = elim (Bool-cases (starts_with rel "raw/")) [
    | inl raw ↦ inl (starts_with-split rel "raw/" raw)
    | inr other ↦ inr (starts_with-split rel "wiki/" (ground arith))
  ];
  plain = λ before after e. is_served-plain rel before after (ground arith) e;
}
