-- ===== src/Tools/Args/Bounds.antt =====
-- What a validated argument is, whatever the caller sent.
use Prim.Native.String.{count}
use text.Mathlib.TextLemmas.{length-cons, length-nil}
use mcp_governance_gateway.Base.{
  ℕ, ◌≤◌, String, true, false, ◌&&◌, ◌||◌, none, some, ◌≡◌, refl, arith, ltb, if◌then◌else◌,
  Bool-cases, inl, inr, subst, ◌<>◌,
}
use mcp_governance_gateway.Base.Int.{ℤ, pos, negsuc, ◌≤ℤ◌, ltb_ℤ}
use mcp_governance_gateway.Base.Text.{is_empty, is_space, lstrip, rstrip, strip}
use mcp_governance_gateway.Errors.{Result, ok, err, value_error}
use mcp_governance_gateway.Value.{Value, null, bool, int, str, Args, get_value}
use mcp_governance_gateway.Tools.Args.{required_text, limit, optional_int}

count-rstrip-le : (s : String) → count (rstrip s) ≤ count s
unfolding rstrip
count-rstrip-le String.[] = omega arith
count-rstrip-le (String.◌∷◌ c s) =
    ground (arith, count-rstrip-le s, length-cons c s, length-cons c (rstrip s), length-nil)

count-lstrip-le : (s : String) → count (lstrip s) ≤ count s
unfolding lstrip
count-lstrip-le String.[] = omega arith
count-lstrip-le (String.◌∷◌ c s) = ground (arith, count-lstrip-le s, length-cons c s)

-- Stripping makes a text no longer.
pub count-strip-le : (s : String) → count (strip s) ≤ count s
unfolding strip
count-strip-le s = omega (arith, count-rstrip-le (lstrip s), count-lstrip-le s)

rstrip-rstrip : (s : String) → rstrip (rstrip s) ≡ rstrip s
unfolding rstrip
rstrip-rstrip String.[] = refl
rstrip-rstrip (String.◌∷◌ c s) = elim (Bool-cases (is_space c && is_empty (rstrip s))) [
  | inl e ↦ rw e
  | inr e ↦ rw (e, rstrip-rstrip s, e)
]

lstrip-rstrip-lstrip : (s : String) → lstrip (rstrip (lstrip s)) ≡ rstrip (lstrip s)
unfolding lstrip rstrip
lstrip-rstrip-lstrip String.[] = refl
lstrip-rstrip-lstrip (String.◌∷◌ c s) = elim (Bool-cases (is_space c)) [
  | inl e ↦ rw e (lstrip-rstrip-lstrip s)
  | inr e ↦ rw (e, e, e)
]

-- What is stripped has nothing more to strip.
pub strip-strip : (s : String) → strip (strip s) ≡ strip s
unfolding strip
strip-strip s = rw (lstrip-rstrip-lstrip s, rstrip-rstrip)

-- A text, as `required_text` checks it.
checked : String → String → ℕ → Result String
checked value key max_len =
    if is_empty (strip value)
    then err (value_error ("'" <> key <> "' must be a non-empty string"))
    else if ltb max_len (count value)
    then err (value_error ("'" <> key <> "' is too long"))
    else ok (strip value)

checked-ok :
    (value key : String) (max_len : ℕ) (s : String)
    → checked value key max_len ≡ ok s
    → (is_empty s ≡ false) × (count s ≤ max_len) × (strip s ≡ s)
unfolding checked
checked-ok value key max_len s h = elim (Bool-cases (is_empty (strip value))) [
  | inl e ↦ absurd (let no : err _ ≡ ok s = rw e at h in cc)
  | inr e ↦ elim (Bool-cases (ltb max_len (count value))) [
    | inl long ↦ absurd (let no : err _ ≡ ok s = rw (e, long) at h in cc)
    | inr fits ↦
        let same : ok (strip value) ≡ ok s = rw (e, fits) at h in
        let stripped : strip value ≡ s = cc in
        subst (λ t. (is_empty t ≡ false) × (count t ≤ max_len) × (strip t ≡ t)) stripped
          (e, ground (arith, count-strip-le value), strip-strip value)
  ]
]

-- A required text that is accepted is not empty, has no white space at either end and no more than
-- the allowed number of characters.
pub required_text-ok :
    (arguments : Args) (key : String) (max_len : ℕ) (s : String)
    → required_text arguments key max_len ≡ ok s
    → (is_empty s ≡ false) × (count s ≤ max_len) × (strip s ≡ s)
unfolding required_text checked
required_text-ok arguments key max_len s h = go (get_value arguments key) refl
  where
    go :
        (v : Value)
        → get_value arguments key ≡ v
        → (is_empty s ≡ false) × (count s ≤ max_len) × (strip s ≡ s)
    go (str value) e = checked-ok value key max_len s (rw (required_text, e) at h)
    go _ e = absurd (let no : err _ ≡ ok s = rw (required_text, e) at h in cc)

-- An accepted limit lies between 1 and 50, where the default does.
pub limit-within :
    (value : Value) (default n : ℤ)
    → (pos 1 ≤ℤ default) × (default ≤ℤ pos 50)
    → limit value default ≡ ok n
    → (pos 1 ≤ℤ n) × (n ≤ℤ pos 50)
unfolding limit
limit-within null default n d h = ground arith
limit-within (bool true) default n d h = ground arith
limit-within (bool false) default n d h = ground arith
limit-within (int m) default n d h = ground arith
limit-within _ default n d h = ground arith

not_above : (a b : ℤ) → ltb_ℤ b a ≡ false → a ≤ℤ b
not_above (pos a) (pos b) h = ground arith
not_above (pos a) (negsuc b) h = ground arith
not_above (negsuc a) (pos b) h = ground arith
not_above (negsuc a) (negsuc b) h = ground arith

inside-within : (m lo hi : ℤ) → (ltb_ℤ m lo || ltb_ℤ hi m) ≡ false → (lo ≤ℤ m) × (m ≤ℤ hi)
inside-within m lo hi h = elim (Bool-cases (ltb_ℤ m lo)) [
  | inl e ↦ absurd (let no : true ≡ false = rw e at h in cc)
  | inr e ↦ let f : ltb_ℤ hi m ≡ false = rw e at h in (not_above lo m e, not_above m hi f)
]

-- An accepted optional integer lies between its bounds.
pub optional_int-within :
    (arguments : Args) (key : String) (minimum maximum n : ℤ)
    → optional_int arguments key minimum maximum ≡ ok (some n)
    → (get_value arguments key ≡ int n) × (minimum ≤ℤ n) × (n ≤ℤ maximum)
unfolding optional_int
optional_int-within arguments key minimum maximum n h = go (get_value arguments key) refl
  where
    go :
        (v : Value)
        → get_value arguments key ≡ v
        → (get_value arguments key ≡ int n) × (minimum ≤ℤ n) × (n ≤ℤ maximum)
    go null e = absurd (let no : ok none ≡ ok (some n) = rw (optional_int, e) at h in cc)
    go (int m) e = elim (Bool-cases (ltb_ℤ m minimum || ltb_ℤ maximum m)) [
      | inl out ↦ absurd (let no : err _ ≡ ok (some n) = rw (optional_int, e, out) at h in cc)
      | inr inside ↦
          let same : ok (some m) ≡ ok (some n) = rw (optional_int, e, inside) at h in
          let eq : m ≡ n = cc in
          subst (λ k. (get_value arguments key ≡ int k) × (minimum ≤ℤ k) × (k ≤ℤ maximum)) eq
            (
              e,
              (inside-within m minimum maximum inside).0,
              (inside-within m minimum maximum inside).1,
            )
    ]
    go _ e = absurd (let no : err _ ≡ ok (some n) = rw (optional_int, e) at h in cc)
