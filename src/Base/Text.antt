-- ===== src/Base/Text.antt =====
-- Python's `str`, as the native text: a sequence of code points.
pub mod Join
pub mod Parts
use Prim.Native.Nat.{ℕ, zero, suc, ◌+◌, ◌/◌, ◌%◌}
use Prim.Native.Char.{Char, code}
use Prim.Native.String.{String, ◌++◌}
use mathlib.Core.Path.{◌≡◌, refl}
use mathlib.Core.Bool.{Bool, true, false, ◌&&◌, ◌||◌, not}
use mathlib.Core.List as L
use mathlib.Core.List.{List}
use mcp_governance_gateway.Base.Tests.{leb, ltb, eqb, if◌then◌else◌}

abbrev pub is_empty : String → Bool
is_empty String.[] = true
is_empty (String.◌∷◌ c s) = false

-- The code points that `str.isspace` accepts and `str.strip` removes.
unfoldable pub is_space : Char → Bool
is_space c =
    let n = code c in
    (leb 9 n && leb n 13)
    || (leb 28 n && leb n 32)
    || eqb n 0x85
    || eqb n 0xa0
    || eqb n 0x1680
    || (leb 0x2000 n && leb n 0x200a)
    || eqb n 0x2028
    || eqb n 0x2029
    || eqb n 0x202f
    || eqb n 0x205f
    || eqb n 0x3000

-- s.lstrip()
unfoldable pub lstrip : String → String
unfolding is_space
lstrip String.[] = ""
lstrip (String.◌∷◌ c s) = if is_space c then lstrip s else String.◌∷◌ c s

-- s.rstrip()
unfoldable pub rstrip : String → String
unfolding is_space
rstrip String.[] = ""
rstrip (String.◌∷◌ c s) =
    let rest = rstrip s in if is_space c && is_empty rest then "" else String.◌∷◌ c rest

-- s.strip()
unfoldable pub strip : String → String
unfolding lstrip rstrip
strip s = rstrip (lstrip s)

-- s.lower(), for text that is compared with lower-case ASCII letters other than `i` and `k`: no
-- other code point is lowered to one of those.
unfoldable pub lower_code : ℕ → ℕ
lower_code n = if leb b'A' n && leb n b'Z' then n + 32 else n

unfoldable pub codes : String → List ℕ
codes String.[] = L.[]
codes (String.◌∷◌ c s) = L.◌∷◌ (code c) (codes s)

unfoldable pub lower : String → List ℕ
unfolding codes lower_code
lower s = L.map lower_code (codes s)

-- Whether a code point occurs in the text.
unfoldable pub has_char : ℕ → String → Bool
has_char n String.[] = false
has_char n (String.◌∷◌ c s) = eqb (code c) n || has_char n s

-- s.partition(sep): what is before and behind the first separator, "" behind where there is none.
unfoldable pub before : ℕ → String → String
before n String.[] = ""
before n (String.◌∷◌ c s) =
    let rest = before n s in if eqb (code c) n then "" else String.◌∷◌ c rest

unfoldable pub behind : ℕ → String → String
behind n String.[] = ""
behind n (String.◌∷◌ c s) = if eqb (code c) n then s else behind n s

-- s.split(sep)[-1], with the text read so far.
unfoldable pub last_part : ℕ → String → String
unfolding has_char
last_part n String.[] = ""
last_part n (String.◌∷◌ c s) =
    let rest = last_part n s in
    if eqb (code c) n && not (has_char n s)
    then s
    else if has_char n s
    then rest
    else String.◌∷◌ c rest

-- s.split(sep): one part more than there are separators.
unfoldable pub cons_char : Char → List String → List String
cons_char c L.[] = L.◌∷◌ (String.◌∷◌ c "") L.[]
cons_char c (L.◌∷◌ p ps) = L.◌∷◌ (String.◌∷◌ c p) ps

unfoldable pub split : ℕ → String → List String
unfolding cons_char
split n String.[] = L.◌∷◌ "" L.[]
split n (String.◌∷◌ c s) =
    let rest = split n s in if eqb (code c) n then L.◌∷◌ "" rest else cons_char c rest

-- s.split()
unfoldable pub words : String → List String
unfolding is_space cons_char
words String.[] = L.[]
words (String.◌∷◌ c s) =
    let rest = words s in
    if is_space c
    then rest
    else if starts_word s
    then L.◌∷◌ (String.◌∷◌ c "") rest
    else cons_char c rest
  where
    -- No character of a word is next.
    starts_word : String → Bool
    starts_word String.[] = true
    starts_word (String.◌∷◌ d t) = is_space d

-- s.rstrip(c) for one character.
unfoldable pub rstrip_char : ℕ → String → String
rstrip_char n String.[] = ""
rstrip_char n (String.◌∷◌ c s) =
    let rest = rstrip_char n s in if eqb (code c) n && is_empty rest then "" else String.◌∷◌ c rest

-- s.lstrip(c) for one character.
unfoldable pub lstrip_char : ℕ → String → String
lstrip_char n String.[] = ""
lstrip_char n (String.◌∷◌ c s) =
    let rest = lstrip_char n s in if eqb (code c) n then rest else String.◌∷◌ c s

-- all(test(c) for c in s)
unfoldable pub all_codes : (ℕ → Bool) → String → Bool
all_codes test String.[] = true
all_codes test (String.◌∷◌ c s) = test (code c) && all_codes test s

-- s.startswith(p)
unfoldable pub starts_with : String → String → Bool
starts_with s String.[] = true
starts_with String.[] (String.◌∷◌ d p) = false
starts_with (String.◌∷◌ c s) (String.◌∷◌ d p) = eqb (code c) (code d) && starts_with s p

-- s.endswith(p)
unfoldable pub ends_with : String → String → Bool
unfolding starts_with
ends_with String.[] p = is_empty p
ends_with (String.◌∷◌ c s) p =
    (starts_with (String.◌∷◌ c s) p && starts_with p (String.◌∷◌ c s)) || ends_with s p

-- sep.join(parts)
unfoldable pub join : String → List String → String
join sep L.[] = ""
join sep (L.◌∷◌ p L.[]) = p
join sep (L.◌∷◌ p (L.◌∷◌ q ps)) = p ++ (sep ++ join sep (L.◌∷◌ q ps))

-- s[:n]
unfoldable pub take : ℕ → String → String
take zero s = ""
take (suc n) String.[] = ""
take (suc n) (String.◌∷◌ c s) = String.◌∷◌ c (take n s)

-- str(n) of a natural number. The fuel is more than the number of digits.
unfoldable pub digit : ℕ → String
digit zero = "0"
digit (suc zero) = "1"
digit (suc (suc zero)) = "2"
digit (suc (suc (suc zero))) = "3"
digit (suc (suc (suc (suc zero)))) = "4"
digit (suc (suc (suc (suc (suc zero))))) = "5"
digit (suc (suc (suc (suc (suc (suc zero)))))) = "6"
digit (suc (suc (suc (suc (suc (suc (suc zero))))))) = "7"
digit (suc (suc (suc (suc (suc (suc (suc (suc zero)))))))) = "8"
digit _ = "9"

unfoldable pub digits : ℕ → ℕ → String
unfolding digit
digits zero n = ""
digits (suc fuel) n =
    let high = digits fuel (n / 10) ++ digit (n % 10) in if ltb n 10 then digit n else high

unfoldable pub show : ℕ → String
unfolding digits
show n = digits (suc n) n

show_runs : show 1200 ≡ "1200"
unfolding show
show_runs = refl

strip_runs : strip "  a b \n" ≡ "a b"
unfolding strip
strip_runs = refl

last_part_runs : last_part b'.' "memory.lesson.save" ≡ "save"
unfolding last_part
last_part_runs = refl

last_part_whole : last_part b'.' "save" ≡ "save"
unfolding last_part
last_part_whole = refl

words_run : words " 100644  blob a" ≡ L.◌∷◌ "100644" (L.◌∷◌ "blob" (L.◌∷◌ "a" L.[]))
unfolding words
words_run = refl
