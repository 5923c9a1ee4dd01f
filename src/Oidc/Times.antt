-- ===== src/Oidc/Times.antt =====
-- Times of a token against the clock. Code: `_finite_number` and the comparisons of `_check_claims`
-- of mcp_governance_gateway/oidc.py, on Python's floats: a result is the exact one, rounded.
use mcp_governance_gateway.Base.{◌+◌, ◌-◌, ◌^◌, ◌≡◌, Bool, true, false, ltb, arith, if◌then◌else◌}
use mcp_governance_gateway.Base.Int.{pos_part, neg_part, ◌≤ℤ◌, ltb_ℤ, scaled, add_ℤ}
use mcp_governance_gateway.Errors.{overflow_error, Result, ok, err}
use mcp_governance_gateway.Value.{Value, int, float, Float, fraction, nan, infinity, neg_infinity}

-- `time.time()`, `self._skew`, and the rounding of a number to a float.
pub record Clock : Type 0 where
  pub now : Float
  pub skew : Float
  pub rounded : Float → Float

-- `_finite_number`: an int that is no float's size raises OverflowError.
unfoldable pub finite_number : Value → Result Bool
finite_number (int n) =
    if ltb (pos_part n + neg_part n) (2 ^ 1024 - 2 ^ 970) then ok true else err overflow_error
finite_number (float (fraction m e)) = ok true
finite_number _ = ok false

-- a > b
unfoldable pub later : Float → Float → Bool
later (fraction m e) (fraction n f) = ltb_ℤ (scaled n (2 ^ e)) (scaled m (2 ^ f))
later (fraction m e) neg_infinity = true
later infinity (fraction n f) = true
later infinity neg_infinity = true
later _ _ = false

-- a <= b of numbers; what is no number is after nothing.
abbrev pub AtMost : Float → Float → Type 0
AtMost (fraction m e) (fraction n f) = scaled m (2 ^ f) ≤ℤ scaled n (2 ^ e)
AtMost (fraction m e) neg_infinity = ⊥
AtMost infinity (fraction n f) = ⊥
AtMost infinity neg_infinity = ⊥
AtMost _ _ = Unit

-- a + b of finite numbers, before it is rounded.
unfoldable pub plus : Float → Float → Float
plus (fraction m e) (fraction n f) = fraction (add_ℤ (scaled m (2 ^ f)) (scaled n (2 ^ e))) (e + f)
plus _ _ = nan

module _ (clock : Clock) where
  -- float(value) of a number.
  unfoldable pub float_of : Value → Float
  float_of (int n) = clock.rounded (fraction n 0)
  float_of (float x) = x
  float_of _ = nan

  -- a + self._skew
  unfoldable pub with_skew : Float → Float
  unfolding plus
  with_skew a = clock.rounded (plus a clock.skew)

pub later-AtMost : (a b : Float) → later a b ≡ false → AtMost a b
unfolding later
later-AtMost (fraction m e) (fraction n f) h = ground arith
later-AtMost (fraction m e) neg_infinity h = absurd (let no : true ≡ false = h in cc)
later-AtMost (fraction m e) infinity h = tt
later-AtMost (fraction m e) nan h = tt
later-AtMost infinity (fraction n f) h = absurd (let no : true ≡ false = h in cc)
later-AtMost infinity neg_infinity h = absurd (let no : true ≡ false = h in cc)
later-AtMost infinity infinity h = tt
later-AtMost infinity nan h = tt
later-AtMost nan b h = tt
later-AtMost neg_infinity b h = tt
