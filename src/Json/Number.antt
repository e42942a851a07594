-- ===== src/Json/Number.antt =====
-- Python's numbers. An `int` is unbounded; a finite `float` is exactly m / 2 ^ k for an integer m,
-- so comparisons, which Python makes exactly also between `int` and `float`, are computed here.
use adaptive_agent.Prelude.{ℕ, ◌+◌, ◌-◌, ◌*◌, ◌^◌, Bool, true, false, not, ◌&&◌, ltb}

-- `negsuc n` is -(n + 1).
pub data ℤ : Type 0 where
  pos : ℕ → ℤ
  negsuc : ℕ → ℤ

-- `finite m k` is m / 2 ^ k; `infinite true` is +inf.
pub data Float : Type 0 where
  finite : ℤ → ℕ → Float
  infinite : Bool → Float
  nan : Float

abbrev pub lt_ℤ : ℤ → ℤ → Bool
lt_ℤ (pos a) (pos b) = ltb a b
lt_ℤ (pos a) (negsuc b) = false
lt_ℤ (negsuc a) (pos b) = true
lt_ℤ (negsuc a) (negsuc b) = ltb b a

abbrev pub scale : ℤ → ℕ → ℤ
scale (pos a) p = pos (a * p)
scale (negsuc a) p = negsuc ((a + 1) * p - 1)

abbrev pub from_int : ℤ → Float
from_int n = finite n 0

-- x < y; a comparison with a NaN is false.
unfoldable pub lt : Float → Float → Bool
lt (finite a j) (finite b k) = lt_ℤ (scale a (2 ^ k)) (scale b (2 ^ j))
lt (finite a j) (infinite s) = s
lt (infinite s) (finite b k) = not s
lt (infinite s) (infinite t) = not s && t
lt (finite a j) nan = false
lt (infinite s) nan = false
lt nan y = false

abbrev pub is_nan : Float → Bool
is_nan nan = true
is_nan (finite m k) = false
is_nan (infinite s) = false

-- x <= y
unfoldable pub le : Float → Float → Bool
unfolding lt
le x y = not (is_nan x) && not (is_nan y) && not (lt y x)

-- x == y
unfoldable pub same : Float → Float → Bool
unfolding le
same x y = le x y && le y x

-- math.isfinite
abbrev pub is_finite : Float → Bool
is_finite (finite m k) = true
is_finite (infinite s) = false
is_finite nan = false
