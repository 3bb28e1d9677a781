-- ===== src/Price.antt =====
-- `using Price = double` (include/types.h): a price is the bit pattern of an IEEE 754 double, and
-- `<`, `<=` and `>` are the comparisons of that format, by which the code orders its prices.
use order_matching_engine.Prelude.{
  ℕ, ◌+◌, ◌-◌, ◌*◌, ◌%◌, ◌^◌, ◌≤◌, ◌<◌, ◌≡◌, refl, Bool, true, false, ◌&&◌, not, arith, ltb, leb,
  if◌then◌else◌,
}

-- The 64 bits: the sign is bit 63, the exponent bits 62 to 52, the mantissa the others.
abbrev pub Price : Type 0
Price = ℕ

-- The bits without the sign.
abbrev magnitude : Price → ℕ
magnitude p = p % 2 ^ 63

-- All exponent bits set, and a mantissa that is not 0.
unfoldable pub is_nan : Price → Bool
is_nan p = ltb (2047 * 2 ^ 52) (magnitude p)

-- Doubles that are no NaN are ordered as their ranks; both zeros have rank 2 ^ 63.
unfoldable pub rank : Price → ℕ
rank p = if ltb p (2 ^ 63) then 2 ^ 63 + magnitude p else 2 ^ 63 - magnitude p

-- `a < b`: false as soon as one side is a NaN.
unfoldable pub lt : Price → Price → Bool
lt a b = not (is_nan a) && (not (is_nan b) && ltb (rank a) (rank b))

-- `a <= b`
unfoldable pub le : Price → Price → Bool
le a b = not (is_nan a) && (not (is_nan b) && leb (rank a) (rank b))

-- `0.0`
abbrev pub zero_price : Price
zero_price = 0

pub rank_bound : (p : Price) → rank p < 2 ^ 64
unfolding rank
rank_bound p = ground arith

pub lt_lem : (a b : Price) → is_nan a ≡ false → is_nan b ≡ false → lt a b ≡ ltb (rank a) (rank b)
unfolding lt
lt_lem a b ha hb = ground arith

pub le_lem : (a b : Price) → is_nan a ≡ false → is_nan b ≡ false → le a b ≡ leb (rank a) (rank b)
unfolding le
le_lem a b ha hb = ground arith

pub lt_of_rank :
    (a b : Price) → is_nan a ≡ false → is_nan b ≡ false → rank a < rank b → lt a b ≡ true
lt_of_rank a b ha hb h = ground (arith, lt_lem a b ha hb)

pub not_lt_of_rank : (a b : Price) → rank b ≤ rank a → lt a b ≡ false
unfolding lt
not_lt_of_rank a b h = ground arith

pub rank_of_lt : (a b : Price) → lt a b ≡ true → rank a < rank b
unfolding lt
rank_of_lt a b h = ground arith

pub lt-nan_left : (a b : Price) → is_nan a ≡ true → lt a b ≡ false
unfolding lt
lt-nan_left a b h = ground arith

pub le-nan_left : (a b : Price) → is_nan a ≡ true → le a b ≡ false
unfolding le
le-nan_left a b h = ground arith

-- 1.0 < 2.5, -1.0 < 0.0, -0.0 and 0.0 are equal, and a NaN is less than nothing.
order_test :
    (lt 0x3FF0000000000000 0x4004000000000000 ≡ true)
    × (lt 0xBFF0000000000000 0 ≡ true)
    × (le 0 0x8000000000000000 ≡ true)
    × (le 0x8000000000000000 0 ≡ true)
    × (lt 0x7FF8000000000000 0 ≡ false)
    × (le 0x7FF8000000000000 0 ≡ false)
unfolding lt le is_nan rank
order_test = (refl, refl, refl, refl, refl, refl)
