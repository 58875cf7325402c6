-- ===== src/Difficulty/Retarget.antt =====
-- Bounds and direction of the retarget.
use native.Mathlib.Nat.{mul-le-mul_left}
use poai.Prelude.{ℕ, suc, ◌-◌, ◌*◌, ◌/◌, ◌≤◌, ◌<◌, ◌≡◌, refl, ap, arith, nat_eq, bytes_eq}
use poai.Prelude.Int.{ℤ, pos, negsuc, neg_part, ◌*ℤ◌, ◌≤ℤ◌, div_floor}
use poai.Difficulty.{
  scale_target, clamp_target, clamp_span, min_target, max_target, min_span, max_span, second,
  expected_span, expected_seconds,
}

clamp_target_bounds : (t : ℤ) → (max_target ≤ℤ clamp_target t) × (clamp_target t ≤ℤ min_target)
unfolding clamp_target
clamp_target_bounds t = ground arith

clamp_span_bounds : (a : ℤ) → (min_span ≤ clamp_span a) × (clamp_span a ≤ max_span)
unfolding clamp_span
clamp_span_bounds a = ground arith

clamp_span_mono : (a b : ℤ) → a ≤ℤ b → clamp_span a ≤ clamp_span b
unfolding clamp_span
clamp_span_mono a b h = ground arith

clamp_target_mono : (a b : ℤ) → a ≤ℤ b → clamp_target a ≤ℤ clamp_target b
unfolding clamp_target
clamp_target_mono a b h = ground arith

product_pos : (k s : ℕ) → 0 < s → 1 ≤ suc k * s
product_pos k s h = grind arith

product_negative : (k s : ℕ) → 0 < s → negsuc k *ℤ pos s ≡ negsuc (suc k * s - 1)
unfolding ◌*ℤ◌
product_negative k s h = ground (arith, product_pos k s h)

product_nonneg : (n s : ℕ) → pos n *ℤ pos s ≡ pos (n * s)
unfolding ◌*ℤ◌
product_nonneg n s = ground arith

-- A negative target times a positive time, divided with rounding down.
scale_negative :
    (k s d : ℕ) → 0 < s → div_floor (negsuc k *ℤ pos s) d ≡ negsuc ((suc k * s - 1) / d)
unfolding div_floor
scale_negative k s d h = rw (product_negative k s h) refl

seconds_bounds : (a : ℤ) → (302400 ≤ clamp_span a / second) × (clamp_span a / second ≤ 4838400)
seconds_bounds a = omega (arith, clamp_span_bounds a)

scale_target_negative :
    (k : ℕ) (a : ℤ)
    → scale_target (negsuc k) a
      ≡ clamp_target (negsuc ((suc k * (clamp_span a / second) - 1) / 1209600))
unfolding scale_target
scale_target_negative k a =
    ap clamp_target
      (scale_negative k (clamp_span a / second) 1209600 (omega (arith, seconds_bounds a)))

product_mono : (k s t : ℕ) → s ≤ t → (suc k * s - 1) / 1209600 ≤ (suc k * t - 1) / 1209600
product_mono k s t h = omega (arith, mul-le-mul_left (suc k) h)

-- A longer window gives a lower target.
scale_target_antitone :
    (k : ℕ) (a b : ℤ) → a ≤ℤ b → scale_target (negsuc k) b ≤ℤ scale_target (negsuc k) a
scale_target_antitone k a b h =
    rw (scale_target_negative k a, scale_target_negative k b)
      (clamp_target_mono _ _ (
        omega (
          arith,
          product_mono k (clamp_span a / second) (clamp_span b / second)
              (omega (arith, clamp_span_mono a b h)),
        )))

-- A window of the expected length leaves a target in range as it is.
scale_target_expected :
    (k : ℕ) → max_target ≤ℤ negsuc k → scale_target (negsuc k) (pos expected_span) ≡ negsuc k
unfolding clamp_span clamp_target
scale_target_expected k h = rw (scale_target_negative k (pos expected_span)) (ground arith)

-- A target that is not negative gives the easiest target, whatever the window.
pub scale_target_nonneg : (n : ℕ) (a : ℤ) → scale_target (pos n) a ≡ min_target
unfolding scale_target div_floor clamp_target
scale_target_nonneg n a = rw (product_nonneg n (clamp_span a / second)) (ground arith)

quarter :
    (k s : ℕ)
    → 302400 ≤ s
    → s ≤ 4838400
    → ((suc k * s - 1) / 1209600 < 4 * suc k) × (suc k ≤ 4 * suc ((suc k * s - 1) / 1209600))
quarter k s lo hi = omega (arith, mul-le-mul_left (suc k) lo, mul-le-mul_left (suc k) hi)

-- One retarget changes a target in range by a factor of four at most, either way.
pub scale_target_factor :
    (k : ℕ) (a : ℤ)
    → max_target ≤ℤ negsuc k
    → (neg_part (scale_target (negsuc k) a) ≤ 4 * suc k)
      × (suc k ≤ 4 * neg_part (scale_target (negsuc k) a))
unfolding clamp_target
scale_target_factor k a h =
    rw (scale_target_negative k a)
      (ground (arith, quarter k (clamp_span a / second) (seconds_bounds a).0 (seconds_bounds a).1))

pub scale_target_fast :
    (k : ℕ) (a : ℤ)
    → max_target ≤ℤ negsuc k
    → a ≤ℤ pos expected_span
    → negsuc k ≤ℤ scale_target (negsuc k) a
scale_target_fast k a h fast =
    rw (scale_target_expected k h) at (scale_target_antitone k a (pos expected_span) fast)

pub scale_target_slow :
    (k : ℕ) (a : ℤ)
    → max_target ≤ℤ negsuc k
    → pos expected_span ≤ℤ a
    → scale_target (negsuc k) a ≤ℤ negsuc k
scale_target_slow k a h slow =
    rw (scale_target_expected k h) at (scale_target_antitone k (pos expected_span) a slow)

-- Every scaled target is within the sanity bounds.
pub scale_target_bounds :
    (t a : ℤ) → (max_target ≤ℤ scale_target t a) × (scale_target t a ≤ℤ min_target)
unfolding scale_target
scale_target_bounds t a =
    clamp_target_bounds (div_floor (t *ℤ pos (clamp_span a / second)) expected_seconds)
