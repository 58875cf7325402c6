-- ===== src/Difficulty/Adjust.antt =====
-- What `Adjust` returns on each of its branches.
use poai.Prelude.{
  ℕ, suc, ◌+◌, ◌-◌, ◌*◌, ◌≤◌, ◌≡◌, refl, ◌⊎◌, arith, Option, none, some, Option-cases, inl, inr,
  nat_eq, bytes_eq,
}
use poai.Prelude.Int.{ℤ, pos, negsuc, neg_part, ◌≤ℤ◌}
use poai.Result.{missing_header}
use poai.Header.{Header}
use poai.Difficulty.{
  adjust, adjust_bits, adjust_from, scale_target, min_target, max_target, expected_span, time_sub,
}
use poai.Difficulty.Retarget.{
  scale_target_fast, scale_target_slow, scale_target_factor, scale_target_bounds,
}

module _ {S : Type 0} (reader : ℕ → S → Option Header × S) (tip : Header) (s : S) where
  -- A header with a target, at or above the first retarget height. Either the first header of the
  -- window is missing, and the old target comes back with the error, or the new target lies
  -- between -2^63 and -1 and there is no error.
  pub adjust_bounds :
      (bits : ℤ)
      → tip.bits ≡ some bits
      → 2016 ≤ tip.height
      → let ((target, e), _) = adjust reader (some tip) s in
        ((e ≡ some missing_header) × (target ≡ bits))
        ⊎ ((e ≡ none) × (max_target ≤ℤ target) × (target ≤ℤ min_target))
  unfolding adjust adjust_bits adjust_from
  adjust_bounds bits has_bits old_enough =
      elim (Option-cases (reader (tip.height - 2016 + 1) s).0) [
        | inl missing ↦ inl (ground arith)
        | inr (first, found) ↦
            inr (ground (arith, scale_target_bounds bits (time_sub tip.timestamp first.timestamp)))
      ]

  module _ (k : ℕ) (first : Header) (s' : S) where
    adjust_found :
        tip.bits ≡ some (negsuc k)
        → 2016 ≤ tip.height
        → reader (tip.height - 2016 + 1) s ≡ (some first, s')
        → adjust reader (some tip) s
          ≡ ((scale_target (negsuc k) (time_sub tip.timestamp first.timestamp), none), s')
    unfolding adjust adjust_bits adjust_from
    adjust_found has_bits old_enough found = rw (has_bits, adjust_bits) (ground arith)

    -- A window that was slower than expected. A negative target in range then moves down or stays, and
    -- with the miner's test `loss <= target` a lower target is harder to meet.
    pub adjust_slow :
        tip.bits ≡ some (negsuc k)
        → max_target ≤ℤ negsuc k
        → 2016 ≤ tip.height
        → reader (tip.height - 2016 + 1) s ≡ (some first, s')
        → pos expected_span ≤ℤ time_sub tip.timestamp first.timestamp
        → let ((target, e), _) = adjust reader (some tip) s in (e ≡ none) × (target ≤ℤ negsuc k)
    adjust_slow has_bits in_range old_enough found slow =
        rw (adjust_found has_bits old_enough found) (refl, scale_target_slow k _ in_range slow)

    -- A window that was faster than expected. A negative target in range then moves up or stays, which
    -- makes it easier.
    pub adjust_fast :
        tip.bits ≡ some (negsuc k)
        → max_target ≤ℤ negsuc k
        → 2016 ≤ tip.height
        → reader (tip.height - 2016 + 1) s ≡ (some first, s')
        → time_sub tip.timestamp first.timestamp ≤ℤ pos expected_span
        → let ((target, e), _) = adjust reader (some tip) s in (e ≡ none) × (negsuc k ≤ℤ target)
    adjust_fast has_bits in_range old_enough found fast =
        rw (adjust_found has_bits old_enough found) (refl, scale_target_fast k _ in_range fast)

    -- One retarget of a negative target in range changes it by a factor of four at most, either way.
    pub adjust_factor :
        tip.bits ≡ some (negsuc k)
        → max_target ≤ℤ negsuc k
        → 2016 ≤ tip.height
        → reader (tip.height - 2016 + 1) s ≡ (some first, s')
        → let ((target, e), _) = adjust reader (some tip) s in
          (e ≡ none) × (neg_part target ≤ 4 * suc k) × (suc k ≤ 4 * neg_part target)
    adjust_factor has_bits in_range old_enough found =
        let (above, below) =
          scale_target_factor k (time_sub tip.timestamp first.timestamp) in_range in
        rw (adjust_found has_bits old_enough found) (refl, above, below)
