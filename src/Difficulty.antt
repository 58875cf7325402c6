-- ===== src/Difficulty.antt =====
-- The difficulty retarget (poai/core/difficulty.go, with the constants of poai/core/config/config.go).
pub mod Retarget
pub mod Adjust
use poai.Prelude.{
  ℕ, ◌+◌, ◌-◌, ◌*◌, ◌/◌, ◌^◌, Option, none, some, if◌then◌else◌, ltb, ◌==◌, nat_eq, bytes_eq,
}
use poai.Prelude.Int.{ℤ, pos, negsuc, pos_part, ◌-ℤ◌, ◌*ℤ◌, ltb_ℤ, div_floor}
use poai.Result.{Error, nil_header, nil_bits, missing_header}
use poai.Header.{Header}

abbrev pub retarget_interval : ℕ
retarget_interval = 2016

abbrev pub target_block_spacing_sec : ℕ
target_block_spacing_sec = 600

abbrev pub max_adjustment_factor : ℕ
max_adjustment_factor = 4

-- `time.Second`, in nanoseconds.
abbrev pub second : ℕ
second = 1000000000

abbrev pub max_int64 : ℤ
max_int64 = pos (2 ^ 63 - 1)

abbrev pub min_int64 : ℤ
min_int64 = negsuc (2 ^ 63 - 1)

-- `time.Time.Sub`: the difference, held within the range of `time.Duration`.
unfoldable pub time_sub : ℤ → ℤ → ℤ
time_sub a b =
    if ltb_ℤ max_int64 (a -ℤ b)
    then max_int64
    else (if ltb_ℤ (a -ℤ b) min_int64 then min_int64 else a -ℤ b)

-- `expected`, in nanoseconds.
abbrev pub expected_span : ℕ
expected_span = retarget_interval * second * target_block_spacing_sec

abbrev pub min_span : ℕ
min_span = expected_span / max_adjustment_factor

abbrev pub max_span : ℕ
max_span = expected_span * max_adjustment_factor

-- `actual`, clamped. It is positive from here on.
unfoldable pub clamp_span : ℤ → ℕ
clamp_span actual =
    if ltb_ℤ actual (pos min_span)
    then min_span
    else (if ltb_ℤ (pos max_span) actual then max_span else pos_part actual)

-- `int64(expected.Seconds())`, at least one. Whole seconds of a duration of this size are exact in
-- `float64`, and its fraction does not round up to a second.
abbrev pub expected_seconds : ℕ
expected_seconds = if expected_span / second == 0 then 1 else expected_span / second

abbrev pub min_target : ℤ
min_target = negsuc 0

abbrev pub max_target : ℤ
max_target = negsuc (2 ^ 63 - 1)

-- The two sanity bounds, one after the other.
unfoldable pub clamp_target : ℤ → ℤ
clamp_target t =
    let capped = if ltb_ℤ min_target t then min_target else t in
    if ltb_ℤ capped max_target then max_target else capped

-- Steps 2 to 5 of `Adjust`: the previous target scaled by the time that the window took.
unfoldable pub scale_target : ℤ → ℤ → ℤ
unfolding clamp_span clamp_target
scale_target old actual =
    clamp_target (div_floor (old *ℤ pos (clamp_span actual / second)) expected_seconds)

-- `Adjust` returns a target and an error. `reader` is `chain.HeaderByHeight`, which may change the
-- state of the chain.
unfoldable pub adjust_from : Header → ℤ → Option Header → ℤ × Option Error
unfolding scale_target time_sub
adjust_from tip bits none = (bits, some missing_header)
adjust_from tip bits (some first) =
    (scale_target bits (time_sub tip.timestamp first.timestamp), none)

unfoldable pub adjust_bits :
    {S : Type 0} → (ℕ → S → Option Header × S) → Header → Option ℤ → S → (ℤ × Option Error) × S
unfolding adjust_from
adjust_bits reader tip none s = ((pos 1, some nil_bits), s)
adjust_bits reader tip (some bits) s =
    if ltb tip.height retarget_interval
    then ((bits, none), s)
    else (let (first, s') = reader (tip.height - retarget_interval + 1) s in
        (adjust_from tip bits first, s'))

unfoldable pub adjust :
    {S : Type 0} → (ℕ → S → Option Header × S) → Option Header → S → (ℤ × Option Error) × S
unfolding adjust_bits
adjust reader none s = ((pos 1, some nil_header), s)
adjust reader (some tip) s = adjust_bits reader tip tip.bits s
