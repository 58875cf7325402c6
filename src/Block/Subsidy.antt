-- ===== src/Block/Subsidy.antt =====
-- The subsidy halves every 210000 blocks and ends, so the coins that it creates are bounded.
use Prim.Native.Nat.{min}
use native.Mathlib.Nat.{pow-succ', div-eq_of_lt}
use poai.Prelude.{
  ℕ, zero, suc, ◌+◌, ◌-◌, ◌*◌, ◌/◌, ◌^◌, ◌≤◌, ◌≡◌, refl, arith, leb, if◌then◌else◌, nat_eq,
  bytes_eq,
}
use poai.Block.{get_subsidy, initial_subsidy}

pow_ge_64 : (k : ℕ) → 64 ≤ 2 ^ suc (suc (suc (suc (suc (suc k)))))
pow_ge_64 zero = omega arith
pow_ge_64 (suc k) = omega (arith, pow-succ' 2 (suc (suc (suc (suc (suc (suc k)))))), pow_ge_64 k)

-- The subsidy after so many halvings.
abbrev halved : ℕ → ℕ
halved n =
    if leb 6 n
    then 0
    else (if leb 5 n
        then 1
        else (if leb 4 n
            then 3
            else (if leb 3 n then 6 else (if leb 2 n then 12 else (if leb 1 n then 25 else 50)))))

shift_lem : (n : ℕ) → (if leb 64 n then 0 else initial_subsidy / 2 ^ n) ≡ halved n
shift_lem zero = refl
shift_lem (suc zero) = refl
shift_lem (suc (suc zero)) = refl
shift_lem (suc (suc (suc zero))) = refl
shift_lem (suc (suc (suc (suc zero)))) = refl
shift_lem (suc (suc (suc (suc (suc zero))))) = refl
shift_lem (suc (suc (suc (suc (suc (suc k)))))) =
    ground (arith, pow_ge_64 k, gone (2 ^ suc (suc (suc (suc (suc (suc k)))))))
  where
    gone : (d : ℕ) → 64 ≤ d → 50 / d ≡ 0
    gone d h = div-eq_of_lt (omega arith)

get_subsidy-halved : (h : ℕ) → get_subsidy h ≡ halved (h / 210000)
unfolding get_subsidy
get_subsidy-halved h = shift_lem (h / 210000)

-- What the subsidies of the blocks below a height add up to.
abbrev pub minted : ℕ → ℕ
minted zero = 0
minted (suc n) = minted n + get_subsidy n

-- The blocks below `n` that lie in the `k`-th period of 210000.
abbrev in_period : ℕ → ℕ → ℕ
in_period k n = min n ((k + 1) * 210000) - k * 210000

minted_lem :
    (n : ℕ)
    → minted n
      ≡ 50 * in_period 0 n
        + 25 * in_period 1 n
        + 12 * in_period 2 n
        + 6 * in_period 3 n
        + 3 * in_period 4 n
        + in_period 5 n
minted_lem zero = omega arith
minted_lem (suc n) = ground (arith, minted_lem n, get_subsidy-halved n)

-- All the subsidies together never exceed 20370000, and reach it at height 1260000: 210000 blocks each
-- of 50, 25, 12, 6, 3 and 1.
pub minted_bound : (n : ℕ) → (minted n ≤ 20370000) × (minted (1260000 + n) ≡ 20370000)
minted_bound n = (omega (arith, minted_lem n), omega (arith, minted_lem (1260000 + n)))

-- The subsidy never rises with the height, and is zero from height 1260000 on.
pub get_subsidy_falls :
    (h k : ℕ) → h ≤ k → (get_subsidy k ≤ get_subsidy h) × (get_subsidy (1260000 + h) ≡ 0)
get_subsidy_falls h k le =
    ground (arith, get_subsidy-halved h, get_subsidy-halved k, get_subsidy-halved (1260000 + h))
