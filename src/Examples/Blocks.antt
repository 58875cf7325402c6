-- ===== src/Examples/Blocks.antt =====
-- Examples on headers, blocks, targets and the block store.
use poai.Prelude.{
  ℕ, ◌+◌, ◌*◌, ◌≤◌, ◌≡◌, refl, Option, none, some, [], ◌∷◌, arith, ◌⊎◌, nat_eq, bytes_eq,
}
use poai.Prelude.Int.{pos, negsuc, ◌≤ℤ◌, neg_part}
use poai.Result.{ok, err, missing_header, key_not_found}
use poai.Badger.{MemDb, mem_badger, empty_db}
use poai.Encoding.{decimal, push_decimal}
use poai.Header.{Header}
use poai.Block.{Block}
use poai.Block.Subsidy.{minted, minted_bound}
use poai.State.{commit}
use poai.Store.{put_block, get_block, prune_blocks, get_tip_height}
use poai.Store.Blocks.{put_block_effect}
use poai.Store.Prune.{prune_blocks_effect}
use poai.Difficulty.{adjust, min_target, max_target}
use poai.Difficulty.Adjust.{adjust_bounds, adjust_factor}
use poai.Examples.{toy_codec, plain_block}

abbrev pub block_at : ℕ → Block
block_at h = plain_block h 7 (negsuc 999) (1 ∷ [])

abbrev pub db1 : MemDb
db1 = (put_block mem_badger toy_codec 1 (block_at 1) empty_db).1

abbrev pub db2 : MemDb
db2 = (put_block mem_badger toy_codec 2 (block_at 2) db1).1

put_2 : put_block mem_badger toy_codec 2 (block_at 2) db1 ≡ (ok tt, db2)
unfolding put_block commit decimal push_decimal
put_2 = refl

put_block_effect_example : get_tip_height mem_badger db2 ≡ ok 2
put_block_effect_example =
    (put_block_effect mem_badger toy_codec 2 (block_at 2) db1 db2 (omega arith) put_2).1

abbrev pruned : MemDb
pruned = (prune_blocks mem_badger 1 2 db2).1

pruned_2 : prune_blocks mem_badger 1 2 db2 ≡ (ok tt, pruned)
unfolding prune_blocks commit
pruned_2 = refl

prune_blocks_effect_example : get_block mem_badger toy_codec 1 pruned ≡ err key_not_found
prune_blocks_effect_example =
    (prune_blocks_effect mem_badger toy_codec 1 2 db2 pruned (omega arith) (omega arith) pruned_2).0
      1

-- Headers at heights 1 and 2016, with 7 days between them.
abbrev header_at : ℕ → ℕ → Header
header_at height time = record {
  height = height;
  parent_hash = [];
  lhat = pos 0;
  bits = some (negsuc 999);
  timestamp = pos time;
  state_root = [];
  nonce = 0;
}

abbrev read_first : ℕ → Unit {0} → Option Header × Unit {0}
read_first height s = (some (header_at height 0), s)

adjust_bounds_example :
    let ((target, e), _) = adjust read_first (some (header_at 2016 604800000000000)) tt in
    ((e ≡ some missing_header) × (target ≡ negsuc 999))
    ⊎ ((e ≡ none) × (max_target ≤ℤ target) × (target ≤ℤ min_target))
adjust_bounds_example =
    adjust_bounds read_first (header_at 2016 604800000000000) tt (negsuc 999) refl (omega arith)

adjust_factor_example :
    let ((target, e), _) = adjust read_first (some (header_at 2016 1)) tt in
    (e ≡ none) × (neg_part target ≤ 4 * 1000) × (1000 ≤ 4 * neg_part target)
adjust_factor_example =
    adjust_factor read_first (header_at 2016 1) tt 999 (header_at 1 0) tt refl (omega arith)
      (omega arith) refl

minted_bound_example : (minted 3 ≤ 20370000) × (minted (1260000 + 3) ≡ 20370000)
minted_bound_example = minted_bound 3
