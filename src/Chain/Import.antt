-- ===== src/Chain/Import.antt =====
-- `ImportBlock` and the import of waiting orphans.
use poai.Prelude.{
  ℕ, ◌%◌, Option, none, some, true, false, not, ◌&&◌, List, [], ◌∷◌, Bytes, ◌==◌, nat_eq, bytes_eq,
  if◌then◌else◌, ltb,
}
use poai.Prelude.Assoc.{Assoc, lookup, insert, erase}
use poai.Result.{
  Result, ok, err, block_exists, parent_not_found, side_branch, hash_mismatch, panicked,
}
use poai.Header.{header_hash}
use poai.Tx.{Transaction}
use poai.Block.{Block, block_hash}
use poai.Difficulty.{adjust, retarget_interval}
use poai.State.{execute_transaction}
use poai.Mempool.{remove_transactions}
use poai.Store.{put_block, prune_blocks}
use poai.Chain.{
  Env, Chain, pred_u64, add_to_orphan_pool, add_to_side_branch, notify_head_change,
  header_by_height, get_block_by_hash,
}
use poai.Chain.Reorg.{check_reorg}

-- How an import without an error ended: in a side branch, or as the new head.
pub data Outcome : Type 0 where
  queued extended : Outcome

-- The first block of the map's range with a hash.
unfoldable pub find_by_hash : (Block → Bytes) → Bytes → Assoc ℕ Block → Option Block
find_by_hash hash_of h [] = none
find_by_hash hash_of h ((_, b) ∷ blocks) =
    if hash_of b == h then some b else find_by_hash hash_of h blocks

module _ {Db : Type 0} (env : Env Db) where
  -- The block at a height that is taken.
  unfoldable pub import_taken : Block → Block → Chain Db → Result Outcome × Chain Db
  import_taken existing block c =
      if block_hash env.crypto existing == block_hash env.crypto block
      then (err block_exists, c)
      else elim (lookup c.head c.blocks) [
        | none ↦ (err panicked, c)
        | some tip ↦
            if block.header.parent_hash == block_hash env.crypto tip
            then (err block_exists, c)
            else (ok queued, check_reorg env (add_to_side_branch block c))
      ]

  -- The transactions in their order; the first error ends the loop, and what was executed stays.
  unfoldable pub execute_transactions : List Transaction → Chain Db → Result (Unit {0}) × Chain Db
  execute_transactions [] c = (ok tt, c)
  execute_transactions (tx ∷ txs) c =
      let (r, db') = execute_transaction env.store env.crypto tx c.db in
      let c' : Chain Db = record c { db = db' } in
      elim r [ err e ↦ (err e, c') | ok _ ↦ execute_transactions txs c' ]

  -- The block's target. On a retarget height the lock is released around `Adjust`: `gap` is what
  -- other goroutines do to the chain meanwhile.
  unfoldable pub set_bits :
      (Chain Db → Chain Db) → Block → Block → Chain Db → Result Block × Chain Db
  set_bits gap parent block c =
      if (block.header.height % retarget_interval == 0) && ltb 0 block.header.height
      then (let ((target, e), c') = adjust (header_by_height env) (some block.header) (gap c) in
          elim e [
            | some e' ↦ (err e', c')
            | none ↦ (ok (record block { header = record block.header { bits = some target } }), c')
          ])
      else (ok (record block { header = record block.header { bits = parent.header.bits } }), c)

  -- The block becomes the head; failures of the store are logged.
  unfoldable pub accept_block : Block → Chain Db → Chain Db
  accept_block block c =
      let db1 = (put_block env.store env.codec block.header.height block c.db).1 in
      record c {
        blocks = insert block.header.height block c.blocks;
        block_hash_index = insert (block_hash env.crypto block) block c.block_hash_index;
        head = block.header.height;
        db =
            if ltb 0 env.prune_depth
            then (prune_blocks env.store env.prune_depth block.header.height db1).1
            else db1;
      }

  -- From the transactions to the end, before the lock is released.
  unfoldable pub finish_import : Block → Chain Db → Result Outcome × Chain Db
  unfolding execute_transactions accept_block
  finish_import block c =
      let (r, c1) = execute_transactions block.transactions c in
      elim r [
        | err e ↦ (err e, c1)
        | ok _ ↦
            let c2 : Chain Db = record c1 {
              mempool = remove_transactions block.transactions c1.mempool;
            } in
            (ok extended, check_reorg env (notify_head_change (accept_block block c2)))
      ]

  -- The block on a parent that is in the chain.
  unfoldable pub import_on :
      (Chain Db → Chain Db) → Block → Block → Chain Db → Result Outcome × Chain Db
  unfolding finish_import set_bits
  import_on gap parent block c =
      if not (parent.header.height == pred_u64 block.header.height)
      then (err side_branch, add_to_side_branch block c)
      else (if not (block.header.parent_hash == block_hash env.crypto parent)
          then (err side_branch, add_to_side_branch block c)
          else (if not (header_hash env.crypto block.header == block_hash env.crypto block)
              then (err hash_mismatch, c)
              else (let (r, c') = set_bits gap parent block c in
                  elim r [ err e ↦ (err e, c') | ok block' ↦ finish_import block' c' ])))

  -- `importBlockInternal` up to `tryImportOrphans`.
  unfoldable pub import_core : (Chain Db → Chain Db) → Block → Chain Db → Result Outcome × Chain Db
  unfolding import_taken find_by_hash import_on
  import_core gap block c = elim (lookup block.header.height c.blocks) [
    | some existing ↦ import_taken existing block c
    | none ↦ elim (find_by_hash (block_hash env.crypto) block.header.parent_hash c.blocks) [
      | none ↦ (err parent_not_found, add_to_orphan_pool block c)
      | some parent ↦ import_on gap parent block c
    ]
  ]

  -- The whole of `ImportBlock`, with `after` for the call of `tryImportOrphans`.
  unfoldable pub import_with :
      (Chain Db → Chain Db)
      → (Bytes → Chain Db → Chain Db)
      → Block
      → Chain Db
      → Result Outcome × Chain Db
  unfolding import_core
  import_with gap after block c =
      let (r, c') = import_core gap block c in
      elim r [
        | ok extended ↦ (ok extended, after (block_hash env.crypto block) c')
        | ok queued ↦ (ok queued, c')
        | err e ↦ (err e, c')
      ]

  -- An import inside `tryImportOrphans` finds the flag set, so its own call returns at once.
  unfoldable pub import_nested :
      (Chain Db → Chain Db) → Block → Chain Db → Result Outcome × Chain Db
  unfolding import_with
  import_nested gap = import_with gap (λ _ c. c)

  -- The orphans that have a parent one below them are imported, in order; an error is logged.
  unfoldable pub import_all : (Chain Db → Chain Db) → List Block → Chain Db → Chain Db
  unfolding import_nested
  import_all gap [] c = c
  import_all gap (b ∷ bs) c = import_all gap bs (import_nested gap b c).1

  unfoldable pub side_branch_all : List Block → Chain Db → Chain Db
  side_branch_all [] c = c
  side_branch_all (b ∷ bs) c = side_branch_all bs (add_to_side_branch b c)

  -- `toImport` and `toSideBranch`. An orphan whose parent is not in the index is in neither.
  unfoldable pub sort_orphans : List Block → Chain Db → List Block × List Block
  sort_orphans [] c = ([], [])
  sort_orphans (b ∷ bs) c =
      let (to_import, to_side) = sort_orphans bs c in
      elim (get_block_by_hash b.header.parent_hash c) [
        | none ↦ (to_import, to_side)
        | some parent ↦
            if parent.header.height == pred_u64 b.header.height
            then (b ∷ to_import, to_side)
            else (to_import, b ∷ to_side)
      ]

  unfoldable pub take_orphans : (Chain Db → Chain Db) → Bytes → Chain Db → Chain Db
  unfolding import_all side_branch_all sort_orphans
  take_orphans gap parent_hash c = elim (lookup parent_hash c.orphan_pool) [
    | none ↦ c
    | some orphans ↦
        let c' : Chain Db = record c { orphan_pool = erase parent_hash c.orphan_pool } in
        let (to_import, to_side) = sort_orphans orphans c' in
        side_branch_all to_side (import_all gap to_import c')
  ]

  unfoldable pub try_import_orphans : (Chain Db → Chain Db) → Bytes → Chain Db → Chain Db
  unfolding take_orphans
  try_import_orphans gap parent_hash c =
      if c.orphan_import_in_progress
      then c
      else (let c' = take_orphans gap parent_hash (record c { orphan_import_in_progress = true }) in
          record c' { orphan_import_in_progress = false })

  -- The call, where others act at most in the gap. What they do while `tryImportOrphans` runs without
  -- the lock comes between the changes of Chain/Reach.
  unfoldable pub import_block : (Chain Db → Chain Db) → Block → Chain Db → Result Outcome × Chain Db
  unfolding import_with try_import_orphans
  import_block gap = import_with gap (try_import_orphans gap)
