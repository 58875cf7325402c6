-- ===== src/Examples/Locking.antt =====
-- Examples on the orphan scanner, its lock, and the changes of the goroutines.
use poai.Prelude.{
  ◌≡◌, refl, none, some, true, false, [], ◌∷◌, ◌==◌, arith, nat_eq, bytes_eq, if◌then◌else◌,
}
use poai.Prelude.Int.{pos, negsuc}
use poai.Badger.{MemDb}
use poai.Block.{Block, block_hash}
use poai.Chain.{Chain, get_block_by_hash, add_to_orphan_pool, add_to_side_branch}
use poai.Chain.Locks.{
  r_lock, r_unlock, announce, acquire, w_unlock, System, operate, scan_orphan_pool_ops, import_ops,
  scan_orphans_ops, get_block_by_hash_ops, advance, run, Reach, here, next,
}
use poai.Chain.Locks.Frozen.{scan_orphan_pool-freezes}
use poai.Encoding.{le_bytes}
use poai.Header.{header_hash, preimage}
use poai.Store.{get_tip_height}
use poai.Chain.Load.{new_chain, genesis_if_empty, load_stored, create_genesis, genesis_block}
use poai.Chain.Scan.{no_gap, scan_orphan_pool, scan_orphan_pool_effect}
use poai.Chain.Reorg.{check_reorg}
use poai.Examples.Blocks.{db2}
use poai.Result.{Result}
use poai.Chain.Reach.Always.{brought_up}
use poai.Mempool.{add_transaction}
use poai.Examples.{plain_block}
use poai.Examples.Accounts.{payment}
use poai.Examples.Chains.{env, fresh, first}

-- Goroutine 1 scans a pool with one orphan that fits, and the others import blocks.
abbrev start : System
start = record {
  mutex = record { readers = []; writer = none };
  todo = λ j. if j == 1 then scan_orphan_pool_ops ((true ∷ []) ∷ []) else import_ops [];
}

-- Its import has announced the writer and waits for the scan's own read lock.
abbrev stuck : System
stuck = record {
  mutex = record { readers = 1 ∷ []; writer = some 1 };
  todo = advance 1 (acquire ∷ w_unlock ∷ r_unlock ∷ []) (
      advance 1 (announce ∷ acquire ∷ w_unlock ∷ r_unlock ∷ []) (
        advance 1 (r_unlock ∷ announce ∷ acquire ∷ w_unlock ∷ r_unlock ∷ []) (
          advance 1 (r_lock ∷ r_unlock ∷ announce ∷ acquire ∷ w_unlock ∷ r_unlock ∷ [])
            start.todo)));
}

getting_stuck : Reach start stuck
unfolding scan_orphan_pool_ops scan_orphans_ops get_block_by_hash_ops import_ops operate
getting_stuck =
    next
      (next (next (next here (run 1 r_lock _ _ refl refl)) (run 1 r_lock _ _ refl refl))
        (run 1 r_unlock _ _ refl refl))
      (run 1 announce _ _ refl refl)

-- Goroutine 2 can neither read nor write.
scan_orphan_pool-freezes_example :
    (operate 2 acquire stuck.mutex ≡ none)
    × (operate 2 r_lock stuck.mutex ≡ none)
    × (operate 2 announce stuck.mutex ≡ none)
scan_orphan_pool-freezes_example =
    (scan_orphan_pool-freezes 1 ((true ∷ []) ∷ []) start stuck refl refl refl refl getting_stuck).2
      (w_unlock ∷ r_unlock ∷ []) refl 2

-- An orphan at height 600 that waits for a missing parent.
abbrev orphan : Block
orphan = plain_block 600 7 (negsuc 0) (5 ∷ [])

abbrev waiting_chain : Chain MemDb
waiting_chain = record fresh { orphan_pool = (5 ∷ [], orphan ∷ []) ∷ [] }

-- The orphan is lost.
scan_orphan_pool_effect_example :
    (scan_orphan_pool (λ b. false) no_gap waiting_chain).1
    ≡ record waiting_chain { orphan_pool = [] }
unfolding get_block_by_hash new_chain genesis_if_empty load_stored create_genesis genesis_block
    get_tip_height block_hash header_hash preimage le_bytes
scan_orphan_pool_effect_example =
    (scan_orphan_pool_effect (λ b. false) no_gap waiting_chain (λ pool d. refl)
        (λ e. ground arith)).2
      ((refl, tt), tt)

abbrev come_up : Chain MemDb
come_up = brought_up env (pos 0, pos 0) (negsuc 999) db2

-- An orphan comes in, a transaction is pooled, and a side branch gets a block, before the check of the
-- side branches.
abbrev busy : Chain MemDb
busy =
    let c = add_to_orphan_pool orphan come_up in
    let d : Chain MemDb = record c {
      mempool = (add_transaction env.store env.crypto payment c.db c.mempool).1;
    } in
    check_reorg env (add_to_side_branch first d)
