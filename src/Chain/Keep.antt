-- ===== src/Chain/Keep.antt =====
-- `ImportBlock` keeps the head in memory.
pub mod Rule
use poai.Prelude.{
  ℕ, ◌+◌, ◌-◌, ◌%◌, ltb, not, ◌&&◌, sym, subst, inl, inr, true, some, List, [], ◌∷◌, Bytes, ◌==◌,
  nat_eq, bytes_eq, arith, Bool-cases, Option-cases,
}
use poai.Prelude.Assoc.{lookup, erase, lookup-insert, lookup-insert_self}
use poai.Result.{Result, Result-cases, ok, err}
use poai.Header.{Header, header_hash}
use poai.Block.{Block, block_hash}
use poai.Difficulty.{adjust, adjust_bits, retarget_interval}
use poai.Store.{get_block}
use poai.Mempool.{remove_transactions}
use poai.Chain.{
  Env, Chain, pred_u64, add_to_side_branch, add_to_orphan_pool, notify_head_change,
  header_by_height, with_target,
}
use poai.Chain.Heads.{HasHead, check_reorg-head}
use poai.Chain.Reject.{execute_transactions-frame}
use poai.Chain.Import.{
  Outcome, extended, queued, find_by_hash, import_taken, execute_transactions, set_bits,
  accept_block, finish_import, import_on, import_core, import_with, import_nested, import_all,
  side_branch_all, sort_orphans, take_orphans, try_import_orphans, import_block,
}
use poai.Chain.Keep.Rule.{Keeps, ImportRule, import_block-Keeps}

module _ {Db : Type 0} (env : Env Db) where
  header_by_height-HasHead : (h : ℕ) → Keeps env (HasHead env) (λ c. (header_by_height env h c).1)
  unfolding header_by_height
  header_by_height-HasHead h c v = elim (Option-cases (lookup h c.blocks)) [
    | inr (blk, found) ↦
        rw (found, header_by_height)
          (λ gone. ground (arith, gone, lookup-insert c.head h (with_target blk) c.blocks))
    | inl missing ↦ elim (Result-cases (get_block env.store env.codec h c.db)) [
      | inr (e, failed) ↦ rw (missing, header_by_height, failed) v
      | inl (blk, loaded) ↦
          rw (missing, header_by_height, loaded)
            (λ gone. ground (arith, gone, lookup-insert c.head h (with_target blk) c.blocks))
    ]
  ]

  accept_block-HasHead : (b : Block) (c : Chain Db) → HasHead env (accept_block env b c)
  unfolding accept_block
  accept_block-HasHead b c gone =
      ground (arith, gone, lookup-insert_self b.header.height b c.blocks)

  pub HasHead-ImportRule : ImportRule env (HasHead env)
  unfolding notify_head_change add_to_side_branch add_to_orphan_pool
  HasHead-ImportRule = record {
    header = header_by_height-HasHead;
    executed = λ db c v. v;
    accepted = λ b c v. accept_block-HasHead b _;
    notified = λ c v. v;
    reorganised = λ c v. (check_reorg-head env c v).1;
    side = λ b c v. v;
    orphaned = λ b c v. v;
    released = λ h c v. v;
    flagged = λ busy c v. v;
  }

  -- Importing a block, and the orphans that it frees, keeps the head of the chain in memory however
  -- the imports end, if what other goroutines do around a retarget keeps it.
  pub import_block-HasHead :
      (gap : Chain Db → Chain Db)
      → Keeps env (HasHead env) gap
      → (b : Block) (c : Chain Db) → HasHead env c
      → HasHead env (import_block env gap b c).1
  import_block-HasHead gap gap-Keeps b c v =
      import_block-Keeps env (HasHead env) HasHead-ImportRule gap gap-Keeps b c v
