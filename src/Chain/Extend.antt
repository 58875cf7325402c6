-- ===== src/Chain/Extend.antt =====
-- An import that extends the chain.
use poai.Prelude.{
  ℕ, ◌%◌, ltb, ◌&&◌, ◌≡◌, refl, ap, sym, subst, ◌∙◌, inl, inr, true, false, none, some, [], ◌∷◌,
  Bytes, ◌==◌, nat_eq, bytes_eq, if◌then◌else◌, arith, Bool-cases, Option-cases, ==_refl, ==→eq,
}
use poai.Prelude.Assoc.{Assoc, lookup, insert, lookup-insert}
use poai.Result.{Result, Result-cases, ok}
use poai.Header.{header_hash}
use poai.Block.{Block, block_hash}
use poai.Difficulty.{retarget_interval}
use poai.State.Ledger.{view}
use poai.Mempool.{remove_transactions}
use poai.Store.{put_block}
use poai.Store.Prune.{prune_blocks-view}
use poai.Chain.{Env, Chain, pred_u64, notify_head_change}
use poai.Chain.Reorg.{check_reorg, consider_branches}
use poai.Chain.Branches.{put_block-view}
use poai.Chain.Reject.{execute_transactions-frame}
use poai.Chain.Import.{
  Outcome, extended, find_by_hash, import_taken, execute_transactions, set_bits, accept_block,
  finish_import, import_on, import_core,
}

find_by_hash_found :
    (hash_of : Block → Bytes) (h : Bytes) (blocks : Assoc ℕ Block) (b : Block)
    → find_by_hash hash_of h blocks ≡ some b
    → hash_of b ≡ h
unfolding find_by_hash
find_by_hash_found hash_of h [] b e = absurd (cc)
find_by_hash_found hash_of h ((_, x) ∷ blocks) b e = elim (Bool-cases (hash_of x == h)) [
  | inl same ↦ ground (arith, ==→eq (hash_of x) h same)
  | inr other ↦ find_by_hash_found hash_of h blocks b (ground arith)
]

-- The block as it is stored: with its parent's target.
abbrev pub inheriting : Block → Block → Block
inheriting parent b = record b { header = record b.header { bits = parent.header.bits } }

module _ {Db : Type 0} (env : Env Db) where
  -- The block is the head and is entered at its height; its transactions were executed in
  -- order, without an error, and have left the pool; no account changed but by them.
  pub record Extends (b : Block) (c c' : Chain Db) : Type 0 where
    pub head : c'.head ≡ b.header.height
    pub entered : c'.blocks ≡ insert b.header.height b c.blocks
    pub orphans : c'.orphan_pool ≡ c.orphan_pool
    pub branches : c'.side_branches ≡ c.side_branches
    pub importing : c'.orphan_import_in_progress ≡ c.orphan_import_in_progress
    pub blocks :
        (k : ℕ) → lookup k c'.blocks ≡ (if b.header.height == k then some b else lookup k c.blocks)
    pub executed : (execute_transactions env b.transactions c).0 ≡ ok tt
    pub pool : c'.mempool ≡ remove_transactions b.transactions c.mempool
    pub accounts :
        view env.store c'.db ≡ view env.store (execute_transactions env b.transactions c).1.db

  pub accept_block-view :
      (b : Block) (c : Chain Db) → view env.store (accept_block env b c).db ≡ view env.store c.db
  unfolding accept_block
  accept_block-view b c =
      let db1 = (put_block env.store env.codec b.header.height b c.db).1 in
      let put_kept = put_block-view env.store env.codec b.header.height b c.db in
      elim (Bool-cases (ltb 0 env.prune_depth)) [
        | inr unpruned ↦ rw (unpruned, accept_block) put_kept
        | inl pruned ↦
            rw (pruned, accept_block)
              (prune_blocks-view env.store env.prune_depth b.header.height db1 ∙ put_kept)
      ]

  check_reorg_idle : (c : Chain Db) → c.side_branches ≡ [] → check_reorg env c ≡ c
  unfolding check_reorg consider_branches
  check_reorg_idle c none_wait = rw (none_wait, consider_branches) refl

  accepted-Extends :
      (b : Block) (c c1 : Chain Db)
      → execute_transactions env b.transactions c ≡ (ok tt, c1)
      → c1 ≡ record c { db = c1.db }
      → let c2 : Chain Db = record c1 { mempool = remove_transactions b.transactions c1.mempool } in
        Extends b c (notify_head_change (accept_block env b c2))
  unfolding accept_block notify_head_change
  accepted-Extends b c c1 ran frame =
      let c2 : Chain Db = record c1 { mempool = remove_transactions b.transactions c1.mempool } in
      record {
        head = refl;
        entered = ap (λ (d : Chain Db). insert b.header.height b d.blocks) frame;
        orphans = ap (λ (d : Chain Db). d.orphan_pool) frame;
        branches = ap (λ (d : Chain Db). d.side_branches) frame;
        importing = ap (λ (d : Chain Db). d.orphan_import_in_progress) frame;
        blocks = λ k.
            lookup-insert k b.header.height b c1.blocks
            ∙ ap (λ (d : Chain Db). if b.header.height == k then some b else lookup k d.blocks)
                frame;
        executed = ap (λ (p : Result (Unit {0}) × Chain Db). p.0) ran;
        pool = ap (λ (d : Chain Db). remove_transactions b.transactions d.mempool) frame;
        accounts =
            accept_block-view b c2
            ∙ sym (ap (λ (p : Result (Unit {0}) × Chain Db). view env.store p.1.db) ran);
      }

  finish_import-Extends :
      (b : Block) (c c' : Chain Db)
      → c.side_branches ≡ []
      → finish_import env b c ≡ (ok extended, c')
      → Extends b c c'
  unfolding finish_import notify_head_change accept_block
  finish_import-Extends b c c' none_wait e =
      let c1 = (execute_transactions env b.transactions c).1 in
      let frame = execute_transactions-frame env b.transactions c in
      let c2 : Chain Db = record c1 { mempool = remove_transactions b.transactions c1.mempool } in
      let c3 = notify_head_change (accept_block env b c2) in
      elim (Result-cases (execute_transactions env b.transactions c).0) [
        | inr (e', failed) ↦ absurd (ground arith)
        | inl (_, done) ↦
            let shape : check_reorg env c3 ≡ c' =
              ap (λ (p : Result Outcome × Chain Db). p.1) (rw (done, finish_import) at e) in
            subst (Extends b c)
              (sym (check_reorg_idle c3 (ap (λ (d : Chain Db). d.side_branches) frame ∙ none_wait))
                ∙ shape)
              (accepted-Extends b c c1 (ap (λ r. (r, c1)) done) frame)
      ]

  -- `import_on` up to the transactions, away from a retarget.
  import_on-Extends :
      (gap : Chain Db → Chain Db) (parent b : Block) (c c' : Chain Db)
      → ((b.header.height % retarget_interval == 0) && ltb 0 b.header.height) ≡ false
      → c.side_branches ≡ []
      → import_on env gap parent b c ≡ (ok extended, c')
      → (parent.header.height ≡ pred_u64 b.header.height) × Extends (inheriting parent b) c c'
  unfolding import_on set_bits
  import_on-Extends gap parent b c c' plain none_wait e =
      elim (Bool-cases (parent.header.height == pred_u64 b.header.height)) [
        | inr apart ↦ absurd (ground arith)
        | inl follows ↦ (
          ==→eq parent.header.height (pred_u64 b.header.height) follows,
          finish_import-Extends (inheriting parent b) c c' none_wait (ground arith),
        )
      ]

  -- An import that reports a new head, away from a retarget height and with no side branch waiting. The
  -- height was free, and the block's parent is the block that the chain has under the parent hash, one
  -- below it. The block is the head, and is stored with that parent's target, whatever target it came
  -- with; every other height is as before. Its transactions were executed in order, all
  -- without an error, no account changed but by them, and they have left the pool.
  pub import_core-Extends :
      (gap : Chain Db → Chain Db) (b : Block) (c c' : Chain Db)
      → ((b.header.height % retarget_interval == 0) && ltb 0 b.header.height) ≡ false
      → c.side_branches ≡ []
      → import_core env gap b c ≡ (ok extended, c')
      → (lookup b.header.height c.blocks ≡ none)
        × ((parent : Block) × (find_by_hash (block_hash env.crypto) b.header.parent_hash c.blocks
              ≡ some parent)
            × (parent.header.height ≡ pred_u64 b.header.height)
            × Extends (inheriting parent b) c c')
  unfolding import_core import_taken
  import_core-Extends gap b c c' plain none_wait e =
      elim (Option-cases (lookup b.header.height c.blocks)) [
        | inr (existing, taken) ↦ absurd (ground arith)
        | inl free ↦
            elim (Option-cases
              (find_by_hash (block_hash env.crypto) b.header.parent_hash c.blocks)) [
                | inl orphan ↦ absurd (ground arith)
                | inr (parent, found) ↦
                    let (follows, extends) =
                      import_on-Extends gap parent b c c' plain none_wait
                        (rw (free, import_core, found) at e) in
                    (free, (parent, found, follows, extends))
              ]
      ]

  finish_import_accepts :
      (b : Block) (c : Chain Db)
      → (execute_transactions env b.transactions c).0 ≡ ok tt
      → (finish_import env b c).0 ≡ ok extended
  unfolding finish_import
  finish_import_accepts b c ran = rw (ran, finish_import) refl

  -- `import_on` on a block that meets every condition.
  import_on_accepts :
      (gap : Chain Db → Chain Db) (parent b : Block) (c : Chain Db)
      → ((b.header.height % retarget_interval == 0) && ltb 0 b.header.height) ≡ false
      → (b.header.parent_hash == block_hash env.crypto parent) ≡ true
      → (parent.header.height == pred_u64 b.header.height) ≡ true
      → (execute_transactions env b.transactions c).0 ≡ ok tt
      → (import_on env gap parent b c).0 ≡ ok extended
  unfolding import_on set_bits block_hash
  import_on_accepts gap parent b c plain child follows ran = ground (
    arith,
    ==_refl (header_hash env.crypto b.header),
    finish_import_accepts (inheriting parent b) c ran,
  )

  -- Away from a retarget height, a block is accepted whose height is free, whose parent is found in the
  -- chain by its hash and is one below it, and whose transactions execute: no other condition is
  -- checked, the loss and its target, the timestamp and the Merkle root included.
  pub import_core_accepts :
      (gap : Chain Db → Chain Db) (parent b : Block) (c : Chain Db)
      → ((b.header.height % retarget_interval == 0) && ltb 0 b.header.height) ≡ false
      → lookup b.header.height c.blocks ≡ none
      → find_by_hash (block_hash env.crypto) b.header.parent_hash c.blocks ≡ some parent
      → parent.header.height ≡ pred_u64 b.header.height
      → (execute_transactions env b.transactions c).0 ≡ ok tt
      → (import_core env gap b c).0 ≡ ok extended
  unfolding import_core
  import_core_accepts gap parent b c plain free found follows ran =
      let child : (b.header.parent_hash == block_hash env.crypto parent) ≡ true =
        rw (find_by_hash_found (block_hash env.crypto) b.header.parent_hash c.blocks parent found)
          (==_refl b.header.parent_hash) in
      rw (free, import_core, found)
        (import_on_accepts gap parent b c plain child
          (rw follows (==_refl (pred_u64 b.header.height))) ran)
