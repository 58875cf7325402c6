-- ===== src/Chain/Reach/Invariant.antt =====
-- What holds of the chain at every moment.
use poai.Prelude.{
  ℕ, ◌≡◌, refl, sym, ap, subst, ◌∙◌, inl, inr, some, List, Bytes, ◌==◌, nat_eq, bytes_eq,
  Bool-cases, Option-cases, ==→eq,
}
use mathlib.Core.Option.{some-injective}
use poai.Prelude.Assoc.{Assoc, lookup, insert, erase, lookup-insert}
use poai.Result.{Result-cases}
use poai.Block.{Block, block_hash}
use poai.Mempool.{Mempool, remove_transactions}
use poai.Mempool.Add.{IsPool}
use poai.Mempool.Cleanup.{remove_transactions-IsPool}
use poai.Store.{get_block}
use poai.Chain.{
  Env, Chain, add_to_side_branch, add_to_orphan_pool, notify_head_change, header_by_height,
}
use poai.Chain.Heads.{HasHead}
use poai.Chain.Branches.{check_reorg_frame}
use poai.Chain.Reorg.{check_reorg}
use poai.Chain.Import.{accept_block}
use poai.Chain.Keep.{HasHead-ImportRule}
use poai.Chain.Keep.Rule.{Keeps, ImportRule}
use poai.Chain.Reach.Filed.{FiledIn, append_at-FiledIn, erase-FiledIn, check_reorg-FiledIn}

module _ {Db : Type 0} (env : Env Db) where
  -- The hash index has each block under its own hash.
  abbrev pub Indexed : Assoc Bytes Block → Type 0
  Indexed m = (h : Bytes) (b : Block) → lookup h m ≡ some b → block_hash env.crypto b ≡ h

  pub insert-Indexed :
      (b : Block) (m : Assoc Bytes Block)
      → Indexed m
      → Indexed (insert (block_hash env.crypto b) b m)
  insert-Indexed b m v h x e =
      let k = block_hash env.crypto b in
      let read = sym (lookup-insert h k b m) ∙ e in
      elim (Bool-cases (k == h)) [
        | inl same ↦
            let shape : b ≡ x = some-injective _ _ (rw same at read) in
            ap (block_hash env.crypto) (sym shape) ∙ ==→eq k h same
        | inr other ↦ v h x (rw other at read)
      ]

  -- Blocks that wait are filed under their parent's hash, the hash index has every block under its own
  -- hash, and the pool has every transaction once, under its own hash.
  pub record FilingOf (waiting side : Assoc Bytes (List Block)) (known : Assoc Bytes Block)
      (mempool : Mempool) : Type 0 where
    pub orphans : FiledIn waiting
    pub branches : FiledIn side
    pub index : Indexed known
    pub pool : IsPool mempool

  abbrev pub Filing : Chain Db → Type 0
  Filing c = FilingOf c.orphan_pool c.side_branches c.block_hash_index c.mempool

  pub record WellFormed (c : Chain Db) : Type 0 where
    pub head : HasHead env c
    pub filing : Filing c

  -- A change of the blocks, the head and the database leaves the filing.
  abbrev SameFiling : Chain Db → Chain Db → Type 0
  SameFiling c c' = c' ≡ record c { blocks = c'.blocks; head = c'.head; db = c'.db }

  Filing-same : (c c' : Chain Db) → SameFiling c c' → Filing c → Filing c'
  Filing-same c c' same f = subst Filing (sym same) f

  header_by_height-SameFiling : (h : ℕ) (c : Chain Db) → SameFiling c (header_by_height env h c).1
  unfolding header_by_height
  header_by_height-SameFiling h c = elim (Option-cases (lookup h c.blocks)) [
    | inr (b, found) ↦ rw (found, header_by_height) refl
    | inl missing ↦ elim (Result-cases (get_block env.store env.codec h c.db)) [
      | inl (b, loaded) ↦ rw (missing, header_by_height, loaded) refl
      | inr (e, failed) ↦ rw (missing, header_by_height, failed) refl
    ]
  ]

  pub header_by_height-WellFormed :
      (h : ℕ) → Keeps env WellFormed (λ c. (header_by_height env h c).1)
  header_by_height-WellFormed h c v = record {
    head = (HasHead-ImportRule env).header h c v.head;
    filing = Filing-same c (header_by_height env h c).1 (header_by_height-SameFiling h c) v.filing;
  }

  accept_block-Filing :
      (b : Block)
      → Keeps env Filing (λ c.
        accept_block env b (record c { mempool = remove_transactions b.transactions c.mempool }))
  unfolding accept_block
  accept_block-Filing b c f = record {
    orphans = f.orphans;
    branches = f.branches;
    index = insert-Indexed b c.block_hash_index f.index;
    pool = remove_transactions-IsPool b.transactions c.mempool f.pool;
  }

  check_reorg-Filing : Keeps env Filing (check_reorg env)
  check_reorg-Filing c f =
      let u = check_reorg_frame env c in
      record {
        orphans = subst FiledIn (sym u.orphans) f.orphans;
        branches = check_reorg-FiledIn env c f.branches;
        index = subst Indexed (sym u.index) f.index;
        pool = subst IsPool (sym u.pool) f.pool;
      }

  add_to_side_branch-Filing : (b : Block) → Keeps env Filing (add_to_side_branch b)
  unfolding add_to_side_branch
  add_to_side_branch-Filing b c f = record {
    orphans = f.orphans;
    branches = append_at-FiledIn b c.side_branches f.branches;
    index = f.index;
    pool = f.pool;
  }

  add_to_orphan_pool-Filing : (b : Block) → Keeps env Filing (add_to_orphan_pool b)
  unfolding add_to_orphan_pool
  add_to_orphan_pool-Filing b c f = record {
    orphans = append_at-FiledIn b c.orphan_pool f.orphans;
    branches = f.branches;
    index = f.index;
    pool = f.pool;
  }

  erase_orphans-Filing :
      (h : Bytes) → Keeps env Filing (λ c. record c { orphan_pool = erase h c.orphan_pool })
  erase_orphans-Filing h c f = record {
    orphans = erase-FiledIn h c.orphan_pool f.orphans;
    branches = f.branches;
    index = f.index;
    pool = f.pool;
  }

  pub WellFormed-ImportRule : ImportRule env WellFormed
  unfolding notify_head_change add_to_side_branch add_to_orphan_pool
  WellFormed-ImportRule =
      let heads = HasHead-ImportRule env in
      record {
        header = header_by_height-WellFormed;
        executed = λ db c v. record { head = v.head; filing = v.filing };
        accepted = λ b c v. record {
          head = heads.accepted b c v.head;
          filing = accept_block-Filing b c v.filing;
        };
        notified = λ c v. record { head = v.head; filing = v.filing };
        reorganised = λ c v. record {
          head = heads.reorganised c v.head;
          filing = check_reorg-Filing c v.filing;
        };
        side = λ b c v. record { head = v.head; filing = add_to_side_branch-Filing b c v.filing };
        orphaned =
            λ b c v. record { head = v.head; filing = add_to_orphan_pool-Filing b c v.filing };
        released = λ h c v. record { head = v.head; filing = erase_orphans-Filing h c v.filing };
        flagged = λ busy c v. record { head = v.head; filing = v.filing };
      }
