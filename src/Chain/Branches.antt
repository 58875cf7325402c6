-- ===== src/Chain/Branches.antt =====
-- What a reorganisation changes, and what it leaves out.
use poai.Prelude.{
  ℕ, ◌≡◌, refl, ◌∙◌, inl, inr, List, [], ◌∷◌, Bytes, ltb, Bool-cases, Option-cases, last_or, nat_eq,
  bytes_eq,
}
use poai.Prelude.Assoc.{Assoc}
use poai.Encoding.{decimal}
use poai.Badger.{Badger, put}
use poai.Block.{Block}
use poai.State.{commit, balance_key, nonce_key}
use poai.State.Ledger.{view, view-cong}
use poai.Store.{Codec, put_block, block_key, tip_key}
use poai.Chain.{Env, Chain, pred_u64}
use poai.Chain.Reorg.{
  apply_block, apply_blocks, reorg_to_branch, consider_branch, consider_branches, check_reorg,
}

module _ {Db : Type 0} (store : Badger Db) (codec : Codec) where
  -- Writing a block leaves the accounts alone, also when the write fails.
  pub put_block-view :
      (h : ℕ) (b : Block) (db : Db) → view store (put_block store codec h b db).1 ≡ view store db
  unfolding put_block commit
  put_block-view h b db = elim (Option-cases (codec.encode b)) [
    | inl failed ↦ rw (failed, put_block) refl
    | inr (val, encoded) ↦
        let ws = put (block_key h) val ∷ put tip_key (decimal h) ∷ [] in
        elim (Option-cases (store.update ws db)) [
          | inl failed ↦ rw (encoded, put_block, failed, commit) refl
          | inr (db', committed) ↦
              rw (encoded, put_block, committed, commit)
                (view-cong store db db'
                  (λ addr. store.get-update ws (balance_key addr) db db' committed)
                  (λ addr. store.get-update ws (nonce_key addr) db db' committed))
        ]
  ]

module _ {Db : Type 0} (env : Env Db) where
  -- A reorganisation changes the blocks, the head, the store and the side branches only, and the
  -- balances and nonces in the store stay.
  pub record Untouched (c c' : Chain Db) : Type 0 where
    pub index : c'.block_hash_index ≡ c.block_hash_index
    pub pool : c'.mempool ≡ c.mempool
    pub orphans : c'.orphan_pool ≡ c.orphan_pool
    pub accounts : view env.store c'.db ≡ view env.store c.db

  Untouched-refl : (c : Chain Db) → Untouched c c
  Untouched-refl c = record { index = refl; pool = refl; orphans = refl; accounts = refl }

  Untouched-trans : (a b c : Chain Db) → Untouched a b → Untouched b c → Untouched a c
  Untouched-trans a b c u v = record {
    index = v.index ∙ u.index;
    pool = v.pool ∙ u.pool;
    orphans = v.orphans ∙ u.orphans;
    accounts = v.accounts ∙ u.accounts;
  }

  apply_block-Untouched : (b : Block) (c : Chain Db) → Untouched c (apply_block env b c)
  unfolding apply_block
  apply_block-Untouched b c = record {
    index = refl;
    pool = refl;
    orphans = refl;
    accounts = put_block-view env.store env.codec b.header.height b c.db;
  }

  apply_blocks-Untouched : (bs : List Block) (c : Chain Db) → Untouched c (apply_blocks env bs c)
  unfolding apply_blocks
  apply_blocks-Untouched [] c = Untouched-refl c
  apply_blocks-Untouched (b ∷ bs) c =
      Untouched-trans c (apply_block env b c) (apply_blocks env bs (apply_block env b c))
        (apply_block-Untouched b c) (apply_blocks-Untouched bs (apply_block env b c))

  consider_branch-Untouched :
      (h : Bytes) (branch : List Block) (c : Chain Db)
      → Untouched c (consider_branch env h branch c)
  unfolding consider_branch reorg_to_branch
  consider_branch-Untouched h [] c = Untouched-refl c
  consider_branch-Untouched h (b ∷ bs) c =
      let u = apply_blocks-Untouched (b ∷ bs) (record c { head = pred_u64 b.header.height }) in
      elim (Bool-cases (ltb c.head (last_or b bs).header.height)) [
        | inl taller ↦
            rw taller (record {
              index = u.index;
              pool = u.pool;
              orphans = u.orphans;
              accounts = u.accounts;
            })
        | inr not_taller ↦ rw not_taller (Untouched-refl c)
      ]

  consider_branches-Untouched :
      (branches : Assoc Bytes (List Block)) (c : Chain Db)
      → Untouched c (consider_branches env branches c)
  unfolding consider_branches
  consider_branches-Untouched [] c = Untouched-refl c
  consider_branches-Untouched ((h, branch) ∷ rest) c =
      Untouched-trans c (consider_branch env h branch c)
        (consider_branches env rest (consider_branch env h branch c))
        (consider_branch-Untouched h branch c)
        (consider_branches-Untouched rest (consider_branch env h branch c))

  pub check_reorg_frame : (c : Chain Db) → Untouched c (check_reorg env c)
  unfolding check_reorg
  check_reorg_frame c = consider_branches-Untouched c.side_branches c

  -- A reorganisation changes no balance and no nonce: it executes no transaction of the branch that it switches to, and
  -- undoes none of the blocks that it leaves. It does not enter the new blocks in the hash index.
  pub check_reorg-Untouched :
      (c : Chain Db)
      → ((check_reorg env c).block_hash_index ≡ c.block_hash_index)
        × ((check_reorg env c).mempool ≡ c.mempool)
        × (view env.store (check_reorg env c).db ≡ view env.store c.db)
  check_reorg-Untouched c = let u = check_reorg_frame c in (u.index, u.pool, u.accounts)
