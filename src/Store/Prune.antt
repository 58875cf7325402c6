-- ===== src/Store/Prune.antt =====
-- Pruning removes the old blocks and nothing else.
use poai.Prelude.{
  ℕ, zero, suc, ◌+◌, ◌<◌, ◌^◌, ◌≡◌, refl, ◌∙◌, inl, inr, Option, none, some, List, [], ◌∷◌, ◌++◌,
  Bytes, ◌==◌, nat_eq, bytes_eq, if◌then◌else◌, arith, ltb, Bool-cases, Option-cases,
}
use poai.Result.{ok, err, key_not_found}
use poai.Badger.{Badger, Write, put, del, written}
use poai.State.{balance_key, nonce_key, commit}
use poai.State.Ledger.{view, view-cong}
use poai.State.Access.{get-commit}
use poai.Store.{
  Codec, block_key, tip_key, get_block, get_tip_height, deletions, min_keep, prune_blocks,
}
use poai.Store.Blocks.{block_key-==}

written-append :
    (ws us : List Write) (k : Bytes) (v : Option Bytes)
    → written (ws ++ us) k v ≡ written us k (written ws k v)
written-append [] us k v = refl
written-append (put j w ∷ ws) us k v = written-append ws us k (if j == k then some w else v)
written-append (del j ∷ ws) us k v = written-append ws us k (if j == k then none else v)

module _ {Db : Type 0} (store : Badger Db) where
  written-deletions :
      (m k : ℕ) (v : Option Bytes)
      → written (deletions m) (block_key k) v ≡ (if ltb k m then none else v)
  unfolding deletions
  written-deletions zero k v = ground arith
  written-deletions (suc m) k v =
      written-append (deletions m) (del (block_key m) ∷ []) (block_key k) v
      ∙ rw (block_key-== m k, written-deletions m k v) (ground arith)

  written-deletions_tip : (m : ℕ) (v : Option Bytes) → written (deletions m) tip_key v ≡ v
  unfolding deletions
  written-deletions_tip zero v = refl
  written-deletions_tip (suc m) v =
      written-append (deletions m) (del (block_key m) ∷ []) tip_key v ∙ written-deletions_tip m v

  below_min_keep :
      (keep_n tip k : ℕ)
      → 0 < keep_n
      → tip < 2 ^ 64
      → ltb k (min_keep keep_n tip) ≡ ltb (k + keep_n) (tip + 1)
  unfolding min_keep
  below_min_keep keep_n tip k pos_keep fits = ground arith

  get_block_after :
      (codec : Codec) (keep_n tip k : ℕ) (db db' : Db)
      → 0 < keep_n
      → tip < 2 ^ 64
      → prune_blocks store keep_n tip db ≡ (ok tt, db')
      → get_block store codec k db'
        ≡ (if ltb (k + keep_n) (tip + 1) then err key_not_found else get_block store codec k db)
  unfolding prune_blocks get_block
  get_block_after codec keep_n tip k db db' pos_keep fits e =
      let read =
        get-commit store _ (block_key k) db db' e
        ∙ written-deletions (min_keep keep_n tip) k (store.get (block_key k) db) in
      let bound = below_min_keep keep_n tip k pos_keep fits in
      elim (Bool-cases (ltb (k + keep_n) (tip + 1))) [
        | inl old ↦ rw (old, read, get_block, bound, old) refl
        | inr young ↦ rw (young, read, get_block, bound, young) refl
      ]

  -- Pruning at a tip in range removes the blocks below `tip - keep_n + 1`, and none if the chain is not
  -- that long; every other block, and the stored tip, read as before.
  pub prune_blocks_effect :
      (codec : Codec) (keep_n tip : ℕ) (db db' : Db)
      → 0 < keep_n
      → tip < 2 ^ 64
      → prune_blocks store keep_n tip db ≡ (ok tt, db')
      → ((k : ℕ)
          → get_block store codec k db' ≡ (
              if ltb (k + keep_n) (tip + 1) then err key_not_found else get_block store codec k db))
        × (get_tip_height store db' ≡ get_tip_height store db)
  unfolding prune_blocks get_tip_height
  prune_blocks_effect codec keep_n tip db db' pos_keep fits e = (
    λ k. get_block_after codec keep_n tip k db db' pos_keep fits e,
    rw
        (
          get-commit store _ tip_key db db' e,
          get_tip_height,
          written-deletions_tip (min_keep keep_n tip) (store.get tip_key db),
        )
        refl,
  )

  written-deletions_balance :
      (addr : Bytes) (m : ℕ) (v : Option Bytes) → written (deletions m) (balance_key addr) v ≡ v
  unfolding deletions
  written-deletions_balance addr zero v = refl
  written-deletions_balance addr (suc m) v =
      written-append (deletions m) (del (block_key m) ∷ []) (balance_key addr) v
      ∙ written-deletions_balance addr m v

  written-deletions_nonce :
      (addr : Bytes) (m : ℕ) (v : Option Bytes) → written (deletions m) (nonce_key addr) v ≡ v
  unfolding deletions
  written-deletions_nonce addr zero v = refl
  written-deletions_nonce addr (suc m) v =
      written-append (deletions m) (del (block_key m) ∷ []) (nonce_key addr) v
      ∙ written-deletions_nonce addr m v

  -- Pruning leaves the accounts alone, also when it fails.
  pub prune_blocks-view :
      (keep_n tip : ℕ) (db : Db) → view store (prune_blocks store keep_n tip db).1 ≡ view store db
  unfolding prune_blocks commit
  prune_blocks-view keep_n tip db =
      let m = min_keep keep_n tip in
      let ws = deletions m in
      elim (Option-cases (store.update ws db)) [
        | inl failed ↦ rw (failed, prune_blocks, commit) refl
        | inr (db', committed) ↦
            rw (committed, prune_blocks, commit)
              (view-cong store db db'
                (λ addr.
                  store.get-update ws (balance_key addr) db db' committed
                  ∙ written-deletions_balance addr m (store.get (balance_key addr) db))
                (λ addr.
                  store.get-update ws (nonce_key addr) db db' committed
                  ∙ written-deletions_nonce addr m (store.get (nonce_key addr) db)))
      ]
