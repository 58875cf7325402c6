-- ===== src/Store/Blocks.antt =====
-- Blocks and the tip, read after a block was written, and their separation from the accounts.
use poai.Prelude.{
  ℕ, ◌<◌, ◌^◌, ◌≡◌, refl, ◌∙◌, inl, inr, some, [], ◌∷◌, ◌++◌, Bytes, ◌==◌, nat_eq, bytes_eq,
  if◌then◌else◌, arith, ==_refl, ==→eq, ne→==_false, Bool-cases, Option-cases,
}
use poai.Encoding.{codes, decimal}
use poai.Encoding.RoundTrip.{decimal_inj, parse_uint-decimal}
use poai.Result.{ok}
use poai.Badger.{Badger, put}
use poai.Block.{Block}
use poai.State.{commit, get_balance, get_nonce}
use poai.State.Access.{prefix_cancel, get-commit}
use poai.Store.{Codec, stored, block_key, tip_key, put_block, get_block, get_tip_height}

decimal-== : (h k : ℕ) → (decimal h == decimal k) ≡ (h == k)
decimal-== h k = elim (Bool-cases (h == k)) [
  | inl same ↦ rw (same, ==→eq h k same) (==_refl (decimal k))
  | inr other ↦
      rw other
        (ne→==_false (decimal h) (decimal k) (λ e. ground (arith, ==_refl h, decimal_inj h k e)))
]

pub block_key-== : (h k : ℕ) → (block_key h == block_key k) ≡ (h == k)
block_key-== h k = prefix_cancel (codes "block:") (decimal h) (decimal k) ∙ decimal-== h k

module _ {Db : Type 0} (store : Badger Db) (codec : Codec) where
  put_block_shape :
      (h : ℕ) (b : Block) (db db' : Db)
      → put_block store codec h b db ≡ (ok tt, db')
      → (val : Bytes) × (codec.encode b ≡ some val)
        × (commit store (put (block_key h) val ∷ put tip_key (decimal h) ∷ []) db ≡ (ok tt, db'))
  unfolding put_block
  put_block_shape h b db db' e = elim (Option-cases (codec.encode b)) [
    | inl failed ↦ absurd (ground arith)
    | inr (val, encoded) ↦ (val, encoded, rw (encoded, put_block) at e)
  ]

  get_block_after :
      (h k : ℕ) (b : Block) (val : Bytes) (db db' : Db)
      → codec.encode b ≡ some val
      → commit store (put (block_key h) val ∷ put tip_key (decimal h) ∷ []) db ≡ (ok tt, db')
      → get_block store codec k db' ≡ (if h == k then ok (stored b) else get_block store codec k db)
  unfolding get_block
  get_block_after h k b val db db' encoded committed =
      let read = get-commit store _ (block_key k) db db' committed in
      elim (Bool-cases (h == k)) [
        | inl same ↦
            rw (same, read, get_block, decimal-== h k, same, codec.decode-encode b val encoded) refl
        | inr other ↦ rw (other, read, get_block, decimal-== h k, other) refl
      ]

  -- After a block was written it is read at its height, as stored, and every other height reads as
  -- before. The tip is its height. Balances and nonces, which share the database, do not change.
  pub put_block_effect :
      (h : ℕ) (b : Block) (db db' : Db)
      → h < 2 ^ 64
      → put_block store codec h b db ≡ (ok tt, db')
      → ((k : ℕ)
          → get_block store codec k db'
            ≡ (if h == k then ok (stored b) else get_block store codec k db))
        × (get_tip_height store db' ≡ ok h)
        × ((addr : Bytes) → get_balance store addr db' ≡ get_balance store addr db)
        × ((addr : Bytes) → get_nonce store addr db' ≡ get_nonce store addr db)
  unfolding get_block get_tip_height get_balance get_nonce
  put_block_effect h b db db' fits e =
      let (val, encoded, committed) = put_block_shape h b db db' e in
      let read = λ (key : Bytes). get-commit store _ key db db' committed in
      (
        λ k. get_block_after h k b val db db' encoded committed,
        rw (read tip_key, get_tip_height, parse_uint-decimal h fits) refl,
        λ addr. rw (read (codes "balance:" ++ addr), get_balance) refl,
        λ addr. rw (read (codes "nonce:" ++ addr), get_nonce) refl,
      )
