-- ===== src/Chain/Preseed.antt =====
-- `PreseedHeaders`: dummy blocks at the heights that have none.
use poai.Prelude.{
  ℕ, zero, suc, ◌≤◌, ◌<◌, ltb, ◌≡◌, refl, ◌≢◌, ◌⊎◌, inl, inr, none, some, [], ◌==◌, nat_eq,
  bytes_eq, if◌then◌else◌, arith, Bool-cases, Option-cases,
}
use poai.Prelude.Assoc.{lookup, insert, lookup-insert}
use poai.Prelude.Int.{ℤ, pos}
use poai.Result.{Result, ok, err, panicked}
use poai.Header.{zero_hash}
use poai.Block.{Block, block_hash}
use poai.Chain.{Env, Chain}

module _ {Db : Type 0} (env : Env Db) where
  -- `now` is the clock at the two calls of `time.Now`.
  unfoldable pub preseed_block : ℤ × ℤ → Block → ℕ → Block
  preseed_block now parent height = record {
    header = record {
      height = height;
      parent_hash = block_hash env.crypto parent;
      lhat = pos 0;
      bits = parent.header.bits;
      timestamp = now.0;
      state_root = zero_hash;
      nonce = 0;
    };
    transactions = [];
    merkle_root = [];
    time = now.1;
    receipts = [];
  }

  -- One round, for the height `n + 1`; the hash of a parent that is not in memory panics.
  unfoldable pub preseed_height : ℤ × ℤ → ℕ → Chain Db → Result (Unit {0}) × Chain Db
  unfolding preseed_block
  preseed_height now n c = elim (lookup (suc n) c.blocks) [
    | some existing ↦ (ok tt, c)
    | none ↦ elim (lookup n c.blocks) [
      | none ↦ (err panicked, c)
      | some parent ↦ (
        ok tt,
        record c {
          blocks = insert (suc n) (preseed_block now parent (suc n)) c.blocks;
          head = if ltb c.head (suc n) then suc n else c.head;
        },
      )
    ]
  ]

  -- The heights from 1 to `up_to`, which is below the last 64-bit number.
  unfoldable pub preseed_headers : (ℕ → ℤ × ℤ) → ℕ → Chain Db → Result (Unit {0}) × Chain Db
  unfolding preseed_height
  preseed_headers now zero c = (ok tt, c)
  preseed_headers now (suc n) c =
      let (r, c') = preseed_headers now n c in
      elim r [ err e ↦ (err e, c') | ok _ ↦ preseed_height (now n) n c' ]

  -- Every height up to one has a block, and the blocks that were there are kept.
  record Seeded (up_to : ℕ) (c c' : Chain Db) : Type 0 where
    full : (k : ℕ) → (up_to < k) ⊎ (lookup k c'.blocks ≢ none)
    kept : (k : ℕ) → (lookup k c.blocks ≡ none) ⊎ (lookup k c'.blocks ≡ lookup k c.blocks)
    raised : c.head ≤ c'.head
    stored : c'.db ≡ c.db

  preseed_height-Seeded :
      (now : ℤ × ℤ) (n : ℕ) (c c' : Chain Db)
      → Seeded n c c'
      → let (r, c'') = preseed_height now n c' in (r ≡ ok tt) × Seeded (suc n) c c''
  unfolding preseed_height
  preseed_height-Seeded now n c c' v = elim (Option-cases (lookup (suc n) c'.blocks)) [
    | inr (existing, taken) ↦
        rw (taken, preseed_height)
          (
            refl,
            record {
              full = λ k. elim (v.full k) [
                | inr there ↦ inr there
                | inl above ↦ elim (Bool-cases (ltb (suc n) k)) [
                  | inl beyond ↦ inl (ground arith)
                  | inr at ↦ inr (λ gone. ground arith)
                ]
              ];
              kept = v.kept;
              raised = v.raised;
              stored = v.stored;
            },
          )
    | inl free ↦ elim (Option-cases (lookup n c'.blocks)) [
      | inl gone ↦ absurd (elim (v.full n) [ inl above ↦ omega arith | inr there ↦ there gone ])
      | inr (parent, found) ↦
          let b = preseed_block now parent (suc n) in
          let inserted = λ (k : ℕ). lookup-insert k (suc n) b c'.blocks in
          rw (free, preseed_height, found)
            (
              refl,
              record {
                full = λ k. elim (v.full k) [
                  | inr there ↦ inr (λ gone. ground (arith, inserted k))
                  | inl above ↦ elim (Bool-cases (ltb (suc n) k)) [
                    | inl beyond ↦ inl (ground arith)
                    | inr at ↦ inr (λ gone. ground (arith, inserted k))
                  ]
                ];
                kept = λ k. elim (v.kept k) [
                  | inl new ↦ inl new
                  | inr old ↦ elim (Bool-cases (suc n == k)) [
                    | inl same ↦ inl (ground (arith, free, old))
                    | inr other ↦ inr (ground (arith, inserted k, old))
                  ]
                ];
                raised = ground (arith, v.raised);
                stored = v.stored;
              },
            )
    ]
  ]

  preseed_headers-Seeded :
      (now : ℕ → ℤ × ℤ) (n : ℕ) (c : Chain Db)
      → lookup 0 c.blocks ≢ none
      → let (r, c') = preseed_headers now n c in (r ≡ ok tt) × Seeded n c c'
  unfolding preseed_headers
  preseed_headers-Seeded now zero c genesis = (
    refl,
    record {
      full = λ k. elim (Bool-cases (ltb 0 k)) [
        | inl above ↦ inl (ground arith)
        | inr at ↦ inr (λ gone. genesis (ground arith))
      ];
      kept = λ k. inr refl;
      raised = omega arith;
      stored = refl;
    },
  )
  preseed_headers-Seeded now (suc n) c genesis =
      let (done, v) = preseed_headers-Seeded now n c genesis in
      rw (done, preseed_headers) (preseed_height-Seeded (now n) n c (preseed_headers now n c).1 v)

  -- Preseeding a chain that has its genesis block does not panic. Afterwards every height up to the one
  -- asked for has a block in memory, a height that had a block still has the same one, the head is not
  -- lowered, and nothing was written to the database.
  pub preseed_headers_effect :
      (now : ℕ → ℤ × ℤ) (up_to : ℕ) (c : Chain Db)
      → lookup 0 c.blocks ≢ none
      → let (r, c') = preseed_headers now up_to c in
        (r ≡ ok tt)
        × ((k : ℕ) → (up_to < k) ⊎ (lookup k c'.blocks ≢ none))
        × ((k : ℕ) → (lookup k c.blocks ≡ none) ⊎ (lookup k c'.blocks ≡ lookup k c.blocks))
        × (c.head ≤ c'.head)
        × (c'.db ≡ c.db)
  preseed_headers_effect now up_to c genesis =
      let (done, v) = preseed_headers-Seeded now up_to c genesis in
      (done, v.full, v.kept, v.raised, v.stored)
