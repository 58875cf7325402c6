-- ===== src/Chain/Reach/Moves.antt =====
-- Emptying the pool and preseeding keep the chain in order.
use poai.Prelude.{
  ℕ, zero, suc, ◌≢◌, inl, inr, none, [], nat_eq, bytes_eq, if◌then◌else◌, arith, Bool-cases,
  Option-cases, ltb,
}
use poai.Prelude.Int.{ℤ}
use poai.Prelude.Assoc.{lookup, insert, lookup-insert, lookup-insert_self}
use poai.Result.{Result-cases}
use poai.Block.{Block}
use poai.Chain.{Env, Chain}
use poai.Chain.Heads.{HasHead}
use poai.Chain.Keep.Rule.{Keeps}
use poai.Chain.Preseed.{preseed_block, preseed_height, preseed_headers}
use poai.Chain.Reach.Invariant.{WellFormed}

module _ {Db : Type 0} (env : Env Db) where
  -- A scan empties the pool.
  pub emptied-WellFormed : Keeps env (WellFormed env) (λ c. record c { orphan_pool = [] })
  emptied-WellFormed c v = record {
    head = v.head;
    filing = record {
      orphans = λ h bs e. absurd (ground arith);
      branches = v.filing.branches;
      index = v.filing.index;
      pool = v.filing.pool;
    };
  }

  preseed_height-WellFormed :
      (now : ℤ × ℤ) (n : ℕ) → Keeps env (WellFormed env) (λ c. (preseed_height env now n c).1)
  unfolding preseed_height
  preseed_height-WellFormed now n c v = elim (Option-cases (lookup (suc n) c.blocks)) [
    | inr (existing, taken) ↦ rw (taken, preseed_height) v
    | inl free ↦ elim (Option-cases (lookup n c.blocks)) [
      | inl gone ↦ rw (free, preseed_height, gone) v
      | inr (parent, found) ↦
          rw (free, preseed_height, found)
            (record {
              head = seeded_head n (preseed_block env now parent (suc n)) c v.head;
              filing = v.filing;
            })
    ]
  ]
    where
      seeded_head :
          (n : ℕ) (b : Block) (c : Chain Db)
          → HasHead env c
          → lookup (if ltb c.head (suc n) then suc n else c.head) (insert (suc n) b c.blocks) ≢ none
      seeded_head n b c h gone = elim (Bool-cases (ltb c.head (suc n))) [
        | inl higher ↦ ground (arith, lookup-insert_self (suc n) b c.blocks)
        | inr lower ↦ ground (arith, h, lookup-insert c.head (suc n) b c.blocks)
      ]

  pub preseed_headers-WellFormed :
      (now : ℕ → ℤ × ℤ) (n : ℕ) → Keeps env (WellFormed env) (λ c. (preseed_headers env now n c).1)
  unfolding preseed_headers
  preseed_headers-WellFormed now zero c v = v
  preseed_headers-WellFormed now (suc n) c v =
      let v1 = preseed_headers-WellFormed now n c v in
      elim (Result-cases (preseed_headers env now n c).0) [
        | inr (e, failed) ↦ rw (failed, preseed_headers) v1
        | inl (_, done) ↦
            rw (done, preseed_headers)
              (preseed_height-WellFormed (now n) n (preseed_headers env now n c).1 v1)
      ]
