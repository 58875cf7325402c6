-- ===== src/Chain/Supply.antt =====
-- The coins that a block creates.
use poai.Prelude.{◌≡◌, sym, ap, ◌∙◌, inl, inr, List, Bytes, All, arith, nat_eq, bytes_eq}
use poai.Prelude.Int.{◌+ℤ◌}
use poai.Result.{Result, Result-cases, ok}
use poai.Badger.{Reliable}
use poai.Crypto.{Crypto}
use poai.Block.{Block}
use poai.State.Ledger.{Ledger, apply_all, view}
use poai.State.Ledger.Supply.{IsListed, minted, burned, apply_all-sum}
use poai.State.Steps.{get_balance_nonneg}
use poai.State.Supply.{sum, supply}
use poai.Chain.{Env, Chain}
use poai.Chain.Agree.{block_on, block_on-ok, finish_import_refines}
use poai.Chain.Import.{Outcome, extended, finish_import}

-- A block that is taken has applied all its transactions.
block_on-extended :
    (crypto : Crypto) (b : Block) (l : Ledger)
    → (block_on crypto b l).0 ≡ ok extended
    → ((apply_all crypto b.transactions l).0 ≡ ok tt)
      × ((block_on crypto b l).1 ≡ (apply_all crypto b.transactions l).1)
block_on-extended crypto b l taken = elim (Result-cases (apply_all crypto b.transactions l).0) [
  | inr (e, failed) ↦ absurd (ground arith)
  | inl (u, done) ↦ (done, ap (λ (p : Result Outcome × Ledger). p.1) (block_on-ok crypto b l done))
]

-- Where writes do not fail, and a block is taken, over any accounts that list every sender and every
-- recipient of the block once each, where no amount is negative, the sum of the balances changes by
-- exactly the amounts of the block's coinbases less the gas of its other transactions, also when a side
-- branch becomes the chain on the way. The gas is what the code computes: where it is negative, it adds
-- coins.
pub finish_import-supply :
    {Db : Type 0} (env : Env Db) (b : Block) (c : Chain Db) (addrs : List Bytes)
    → Reliable env.store
    → All (IsListed addrs) b.transactions
    → (finish_import env b c).0 ≡ ok extended
    → supply env.store addrs (finish_import env b c).1.db +ℤ burned b.transactions
      ≡ supply env.store addrs c.db +ℤ minted b.transactions
finish_import-supply env b c addrs reliable listed taken =
    let l = view env.store c.db in
    let refined = finish_import_refines env reliable b c in
    let verdict = ap (λ (p : Result Outcome × Ledger). p.0) refined in
    let accounts = ap (λ (p : Result Outcome × Ledger). p.1) refined in
    let (applied, after) = block_on-extended env.crypto b l (sym verdict ∙ taken) in
    ap (λ (m : Ledger). sum m.balances addrs +ℤ burned b.transactions) (accounts ∙ after)
    ∙ apply_all-sum env.crypto b.transactions l addrs
        (λ addr. get_balance_nonneg env.store addr c.db) listed applied
