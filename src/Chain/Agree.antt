-- ===== src/Chain/Agree.antt =====
-- Nodes that keep the same accounts: the execution of a block's transactions as steps of the ledger.
use poai.Prelude.{◌≡◌, refl, sym, ap, ◌∙◌, inl, inr, arith, List, [], ◌∷◌, nat_eq, bytes_eq}
use poai.Result.{Result, Result-cases, ok, err}
use poai.Badger.{Reliable}
use poai.Crypto.{Crypto}
use poai.Tx.{Transaction}
use poai.Block.{Block}
use poai.State.{execute_transaction}
use poai.State.Ledger.{Ledger, apply_all, view}
use poai.State.Ledger.Refine.{execute_transaction_refines}
use poai.Mempool.{remove_transactions}
use poai.Chain.{Env, Chain, notify_head_change}
use poai.Chain.Branches.{check_reorg-Untouched}
use poai.Chain.Extend.{accept_block-view}
use poai.Chain.Import.{Outcome, extended, execute_transactions, finish_import, accept_block}

-- What a block does to the ledger, with the outcome of its import.
abbrev pub block_on : Crypto → Block → Ledger → Result Outcome × Ledger
block_on crypto b l =
    let (r, l') = apply_all crypto b.transactions l in
    elim r [ err e ↦ (err e, l') | ok _ ↦ (ok extended, l') ]

pub block_on-ok :
    (crypto : Crypto) (b : Block) (l : Ledger)
    → (apply_all crypto b.transactions l).0 ≡ ok tt
    → block_on crypto b l ≡ (ok extended, (apply_all crypto b.transactions l).1)
block_on-ok crypto b l done = ground (arith, done)

module _ {Db : Type 0} (env : Env Db) (reliable : Reliable env.store) where
  pub execute_transactions_refines :
      (txs : List Transaction) (c : Chain Db)
      → let (r, c') = execute_transactions env txs c in
        (r, view env.store c'.db) ≡ apply_all env.crypto txs (view env.store c.db)
  unfolding execute_transactions apply_all
  execute_transactions_refines [] c = refl
  execute_transactions_refines (tx ∷ txs) c =
      let step = execute_transaction_refines env.store reliable env.crypto tx c.db in
      let verdict = ap (λ (p : Result (Unit {0}) × Ledger). p.0) step in
      let accounts = ap (λ (p : Result (Unit {0}) × Ledger). p.1) step in
      let c1 : Chain Db = record c { db = (execute_transaction env.store env.crypto tx c.db).1 } in
      elim (Result-cases (execute_transaction env.store env.crypto tx c.db).0) [
        | inr (e, failed) ↦
            rw (failed, execute_transactions)
              (rw (sym verdict ∙ failed, apply_all) (ap (λ l. (err e, l)) accounts))
        | inl (_, done) ↦
            rw (done, execute_transactions)
              (rw (sym verdict ∙ done, apply_all)
                (execute_transactions_refines txs c1 ∙ ap (apply_all env.crypto txs) accounts))
      ]

  pub finish_import_refines :
      (b : Block) (c : Chain Db)
      → let (r, c') = finish_import env b c in
        (r, view env.store c'.db) ≡ block_on env.crypto b (view env.store c.db)
  unfolding finish_import notify_head_change
  finish_import_refines b c =
      let run = execute_transactions_refines b.transactions c in
      let verdict = ap (λ (p : Result (Unit {0}) × Ledger). p.0) run in
      let accounts = ap (λ (p : Result (Unit {0}) × Ledger). p.1) run in
      let c1 = (execute_transactions env b.transactions c).1 in
      let c2 : Chain Db = record c1 { mempool = remove_transactions b.transactions c1.mempool } in
      elim (Result-cases (execute_transactions env b.transactions c).0) [
        | inr (e, failed) ↦
            rw (failed, finish_import)
              (rw (sym verdict ∙ failed, block_on) (ap (λ l. (err e, l)) accounts))
        | inl (_, done) ↦
            rw (done, finish_import)
              (ap (λ l. (ok extended, l))
                  ((check_reorg-Untouched env (notify_head_change (accept_block env b c2))).2
                    ∙ accept_block-view env b c2
                    ∙ accounts)
                ∙ sym (block_on-ok env.crypto b (view env.store c.db) (sym verdict ∙ done)))
      ]

-- Two nodes whose databases read the same balances and nonces, and whose writes do not fail, agree on
-- every block that has passed the other checks, whatever else their databases, blocks, pools and side
-- branches hold: both take it or both refuse it with the same error, and afterwards they read the same
-- balances and nonces again, also after a refusal.
pub finish_import_agree :
    {Db Db' : Type 0} (env : Env Db) (env' : Env Db') (b : Block) (c : Chain Db) (c' : Chain Db')
    → Reliable env.store
    → Reliable env'.store
    → env.crypto ≡ env'.crypto
    → view env.store c.db ≡ view env'.store c'.db
    → ((finish_import env b c).0 ≡ (finish_import env' b c').0)
      × (view env.store (finish_import env b c).1.db
          ≡ view env'.store (finish_import env' b c').1.db)
finish_import_agree env env' b c c' reliable reliable' same_crypto same_view =
    let agree =
      finish_import_refines env reliable b c
      ∙ ap (λ crypto. block_on crypto b (view env.store c.db)) same_crypto
      ∙ ap (block_on env'.crypto b) same_view
      ∙ sym (finish_import_refines env' reliable' b c') in
    (
      ap (λ (p : Result Outcome × Ledger). p.0) agree,
      ap (λ (p : Result Outcome × Ledger). p.1) agree,
    )
