-- ===== src/Chain/Reject.antt =====
-- Blocks that are refused because a transaction fails.
use poai.Prelude.{
  ℕ, ◌≡◌, refl, ap, ◌∙◌, inl, inr, ◌≢◌, true, List, [], ◌∷◌, ◌++◌, arith, nat_eq, bytes_eq,
}
use poai.Prelude.Int.{ℤ, pos, ◌+ℤ◌, ◌≤ℤ◌, int_laws}
use poai.Result.{Result, ok, err, Error, commit_failed, Result-cases}
use poai.Tx.{Transaction, is_coinbase}
use poai.Block.{Block}
use poai.State.{execute_transaction, add_balance, set_balance, get_balance}
use poai.State.Access.{get_balance-set_balance_self}
use poai.State.Steps.{pos-abs, get_balance_nonneg}
use poai.State.Validate.{execute_transaction_refused}
use poai.Chain.{Env, Chain}
use poai.Chain.Import.{Outcome, execute_transactions, finish_import}

nonneg-+ℤ : (x y : ℤ) (a : ℕ) → pos 0 ≤ℤ x → y ≡ pos a → pos 0 ≤ℤ x +ℤ y
nonneg-+ℤ x y a h e = rw e (omega int_laws)

module _ {Db : Type 0} (env : Env Db) where
  pub execute_transactions-append :
      (txs us : List Transaction) (c c' : Chain Db)
      → execute_transactions env txs c ≡ (ok tt, c')
      → execute_transactions env (txs ++ us) c ≡ execute_transactions env us c'
  unfolding execute_transactions
  execute_transactions-append [] us c c' e =
      ap (λ (p : Result (Unit {0}) × Chain Db). execute_transactions env us p.1) e
  execute_transactions-append (tx ∷ txs) us c c' e =
      let c1 : Chain Db = record c { db = (execute_transaction env.store env.crypto tx c.db).1 } in
      elim (Result-cases (execute_transaction env.store env.crypto tx c.db).0) [
        | inl (_, done) ↦
            rw (done, execute_transactions)
              (execute_transactions-append txs us c1 c' (rw (done, execute_transactions) at e))
        | inr (fail, failed) ↦ absurd (ground arith)
      ]

  -- Only the database changes while transactions are executed.
  pub execute_transactions-frame :
      (txs : List Transaction) (c : Chain Db)
      → let c' = (execute_transactions env txs c).1 in c' ≡ record c { db = c'.db }
  unfolding execute_transactions
  execute_transactions-frame [] c = refl
  execute_transactions-frame (tx ∷ txs) c =
      let c1 : Chain Db = record c { db = (execute_transaction env.store env.crypto tx c.db).1 } in
      elim (Result-cases (execute_transaction env.store env.crypto tx c.db).0) [
        | inl (_, done) ↦ rw (done, execute_transactions) (execute_transactions-frame txs c1)
        | inr (fail, failed) ↦ rw (failed, execute_transactions) refl
      ]

  execute_transactions-stop :
      (bad : Transaction) (rest : List Transaction) (e : Error) (c : Chain Db) (db2 : Db)
      → execute_transaction env.store env.crypto bad c.db ≡ (err e, db2)
      → e ≢ commit_failed
      → execute_transactions env (bad ∷ rest) c ≡ (err e, c)
  unfolding execute_transactions
  execute_transactions-stop bad rest e c db2 failed ne =
      let (same, _) = execute_transaction_refused env.store env.crypto bad e c.db db2 failed ne in
      let refused : (execute_transaction env.store env.crypto bad c.db).0 ≡ err e =
        ap (λ (p : Result (Unit {0}) × Db). p.0) failed in
      let unchanged : (execute_transaction env.store env.crypto bad c.db).1 ≡ c.db =
        ap (λ (p : Result (Unit {0}) × Db). p.1) failed ∙ same in
      rw (refused, execute_transactions, unchanged) refl

  pub execute_one :
      (tx : Transaction) (c : Chain Db) (db' : Db)
      → execute_transaction env.store env.crypto tx c.db ≡ (ok tt, db')
      → execute_transactions env (tx ∷ []) c ≡ (ok tt, record c { db = db' })
  unfolding execute_transactions
  execute_one tx c db' executed =
      let done : (execute_transaction env.store env.crypto tx c.db).0 ≡ ok tt =
        ap (λ (p : Result (Unit {0}) × Db). p.0) executed in
      let left : (execute_transaction env.store env.crypto tx c.db).1 ≡ db' =
        ap (λ (p : Result (Unit {0}) × Db). p.1) executed in
      rw (done, execute_transactions, left) refl

  -- A block is refused for the first of its transactions that fails (a write of the database apart), but
  -- the transactions before it stay executed: the chain is as they have left it.
  pub finish_import_partial :
      (b : Block) (good rest : List Transaction) (bad : Transaction) (e : Error) (c c1 : Chain Db)
      (db2 : Db)
      → b.transactions ≡ good ++ (bad ∷ rest)
      → execute_transactions env good c ≡ (ok tt, c1)
      → execute_transaction env.store env.crypto bad c1.db ≡ (err e, db2)
      → e ≢ commit_failed
      → finish_import env b c ≡ (err e, c1)
  unfolding finish_import
  finish_import_partial b good rest bad e c c1 db2 txs executed failed ne =
      let stopped : execute_transactions env b.transactions c ≡ (err e, c1) =
        ap (λ (t : List Transaction). execute_transactions env t c) txs
        ∙ execute_transactions-append good (bad ∷ rest) c c1 executed
        ∙ execute_transactions-stop bad rest e c1 db2 failed ne in
      let refused : (execute_transactions env b.transactions c).0 ≡ err e =
        ap (λ (p : Result (Unit {0}) × Chain Db). p.0) stopped in
      let left : (execute_transactions env b.transactions c).1 ≡ c1 =
        ap (λ (p : Result (Unit {0}) × Chain Db). p.1) stopped in
      rw (refused, finish_import, left) refl

  coinbase_write :
      (minting : Transaction) (a : ℕ) (c : Chain Db) (db1 : Db)
      → execute_transaction env.store env.crypto minting c.db ≡ (ok tt, db1)
      → is_coinbase minting ≡ true
      → minting.amount ≡ pos a
      → get_balance env.store minting.to db1 ≡ get_balance env.store minting.to c.db +ℤ pos a
  unfolding execute_transaction add_balance
  coinbase_write minting a c db1 executed mints amount =
      let total = get_balance env.store minting.to c.db +ℤ minting.amount in
      let written : set_balance env.store minting.to total c.db ≡ (ok tt, db1) = ground arith in
      get_balance-set_balance_self env.store minting.to total c.db db1 written
      ∙ pos-abs total (
          nonneg-+ℤ (get_balance env.store minting.to c.db) minting.amount a
            (get_balance_nonneg env.store minting.to c.db) amount)
      ∙ ap (λ n. get_balance env.store minting.to c.db +ℤ n) amount

  -- A block's coinbase transactions are not checked: each creates its amount for its recipient, whatever
  -- the subsidy. If the next transaction of the block fails (a write of the database apart), the block is
  -- refused, and the recipient keeps the coins.
  pub refused_block_mints :
      (b : Block) (minting bad : Transaction) (rest : List Transaction) (a : ℕ) (e : Error)
      (c : Chain Db) (db1 db2 : Db)
      → b.transactions ≡ minting ∷ (bad ∷ rest)
      → is_coinbase minting ≡ true
      → minting.amount ≡ pos a
      → execute_transaction env.store env.crypto minting c.db ≡ (ok tt, db1)
      → execute_transaction env.store env.crypto bad db1 ≡ (err e, db2)
      → e ≢ commit_failed
      → let (r, c') = finish_import env b c in
        (r ≡ err e)
        × (get_balance env.store minting.to c'.db ≡ get_balance env.store minting.to c.db +ℤ pos a)
        × (c'.blocks ≡ c.blocks)
        × (c'.head ≡ c.head)
  refused_block_mints b minting bad rest a e c db1 db2 txs mints amount executed failed ne =
      let c1 : Chain Db = record c { db = db1 } in
      let stopped : finish_import env b c ≡ (err e, c1) =
        finish_import_partial b (minting ∷ []) rest bad e c c1 db2 txs
          (execute_one minting c db1 executed) failed ne in
      let left : (finish_import env b c).1 ≡ c1 =
        ap (λ (p : Result Outcome × Chain Db). p.1) stopped in
      (
        ap (λ (p : Result Outcome × Chain Db). p.0) stopped,
        ap (λ (d : Chain Db). get_balance env.store minting.to d.db) left
            ∙ coinbase_write minting a c db1 executed mints amount,
        ap (λ (d : Chain Db). d.blocks) left,
        ap (λ (d : Chain Db). d.head) left,
      )
