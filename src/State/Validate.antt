-- ===== src/State/Validate.antt =====
-- `ValidateTransaction` foretells `ExecuteTransaction`, and what a refusal leaves behind.
use poai.Prelude.{
  ◌≡◌, refl, ap, ◌≢◌, inl, inr, true, false, arith, Bool-cases, Bytes, List, if◌then◌else◌, ◌==◌,
  nat_eq, bytes_eq,
}
use poai.Prelude.Int.{ℤ, ltb_ℤ, ◌-ℤ◌}
use poai.Result.{
  Result, ok, err, Action, ◌>>◌, Error, commit_failed, insufficient_balance, invalid_nonce,
}
use poai.Badger.{Badger, Reliable, Write}
use poai.Crypto.{Crypto}
use poai.Tx.{Transaction}
use poai.State.{
  get_nonce, get_balance, total_cost, commit, set_balance, add_balance, sub_balance, set_nonce,
  increment_nonce, execute_transfer, execute_transaction, validate_transaction,
}

module _ {Db : Type 0} (store : Badger Db) where
  abbrev transfer_verdict : Transaction → Db → Result (Unit {0})
  transfer_verdict tx db =
      if tx.nonce == get_nonce store tx.from db
      then (if ltb_ℤ (get_balance store tx.from db) (total_cost tx)
          then err insufficient_balance
          else ok tt)
      else err invalid_nonce

  -- The error of a write is `commit_failed`.
  commit-err :
      (ws : List Write) (db : Db) (e : Error) → (commit store ws db).0 ≡ err e → e ≡ commit_failed
  unfolding commit
  commit-err ws db e h = ground arith

  set_balance-err :
      (addr : Bytes) (amount : ℤ) (db : Db) (e : Error)
      → (set_balance store addr amount db).0 ≡ err e
      → e ≡ commit_failed
  unfolding set_balance
  set_balance-err addr amount db e h = commit-err _ db e h

  sub_balance-err :
      (addr : Bytes) (amount : ℤ) (db : Db) (e : Error)
      → ltb_ℤ (get_balance store addr db) amount ≡ false
      → (sub_balance store addr amount db).0 ≡ err e
      → e ≡ commit_failed
  unfolding sub_balance
  sub_balance-err addr amount db e covered h = set_balance-err addr _ db e (rw covered at h)

  add_balance-err :
      (addr : Bytes) (amount : ℤ) (db : Db) (e : Error)
      → (add_balance store addr amount db).0 ≡ err e
      → e ≡ commit_failed
  unfolding add_balance
  add_balance-err addr amount db e h = set_balance-err addr _ db e h

  increment_nonce-err :
      (addr : Bytes) (db : Db) (e : Error)
      → (increment_nonce store addr db).0 ≡ err e
      → e ≡ commit_failed
  unfolding increment_nonce set_nonce
  increment_nonce-err addr db e h = commit-err _ db e h

  module _ (reliable : Reliable store) where
    pub commit-ok : (ws : List Write) (db : Db) → (commit store ws db).0 ≡ ok tt
    unfolding commit
    commit-ok ws db = rw ((reliable ws db).1, commit) refl

    pub set_balance-ok :
        (addr : Bytes) (amount : ℤ) (db : Db) → (set_balance store addr amount db).0 ≡ ok tt
    unfolding set_balance
    set_balance-ok addr amount db = commit-ok _ db

    increment_nonce-ok : (addr : Bytes) (db : Db) → (increment_nonce store addr db).0 ≡ ok tt
    unfolding increment_nonce set_nonce
    increment_nonce-ok addr db = commit-ok _ db

    add_balance-ok :
        (addr : Bytes) (amount : ℤ) (db : Db) → (add_balance store addr amount db).0 ≡ ok tt
    unfolding add_balance
    add_balance-ok addr amount db = set_balance-ok addr _ db

    execute_transfer_lem :
        (tx : Transaction) (db : Db) → (execute_transfer store tx db).0 ≡ transfer_verdict tx db
    unfolding execute_transfer sub_balance
    execute_transfer_lem tx db =
        let debit = get_balance store tx.from db -ℤ total_cost tx in
        let db1 = (set_balance store tx.from debit db).1 in
        let db2 = (add_balance store tx.to tx.amount db1).1 in
        ground (
          arith,
          set_balance-ok tx.from debit db,
          add_balance-ok tx.to tx.amount db1,
          increment_nonce-ok tx.from db2,
        )

    -- Where writes do not fail, execution succeeds on exactly the transactions that validation accepts,
    -- and refuses the others with the same error.
    pub execute_transaction-validate_transaction :
        (crypto : Crypto) (tx : Transaction) (db : Db)
        → (execute_transaction store crypto tx db).0 ≡ validate_transaction store crypto tx db
    unfolding execute_transaction execute_transfer validate_transaction
    execute_transaction-validate_transaction crypto tx db =
        ground (arith, add_balance-ok tx.to tx.amount db, execute_transfer_lem tx db)

  -- The only error of an action is that of a write.
  abbrev WritesOnly : Action Db (Unit {0}) → Type 0
  WritesOnly m = (db : Db) (e : Error) → (m db).0 ≡ err e → e ≡ commit_failed

  >>-WritesOnly : (m k : Action Db (Unit {0})) → WritesOnly m → WritesOnly k → WritesOnly (m >> k)
  >>-WritesOnly m k hm hk db e h = ground (arith, hm db e, hk (m db).1 e)

  execute_transfer_writes :
      (tx : Transaction) (db : Db) (e : Error)
      → (tx.nonce == get_nonce store tx.from db) ≡ true
      → ltb_ℤ (get_balance store tx.from db) (total_cost tx) ≡ false
      → (execute_transfer store tx db).0 ≡ err e
      → e ≡ commit_failed
  unfolding execute_transfer
  execute_transfer_writes tx db e nonce_ok covered h =
      let credit = add_balance store tx.to tx.amount >> increment_nonce store tx.from in
      let h' : ((sub_balance store tx.from (total_cost tx) >> credit) db).0 ≡ err e =
        rw (nonce_ok, covered) at h in
      ground (
        arith,
        h',
        sub_balance-err tx.from (total_cost tx) db e covered,
        >>-WritesOnly (add_balance store tx.to tx.amount) (increment_nonce store tx.from)
            (add_balance-err tx.to tx.amount) (increment_nonce-err tx.from)
            (sub_balance store tx.from (total_cost tx) db).1 e,
      )

  execute_transfer_refused :
      (tx : Transaction) (e : Error) (db db' : Db)
      → execute_transfer store tx db ≡ (err e, db')
      → e ≢ commit_failed
      → (db' ≡ db) × (transfer_verdict tx db ≡ err e)
  execute_transfer_refused tx e db db' h ne =
      elim (Bool-cases (tx.nonce == get_nonce store tx.from db)) [
        | inr stale ↦ unfold execute_transfer in ground arith
        | inl fresh ↦ elim (Bool-cases (ltb_ℤ (get_balance store tx.from db) (total_cost tx))) [
          | inl short ↦ unfold execute_transfer in ground arith
          | inr covered ↦ absurd (
              ne (
                execute_transfer_writes tx db e fresh covered
                  (ap (λ (p : Result (Unit {0}) × Db). p.0) h)))
        ]
      ]

  -- An error of a write is `commit_failed`; every other refusal is decided before the first write, and
  -- leaves the database as it was.
  pub execute_transaction_refused :
      (crypto : Crypto) (tx : Transaction) (e : Error) (db db' : Db)
      → execute_transaction store crypto tx db ≡ (err e, db')
      → e ≢ commit_failed
      → (db' ≡ db) × (validate_transaction store crypto tx db ≡ err e)
  unfolding execute_transaction validate_transaction
  execute_transaction_refused crypto tx e db db' h ne =
      ground (arith, add_balance-err tx.to tx.amount db e, execute_transfer_refused tx e db db')
