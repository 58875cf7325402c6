-- ===== src/State/Ledger/Refine.antt =====
-- The account state in the database implements the ledger.
use poai.Prelude.{
  ℕ, ◌+◌, ◌%◌, ◌^◌, ◌<◌, ◌≡◌, refl, ap, ◌∙◌, inl, inr, false, Bytes, ◌==◌, bytes_eq, nat_eq, arith,
  Bool-cases, ==_refl, ==→eq,
}
use poai.Prelude.Int.{ℤ, pos, abs, ◌+ℤ◌, ◌-ℤ◌, ltb_ℤ, int_laws, ◌≤ℤ◌}
use poai.Result.{Action, ◌>>◌, Result, ok, Result-cases}
use poai.Badger.{Badger, Reliable}
use poai.Crypto.{Crypto}
use poai.Tx.{Transaction, verify, is_coinbase}
use poai.State.{
  total_cost, get_balance, set_balance, add_balance, sub_balance, get_nonce, set_nonce,
  increment_nonce, execute_transfer, execute_transaction,
}
use poai.State.Access.{
  get_balance-set_balance_self, get_balance-set_balance_ne, get_nonce-set_balance,
  get_nonce-set_nonce_self, get_nonce-set_nonce_ne, get_balance-set_nonce,
}
use poai.State.Validate.{set_balance-ok, commit-ok}
use poai.State.Steps.{pos-abs}
use poai.State.Ledger.{Ledger, Ledger-ext, replace, debit, credit, bump, transfer_on, apply, view}

module _ {Db : Type 0} (store : Badger Db) (reliable : Reliable store) where
  set_balance-done :
      (a : Bytes) (x : ℤ) (db : Db)
      → set_balance store a x db ≡ (ok tt, (set_balance store a x db).1)
  set_balance-done a x db =
      ap (λ r. (r, (set_balance store a x db).1)) (set_balance-ok store reliable a x db)

  set_balance_refines :
      (a : Bytes) (x : ℤ) (db : Db)
      → view store (set_balance store a x db).1
        ≡ record (view store db) { balances = replace a (pos (abs x)) (view store db).balances }
  set_balance_refines a x db =
      let db' = (set_balance store a x db).1 in
      let done = set_balance-done a x db in
      Ledger-ext _ _
        (λ addr. elim (Bool-cases (a == addr)) [
          | inl same ↦
              rw same
                (rw (← ==→eq a addr same) (get_balance-set_balance_self store a x db db' done))
          | inr other ↦ rw other (
              get_balance-set_balance_ne store a addr x db db' (λ p. ground (arith, ==_refl addr))
                done)
        ])
        (λ addr. get_nonce-set_balance store a addr x db db' done)

  set_nonce-done :
      (a : Bytes) (n : ℕ) (db : Db) → set_nonce store a n db ≡ (ok tt, (set_nonce store a n db).1)
  unfolding set_nonce
  set_nonce-done a n db = ap (λ r. (r, (set_nonce store a n db).1)) (commit-ok store reliable _ db)

  set_nonce_refines :
      (a : Bytes) (n : ℕ) (db : Db)
      → n < 2 ^ 64
      → view store (set_nonce store a n db).1
        ≡ record (view store db) { nonces = replace a n (view store db).nonces }
  set_nonce_refines a n db fits =
      let db' = (set_nonce store a n db).1 in
      let done = set_nonce-done a n db in
      Ledger-ext _ _ (λ addr. get_balance-set_nonce store a addr n db db' done)
        (λ addr. elim (Bool-cases (a == addr)) [
          | inl same ↦
              rw same
                (rw (← ==→eq a addr same) (get_nonce-set_nonce_self store a n db db' fits done))
          | inr other ↦ rw other (
              get_nonce-set_nonce_ne store a addr n db db' (λ p. ground (arith, ==_refl addr)) done)
        ])

  -- An action succeeds, and does to the view what a function does to the ledger.
  abbrev Does : Action Db (Unit {0}) → (Ledger → Ledger) → Db → Type 0
  Does m f db = ((m db).0 ≡ ok tt) × (view store (m db).1 ≡ f (view store db))

  >>-Does :
      (m k : Action Db (Unit {0})) (f g : Ledger → Ledger) (db : Db)
      → Does m f db
      → Does k g (m db).1
      → Does (m >> k) (λ l. g (f l)) db
  >>-Does m k f g db hm hk =
      let then_k : (m >> k) db ≡ k (m db).1 = ground (arith, hm.0) in
      (
        ap (λ (p : Result (Unit {0}) × Db). p.0) then_k ∙ hk.0,
        ap (λ (p : Result (Unit {0}) × Db). view store p.1) then_k ∙ hk.1 ∙ ap g hm.1,
      )

  credit-Does :
      (tx : Transaction) (db : Db) → Does (add_balance store tx.to tx.amount) (credit tx) db
  unfolding add_balance
  credit-Does tx db = (
    set_balance-ok store reliable tx.to _ db,
    set_balance_refines tx.to (get_balance store tx.to db +ℤ tx.amount) db,
  )

  covered_nonneg : (b t : ℤ) → ltb_ℤ b t ≡ false → pos (abs (b -ℤ t)) ≡ b -ℤ t
  covered_nonneg b t covered =
      let le : t ≤ℤ b = ground arith in pos-abs (b -ℤ t) (omega (int_laws, le))

  debit-Does :
      (tx : Transaction) (db : Db)
      → ltb_ℤ (get_balance store tx.from db) (total_cost tx) ≡ false
      → Does (sub_balance store tx.from (total_cost tx)) (debit tx) db
  unfolding sub_balance
  debit-Does tx db covered =
      let left = get_balance store tx.from db -ℤ total_cost tx in
      rw covered (
        set_balance-ok store reliable tx.from left db,
        set_balance_refines tx.from left db
            ∙ ap
                (λ x. record (view store db) {
                  balances = replace tx.from x (view store db).balances;
                })
                (covered_nonneg (get_balance store tx.from db) (total_cost tx) covered),
      )

  bump-Does : (tx : Transaction) (db : Db) → Does (increment_nonce store tx.from) (bump tx) db
  unfolding increment_nonce
  bump-Does tx db =
      let next = (get_nonce store tx.from db + 1) % 2 ^ 64 in
      (
        ap (λ (p : Result (Unit {0}) × Db). p.0) (set_nonce-done tx.from next db),
        set_nonce_refines tx.from next db (omega arith),
      )

  transfer_refines :
      (tx : Transaction) (db : Db)
      → let (r, db') = execute_transfer store tx db in
        (r, view store db') ≡ transfer_on tx (view store db)
  unfolding execute_transfer
  transfer_refines tx db = elim (Bool-cases (tx.nonce == get_nonce store tx.from db)) [
    | inr stale ↦ rw (stale, execute_transfer) refl
    | inl fresh ↦ elim (Bool-cases (ltb_ℤ (get_balance store tx.from db) (total_cost tx))) [
      | inl short ↦ rw (fresh, short, execute_transfer) refl
      | inr covered ↦
          let pay = sub_balance store tx.from (total_cost tx) in
          let give = add_balance store tx.to tx.amount in
          let moved =
            >>-Does pay (give >> increment_nonce store tx.from) (debit tx)
              (λ l. bump tx (credit tx l)) db (debit-Does tx db covered)
              (>>-Does give (increment_nonce store tx.from) (credit tx) (bump tx) (pay db).1
                (credit-Does tx (pay db).1) (bump-Does tx (give (pay db).1).1)) in
          rw (fresh, covered, execute_transfer) (λ i. (moved.0 i, moved.1 i))
    ]
  ]

  -- Where writes do not fail, `ExecuteTransaction` has the result of the ledger's step, and leaves the
  -- accounts as the ledger after that step: on a coinbase, on a transfer, and on every refusal.
  pub execute_transaction_refines :
      (crypto : Crypto) (tx : Transaction) (db : Db)
      → let (r, db') = execute_transaction store crypto tx db in
        (r, view store db') ≡ apply crypto tx (view store db)
  unfolding execute_transaction apply
  execute_transaction_refines crypto tx db = elim (Result-cases (verify crypto tx)) [
    | inr (e, refused) ↦ rw (refused, execute_transaction, apply) refl
    | inl (_, verified) ↦ elim (Bool-cases (is_coinbase tx)) [
      | inl minted ↦
          let given = credit-Does tx db in
          rw (verified, minted, execute_transaction, apply) (λ i. (given.0 i, given.1 i))
      | inr sent ↦ rw (verified, sent, execute_transaction, apply) (transfer_refines tx db)
    ]
  ]
