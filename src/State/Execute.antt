-- ===== src/State/Execute.antt =====
-- What `ExecuteTransaction` does to the accounts.
use poai.Prelude.{
  ℕ, ◌+◌, ◌%◌, ◌^◌, ◌≡◌, refl, sym, ap, ◌∙◌, ◌≢◌, false, Bytes, ◌==◌, bytes_eq, nat_eq,
  if◌then◌else◌, arith,
}
use poai.Prelude.Int.{pos, abs, ◌+ℤ◌, ◌-ℤ◌, ◌≤ℤ◌}
use poai.Result.{ok, err, invalid_nonce}
use poai.Badger.{Badger}
use poai.Crypto.{Crypto}
use poai.Tx.{Transaction, verify, is_coinbase, is_empty}
use poai.State.{total_cost, get_balance, get_nonce, execute_transfer, execute_transaction}
use poai.State.Steps.{
  Steps, execute_transfer-Steps, nonce_after_self, nonce_after_ne, debited, balance_after_to,
  balance_after_ne, balance_debited_ne, balance_after, nonce_after,
}

next_nonce_ne : (n : ℕ) → (n == (n + 1) % 2 ^ 64) ≡ false
next_nonce_ne n = ground arith

module _ {Db : Type 0} (store : Badger Db) (crypto : Crypto) where
  pub execute_transaction-Steps :
      (tx : Transaction) (db db' : Db)
      → is_coinbase tx ≡ false
      → execute_transaction store crypto tx db ≡ (ok tt, db')
      → (verify crypto tx ≡ ok tt) × Steps store tx db db'
  unfolding execute_transaction
  execute_transaction-Steps tx db db' user e =
      (ground arith, execute_transfer-Steps store tx db db' (ground arith))

  -- What a transfer that is accepted does. It was signed by its sender, bore the sender's nonce and
  -- was covered by the sender's balance. The sender is debited with the amount and the gas; then the
  -- recipient, who may be the sender, is credited with the amount (of a negative result the magnitude
  -- is stored). The sender's nonce goes up by one, and no other account changes.
  pub execute_transaction_effect :
      (tx : Transaction) (db db' : Db)
      → is_coinbase tx ≡ false
      → execute_transaction store crypto tx db ≡ (ok tt, db')
      → let debited_of = λ (addr : Bytes).
        if tx.from == addr
        then get_balance store tx.from db -ℤ total_cost tx
        else get_balance store addr db in
        (verify crypto tx ≡ ok tt)
        × (tx.nonce ≡ get_nonce store tx.from db)
        × (total_cost tx ≤ℤ get_balance store tx.from db)
        × ((addr : Bytes)
            → get_balance store addr db' ≡ (
                if tx.to == addr
                then pos (abs (debited_of tx.to +ℤ tx.amount))
                else debited_of addr))
        × ((addr : Bytes)
            → get_nonce store addr db' ≡ (
                if tx.from == addr
                then (get_nonce store tx.from db + 1) % 2 ^ 64
                else get_nonce store addr db))
  execute_transaction_effect tx db db' user e =
      let (verified, steps) = execute_transaction-Steps tx db db' user e in
      (
        verified,
        steps.nonce_ok,
        steps.covered,
        balance_after store tx db db' steps,
        nonce_after store tx db db' steps,
      )

  -- The same between two accounts.
  pub execute_transaction_between :
      (tx : Transaction) (db db' : Db)
      → is_coinbase tx ≡ false
      → tx.from ≢ tx.to
      → execute_transaction store crypto tx db ≡ (ok tt, db')
      → (verify crypto tx ≡ ok tt)
        × (tx.nonce ≡ get_nonce store tx.from db)
        × (total_cost tx ≤ℤ get_balance store tx.from db)
        × (get_balance store tx.from db' ≡ get_balance store tx.from db -ℤ total_cost tx)
        × (get_balance store tx.to db' ≡ pos (abs (get_balance store tx.to db +ℤ tx.amount)))
        × (get_nonce store tx.from db' ≡ (get_nonce store tx.from db + 1) % 2 ^ 64)
        × ((addr : Bytes)
            → tx.from ≢ addr
            → (get_nonce store addr db' ≡ get_nonce store addr db)
              × (tx.to ≢ addr → get_balance store addr db' ≡ get_balance store addr db))
  execute_transaction_between tx db db' user ne e =
      let (verified, steps) = execute_transaction-Steps tx db db' user e in
      (
        verified,
        steps.nonce_ok,
        steps.covered,
        balance_after_ne store tx db db' steps tx.from (λ p. ne (sym p))
            ∙ debited store tx db db' steps,
        balance_after_to store tx db db' steps
            ∙ ap (λ b. pos (abs (b +ℤ tx.amount)))
                (balance_debited_ne store tx db db' steps tx.to ne),
        nonce_after_self store tx db db' steps,
        λ addr from_ne. (
          nonce_after_ne store tx db db' steps addr from_ne,
          λ to_ne.
              balance_after_ne store tx db db' steps addr to_ne
              ∙ balance_debited_ne store tx db db' steps addr from_ne,
        ),
      )

  -- Once a transfer is executed, no other of its sender's transfers with the same nonce is: each one
  -- that verifies is refused for its nonce, a replay of the same transfer and a conflicting one alike.
  pub execute_transaction_replay :
      (tx other : Transaction) (db db' : Db)
      → is_coinbase tx ≡ false
      → execute_transaction store crypto tx db ≡ (ok tt, db')
      → other.from ≡ tx.from
      → other.nonce ≡ tx.nonce
      → verify crypto other ≡ ok tt
      → execute_transaction store crypto other db' ≡ (err invalid_nonce, db')
  unfolding execute_transaction execute_transfer is_coinbase
  execute_transaction_replay tx other db db' user e same_from same_nonce verified =
      let (_, steps) = execute_transaction-Steps tx db db' user e in
      let moved : get_nonce store other.from db' ≡ (other.nonce + 1) % 2 ^ 64 =
        rw (same_from, same_nonce, steps.nonce_ok) (nonce_after_self store tx db db' steps) in
      let sent : is_empty other.from ≡ false = rw same_from user in
      rw (verified, sent) (rw (moved, next_nonce_ne other.nonce) refl)
