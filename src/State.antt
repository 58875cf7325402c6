-- ===== src/State.antt =====
-- Account balances and nonces in the database, and the execution of transactions
-- (poai/core/state.go).
pub mod Access
pub mod Steps
pub mod Execute
pub mod Supply
pub mod Validate
pub mod Ledger
use poai.Prelude.{
  ℕ, ◌+◌, ◌%◌, ◌^◌, not, Option, none, some, List, [], ◌∷◌, ◌++◌, Bytes, ◌==◌, nat_eq, bytes_eq,
  if◌then◌else◌,
}
use poai.Prelude.Int.{ℤ, pos, abs, ◌+ℤ◌, ◌-ℤ◌, ◌*ℤ◌, ltb_ℤ, to_int64}
use poai.Encoding.{codes, be_bytes, of_be, le_bytes, of_le}
use poai.Result.{
  Result, ok, err, Action, gets, lift, guard, invalid_nonce, insufficient_balance, commit_failed,
  ◌>>=◌, ◌>>◌,
}
use poai.Badger.{Badger, Write, put}
use poai.Crypto.{Crypto}
use poai.Tx.{Transaction, verify, is_coinbase}

abbrev pub balance_key : Bytes → Bytes
balance_key addr = codes "balance:" ++ addr

abbrev pub nonce_key : Bytes → Bytes
nonce_key addr = codes "nonce:" ++ addr

-- `gasCost` and `totalCost`; the gas limit is converted to `int64`.
unfoldable pub gas_cost : Transaction → ℤ
gas_cost tx = to_int64 tx.gas_limit *ℤ tx.gas_price

unfoldable pub total_cost : Transaction → ℤ
total_cost tx = tx.amount +ℤ gas_cost tx

-- The bytes of a stored number. A missing key reads as no bytes, hence as zero.
abbrev pub bytes_or_nil : Option Bytes → Bytes
bytes_or_nil none = []
bytes_or_nil (some val) = val

module _ {Db : Type 0} (store : Badger Db) where
  -- `db.Update` with its error.
  unfoldable pub commit : List Write → Action Db (Unit {0})
  commit ws db = elim (store.update ws db) [
    | none ↦ (err commit_failed, db)
    | some db' ↦ (ok tt, db')
  ]

  unfoldable pub get_balance : Bytes → Db → ℤ
  get_balance addr db = pos (of_be (bytes_or_nil (store.get (balance_key addr) db)))

  -- `Bytes` drops the sign.
  unfoldable pub set_balance : Bytes → ℤ → Action Db (Unit {0})
  unfolding commit
  set_balance addr amount = commit (put (balance_key addr) (be_bytes (abs amount)) ∷ [])

  unfoldable pub add_balance : Bytes → ℤ → Action Db (Unit {0})
  add_balance addr amount db = set_balance addr (get_balance addr db +ℤ amount) db

  unfoldable pub sub_balance : Bytes → ℤ → Action Db (Unit {0})
  sub_balance addr amount db =
      if ltb_ℤ (get_balance addr db) amount
      then (err insufficient_balance, db)
      else set_balance addr (get_balance addr db -ℤ amount) db

  unfoldable pub get_nonce : Bytes → Db → ℕ
  get_nonce addr db = of_le 8 (bytes_or_nil (store.get (nonce_key addr) db))

  unfoldable pub set_nonce : Bytes → ℕ → Action Db (Unit {0})
  unfolding commit
  set_nonce addr nonce = commit (put (nonce_key addr) (le_bytes 8 nonce) ∷ [])

  unfoldable pub increment_nonce : Bytes → Action Db (Unit {0})
  increment_nonce addr db = set_nonce addr ((get_nonce addr db + 1) % 2 ^ 64) db

  -- `ExecuteTransaction` behind the coinbase test.
  unfoldable pub execute_transfer : Transaction → Action Db (Unit {0})
  execute_transfer tx = do
    expected ← gets (get_nonce tx.from)
    guard (tx.nonce == expected) invalid_nonce
    balance ← gets (get_balance tx.from)
    guard (not (ltb_ℤ balance (total_cost tx))) insufficient_balance
    sub_balance tx.from (total_cost tx)
    add_balance tx.to tx.amount
    increment_nonce tx.from

  module _ (crypto : Crypto) where
    unfoldable pub execute_transaction : Transaction → Action Db (Unit {0})
    execute_transaction tx = do
      lift (verify crypto tx)
      if is_coinbase tx then add_balance tx.to tx.amount else execute_transfer tx

    -- `ValidateTransaction` reads only.
    unfoldable pub validate_transaction : Transaction → Db → Result (Unit {0})
    validate_transaction tx db = elim (verify crypto tx) [
      | err e ↦ err e
      | ok _ ↦
          if is_coinbase tx
          then ok tt
          else (if tx.nonce == get_nonce tx.from db
              then (if ltb_ℤ (get_balance tx.from db) (total_cost tx)
                  then err insufficient_balance
                  else ok tt)
              else err invalid_nonce)
    ]

  unfoldable pub initialize_genesis_state : Action Db (Unit {0})
  initialize_genesis_state =
      set_balance (codes "test-account-12345678901234567890123456789012") (pos 1000)
