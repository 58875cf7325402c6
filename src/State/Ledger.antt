-- ===== src/State/Ledger.antt =====
-- The ledger that the account state keeps: what its methods do to balances and nonces, without keys,
-- bytes and database transactions.
pub mod Refine
pub mod Supply
use poai.Prelude.{
  ℕ, ◌+◌, ◌%◌, ◌^◌, ◌≡◌, refl, sym, ap, ◌∙◌, ◌≢◌, inl, inr, true, false, Bytes, ◌==◌, bytes_eq,
  nat_eq, if◌then◌else◌, arith, Bool-cases, ==_refl, ==→eq, List, [], ◌∷◌,
}
use poai.Prelude.Int.{ℤ, pos, abs, ◌+ℤ◌, ◌-ℤ◌, ltb_ℤ}
use poai.Result.{Result, ok, err, invalid_nonce, insufficient_balance, Result-cases}
use poai.Badger.{Badger, Reliable}
use poai.Crypto.{Crypto}
use poai.Tx.{Transaction, verify, is_coinbase}
use poai.State.{
  total_cost, balance_key, nonce_key, get_balance, set_balance, add_balance, sub_balance, get_nonce,
  set_nonce, increment_nonce, execute_transfer, execute_transaction,
}
use poai.State.Access.{
  get_balance-set_balance_self, get_balance-set_balance_ne, get_nonce-set_balance,
  get_nonce-set_nonce_self, get_nonce-set_nonce_ne, get_balance-set_nonce,
}
use poai.State.Steps.{pos-abs}

-- Every account has a balance and a nonce, zero until it is written.
pub record Ledger : Type 0 where
  pub balances : Bytes → ℤ
  pub nonces : Bytes → ℕ

abbrev pub replace {ℓ} : {A : Type ℓ} → Bytes → A → (Bytes → A) → Bytes → A
replace k v f j = if k == j then v else f j

-- The sender pays the amount and the gas.
abbrev pub debit : Transaction → Ledger → Ledger
debit tx l = record l {
  balances = replace tx.from (l.balances tx.from -ℤ total_cost tx) l.balances;
}

-- The recipient gets the amount; of a negative balance the magnitude is kept.
abbrev pub credit : Transaction → Ledger → Ledger
credit tx l = record l {
  balances = replace tx.to (pos (abs (l.balances tx.to +ℤ tx.amount))) l.balances;
}

abbrev pub bump : Transaction → Ledger → Ledger
bump tx l = record l { nonces = replace tx.from ((l.nonces tx.from + 1) % 2 ^ 64) l.nonces }

-- A transfer is all or nothing.
abbrev pub transfer_on : Transaction → Ledger → Result (Unit {0}) × Ledger
transfer_on tx l =
    if tx.nonce == l.nonces tx.from
    then (if ltb_ℤ (l.balances tx.from) (total_cost tx)
        then (err insufficient_balance, l)
        else (ok tt, bump tx (credit tx (debit tx l))))
    else (err invalid_nonce, l)

module _ (crypto : Crypto) where
  unfoldable pub apply : Transaction → Ledger → Result (Unit {0}) × Ledger
  apply tx l = elim (verify crypto tx) [
    | err e ↦ (err e, l)
    | ok _ ↦ if is_coinbase tx then (ok tt, credit tx l) else transfer_on tx l
  ]

  -- A list of transactions up to its first error; what came before the error stays.
  unfoldable pub apply_all : List Transaction → Ledger → Result (Unit {0}) × Ledger
  unfolding apply
  apply_all [] l = (ok tt, l)
  apply_all (tx ∷ txs) l =
      let (r, l') = apply tx l in elim r [ err e ↦ (err e, l') | ok _ ↦ apply_all txs l' ]

module _ {Db : Type 0} (store : Badger Db) where
  -- What a database says of the accounts.
  abbrev pub view : Db → Ledger
  view db = record {
    balances = λ addr. get_balance store addr db;
    nonces = λ addr. get_nonce store addr db;
  }

pub Ledger-ext :
    (l m : Ledger)
    → ((addr : Bytes) → l.balances addr ≡ m.balances addr)
    → ((addr : Bytes) → l.nonces addr ≡ m.nonces addr)
    → l ≡ m
Ledger-ext l m hb hn = λ i. record { balances = λ addr. hb addr i; nonces = λ addr. hn addr i }

module _ {Db : Type 0} (store : Badger Db) where
  -- A database with the same values under the accounts' keys has the same ledger.
  pub view-cong :
      (db db' : Db)
      → ((addr : Bytes) → store.get (balance_key addr) db' ≡ store.get (balance_key addr) db)
      → ((addr : Bytes) → store.get (nonce_key addr) db' ≡ store.get (nonce_key addr) db)
      → view store db' ≡ view store db
  unfolding get_balance get_nonce
  view-cong db db' hb hn = Ledger-ext _ _ (λ addr. rw (hb addr) refl) (λ addr. rw (hn addr) refl)
