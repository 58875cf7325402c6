-- ===== src/State/Steps.antt =====
-- The three writes of a transfer, and what each account reads before and after them.
use poai.Prelude.{
  ◌+◌, ◌%◌, ◌^◌, ◌≡◌, ap, ◌∙◌, ◌≢◌, inl, inr, Bytes, ◌==◌, bytes_eq, nat_eq, if◌then◌else◌, arith,
  ==_refl, ==→eq, Bool-cases,
}
use poai.Prelude.Int.{ℤ, pos, abs, ◌+ℤ◌, ◌-ℤ◌, ◌≤ℤ◌, int_laws}
use poai.Result.{ok}
use poai.Badger.{Badger}
use poai.Tx.{Transaction}
use poai.State.{
  total_cost, get_balance, set_balance, add_balance, sub_balance, get_nonce, set_nonce,
  increment_nonce, execute_transfer,
}
use poai.State.Access.{
  get_balance-set_balance_self, get_balance-set_balance_ne, get_nonce-set_balance,
  get_nonce-set_nonce_self, get_nonce-set_nonce_ne, get_balance-set_nonce,
}

pub pos-abs : (a : ℤ) → pos 0 ≤ℤ a → pos (abs a) ≡ a
pos-abs a h = ground arith

module _ {Db : Type 0} (store : Badger Db) where
  pub get_balance_nonneg : (addr : Bytes) (db : Db) → pos 0 ≤ℤ get_balance store addr db
  unfolding get_balance
  get_balance_nonneg addr db = omega arith

  -- The three writes of a transfer that went through, `db1` and `db2` being the states between them.
  pub record Steps (tx : Transaction) (db db' : Db) : Type 0 where
    pub nonce_ok : tx.nonce ≡ get_nonce store tx.from db
    pub covered : total_cost tx ≤ℤ get_balance store tx.from db
    pub db1 : Db
    pub db2 : Db
    pub debit :
        set_balance store tx.from (get_balance store tx.from db -ℤ total_cost tx) db ≡ (ok tt, db1)
    pub credit :
        set_balance store tx.to (get_balance store tx.to db1 +ℤ tx.amount) db1 ≡ (ok tt, db2)
    pub bump :
        set_nonce store tx.from ((get_nonce store tx.from db2 + 1) % 2 ^ 64) db2 ≡ (ok tt, db')

  pub execute_transfer-Steps :
      (tx : Transaction) (db db' : Db)
      → execute_transfer store tx db ≡ (ok tt, db')
      → Steps tx db db'
  unfolding execute_transfer sub_balance add_balance increment_nonce
  execute_transfer-Steps tx db db' e = record {
    nonce_ok = ground arith;
    covered = ground arith;
    db1 = (set_balance store tx.from (get_balance store tx.from db -ℤ total_cost tx) db).1;
    db2 =
        (add_balance store tx.to tx.amount
          (set_balance store tx.from (get_balance store tx.from db -ℤ total_cost tx) db).1).1;
    debit = ground arith;
    credit = ground arith;
    bump = ground arith;
  }

  -- What an account reads before and after the three writes.
  module _ (tx : Transaction) (db db' : Db) (steps : Steps tx db db') where
    pub nonce_after_self : get_nonce store tx.from db' ≡ (get_nonce store tx.from db + 1) % 2 ^ 64
    nonce_after_self =
        get_nonce-set_nonce_self store tx.from _ steps.db2 db' (omega arith) steps.bump
        ∙ ap (λ n. (n + 1) % 2 ^ 64) unwritten
      where
        unwritten : get_nonce store tx.from steps.db2 ≡ get_nonce store tx.from db
        unwritten =
            get_nonce-set_balance store tx.to tx.from _ steps.db1 steps.db2 steps.credit
            ∙ get_nonce-set_balance store tx.from tx.from _ db steps.db1 steps.debit

    pub nonce_after_ne :
        (addr : Bytes) → tx.from ≢ addr → get_nonce store addr db' ≡ get_nonce store addr db
    nonce_after_ne addr ne =
        get_nonce-set_nonce_ne store tx.from addr _ steps.db2 db' ne steps.bump
        ∙ get_nonce-set_balance store tx.to addr _ steps.db1 steps.db2 steps.credit
        ∙ get_nonce-set_balance store tx.from addr _ db steps.db1 steps.debit

    -- The sender's balance between the debit and the credit.
    pub debited :
        get_balance store tx.from steps.db1 ≡ get_balance store tx.from db -ℤ total_cost tx
    debited =
        get_balance-set_balance_self store tx.from _ db steps.db1 steps.debit
        ∙ pos-abs _ (omega (int_laws, steps.covered))

    pub balance_after_to :
        get_balance store tx.to db' ≡ pos (abs (get_balance store tx.to steps.db1 +ℤ tx.amount))
    balance_after_to =
        get_balance-set_nonce store tx.from tx.to _ steps.db2 db' steps.bump
        ∙ get_balance-set_balance_self store tx.to _ steps.db1 steps.db2 steps.credit

    pub balance_after_ne :
        (addr : Bytes)
        → tx.to ≢ addr
        → get_balance store addr db' ≡ get_balance store addr steps.db1
    balance_after_ne addr ne =
        get_balance-set_nonce store tx.from addr _ steps.db2 db' steps.bump
        ∙ get_balance-set_balance_ne store tx.to addr _ steps.db1 steps.db2 ne steps.credit

    pub balance_debited_ne :
        (addr : Bytes)
        → tx.from ≢ addr
        → get_balance store addr steps.db1 ≡ get_balance store addr db
    balance_debited_ne addr ne =
        get_balance-set_balance_ne store tx.from addr _ db steps.db1 ne steps.debit

    balance_mid :
        (addr : Bytes)
        → get_balance store addr steps.db1 ≡ (
            if tx.from == addr
            then get_balance store tx.from db -ℤ total_cost tx
            else get_balance store addr db)
    balance_mid addr = elim (Bool-cases (tx.from == addr)) [
      | inl same ↦ rw same (rw (← ==→eq tx.from addr same) debited)
      | inr other ↦ rw other (balance_debited_ne addr (λ p. ground (arith, ==_refl addr)))
    ]

    pub balance_after :
        (addr : Bytes)
        → get_balance store addr db' ≡ (
            if tx.to == addr
            then pos (
                abs (
                  (if tx.from == tx.to
                    then get_balance store tx.from db -ℤ total_cost tx
                    else get_balance store tx.to db)
                  +ℤ tx.amount))
            else (if tx.from == addr
                then get_balance store tx.from db -ℤ total_cost tx
                else get_balance store addr db))
    balance_after addr = elim (Bool-cases (tx.to == addr)) [
      | inl same ↦ rw same (
          rw (← ==→eq tx.to addr same)
            (balance_after_to ∙ ap (λ b. pos (abs (b +ℤ tx.amount))) (balance_mid tx.to)))
      | inr other ↦
          rw other (balance_after_ne addr (λ p. ground (arith, ==_refl addr)) ∙ balance_mid addr)
    ]

    pub nonce_after :
        (addr : Bytes)
        → get_nonce store addr db' ≡ (
            if tx.from == addr
            then (get_nonce store tx.from db + 1) % 2 ^ 64
            else get_nonce store addr db)
    nonce_after addr = elim (Bool-cases (tx.from == addr)) [
      | inl same ↦ rw same (rw (← ==→eq tx.from addr same) nonce_after_self)
      | inr other ↦ rw other (nonce_after_ne addr (λ p. ground (arith, ==_refl addr)))
    ]
