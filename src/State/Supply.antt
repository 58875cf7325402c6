-- ===== src/State/Supply.antt =====
-- The sum of the balances of a set of accounts, and how a transfer changes it.
use poai.Prelude.{
  ℕ, ◌≡◌, refl, ap, ◌∙◌, ◌≢◌, inl, inr, false, List, [], ◌∷◌, Bytes, ◌==◌, bytes_eq, nat_eq,
  if◌then◌else◌, arith, ==_refl, ==→eq, Bool-cases, suc,
}
use poai.Prelude.Int.{pos_part, neg_part, ℤ, pos, abs, ◌+ℤ◌, ◌-ℤ◌, ◌≤ℤ◌, int_laws, negsuc}
use poai.Result.{ok}
use poai.Badger.{Badger}
use poai.Crypto.{Crypto}
use poai.Tx.{Transaction, is_coinbase}
use poai.State.{gas_cost, total_cost, get_balance, execute_transaction}
use poai.State.Steps.{
  Steps, debited, balance_after_to, balance_after_ne, balance_debited_ne, pos-abs,
  get_balance_nonneg,
}
use poai.State.Execute.{execute_transaction-Steps, execute_transaction_between}

abbrev pub sum : (Bytes → ℤ) → List Bytes → ℤ
sum f [] = pos 0
sum f (a ∷ bs) = f a +ℤ sum f bs

-- How often an address is listed.
abbrev pub count : Bytes → List Bytes → ℕ
count a [] = 0
count a (b ∷ bs) = if a == b then suc (count a bs) else count a bs

-- Two balance sheets that agree but at one account.
module _ (a : Bytes) (f g : Bytes → ℤ) (agree : (b : Bytes) → a ≢ b → g b ≡ f b) where
  sum_unlisted : (bs : List Bytes) → count a bs ≡ 0 → sum g bs ≡ sum f bs
  sum_unlisted [] h = refl
  sum_unlisted (b ∷ bs) h = elim (Bool-cases (a == b)) [
    | inl t ↦ absurd (ground arith)
    | inr other ↦
        ap (λ x. x +ℤ sum g bs) (agree b (λ e. ground (arith, ==_refl a)))
        ∙ ap (◌+ℤ◌ (f b)) (sum_unlisted bs (ground arith))
  ]

  pub sum_changed : (bs : List Bytes) → count a bs ≡ 1 → sum g bs +ℤ f a ≡ sum f bs +ℤ g a
  sum_changed [] h = absurd (omega arith)
  sum_changed (b ∷ bs) h = elim (Bool-cases (a == b)) [
    | inl t ↦ rw (← ==→eq a b t, sum_unlisted bs (ground arith)) (omega int_laws)
    | inr other ↦
        let rest = sum_changed bs (ground arith) in
        rw (agree b (λ e. ground (arith, ==_refl a)))
          (omega (int_laws, ap pos_part rest, ap neg_part rest))
  ]

module _ {Db : Type 0} (store : Badger Db) where
  -- The sum of the balances of the listed accounts.
  abbrev pub supply : List Bytes → Db → ℤ
  supply addrs db = sum (λ addr. get_balance store addr db) addrs

  supply-Steps :
      (tx : Transaction) (db db' : Db) (addrs : List Bytes)
      → Steps store tx db db'
      → pos 0 ≤ℤ tx.amount
      → count tx.from addrs ≡ 1
      → count tx.to addrs ≡ 1
      → supply addrs db' +ℤ gas_cost tx ≡ supply addrs db
  unfolding total_cost
  supply-Steps tx db db' addrs steps nonneg from_once to_once =
      let after_debit =
        sum_changed tx.from (λ addr. get_balance store addr db)
          (λ addr. get_balance store addr steps.db1) (balance_debited_ne store tx db db' steps)
          addrs from_once in
      let after_credit =
        sum_changed tx.to (λ addr. get_balance store addr steps.db1)
          (λ addr. get_balance store addr db') (balance_after_ne store tx db db' steps) addrs
          to_once in
      let d = debited store tx db db' steps in
      let c =
        balance_after_to store tx db db' steps
        ∙ pos-abs (get_balance store tx.to steps.db1 +ℤ tx.amount)
            (omega (int_laws, get_balance_nonneg store tx.to steps.db1)) in
      omega (
        int_laws,
        ap pos_part after_debit,
        ap neg_part after_debit,
        ap pos_part after_credit,
        ap neg_part after_credit,
        ap pos_part d,
        ap neg_part d,
        ap pos_part c,
        ap neg_part c,
      )

-- A transfer of a non-negative amount creates no coins: over any accounts that list the sender and the
-- recipient once each (they may be the same), the sum of the balances falls by exactly the gas cost.
pub execute_transaction-supply :
    {Db : Type 0} (store : Badger Db) (crypto : Crypto) (tx : Transaction) (db db' : Db)
    (addrs : List Bytes)
    → is_coinbase tx ≡ false
    → pos 0 ≤ℤ tx.amount
    → count tx.from addrs ≡ 1
    → count tx.to addrs ≡ 1
    → execute_transaction store crypto tx db ≡ (ok tt, db')
    → supply store addrs db' +ℤ gas_cost tx ≡ supply store addrs db
execute_transaction-supply store crypto tx db db' addrs user nonneg from_once to_once e =
    supply-Steps store tx db db' addrs (execute_transaction-Steps store crypto tx db db' user e).1
      nonneg from_once to_once

total_cost_free :
    (tx : Transaction) (a : ℕ)
    → tx.amount ≡ negsuc a
    → gas_cost tx ≡ pos 0
    → total_cost tx ≡ negsuc a
unfolding total_cost
total_cost_free tx a negative free =
    omega (int_laws, ap pos_part negative, ap neg_part negative, ap pos_part free, ap neg_part free)

pos-abs_neg : (a : ℤ) → a ≤ℤ pos 0 → pos (abs a) ≡ pos 0 -ℤ a
unfolding ◌-ℤ◌
pos-abs_neg a h = ground arith

credit_negative :
    (t x : ℤ) (a : ℕ) → x ≡ negsuc a → t ≤ℤ pos a → pos (abs (t +ℤ x)) ≡ pos (suc a) -ℤ t
credit_negative t x a h le =
    rw h (pos-abs_neg (t +ℤ negsuc a) (omega (int_laws, le)) ∙ omega int_laws)

-- Where a transfer of a negative amount -a between different accounts is executed without an error, its
-- gas is free and the recipient holds less than a, the sender gains a, the recipient's new balance is a
-- less what it held, and the two balances together grow: the transfer creates coins.
pub execute_transaction_negative :
    {Db : Type 0} (store : Badger Db) (crypto : Crypto) (tx : Transaction) (a : ℕ) (db db' : Db)
    → is_coinbase tx ≡ false
    → tx.from ≢ tx.to
    → tx.amount ≡ negsuc a
    → gas_cost tx ≡ pos 0
    → get_balance store tx.to db ≤ℤ pos a
    → execute_transaction store crypto tx db ≡ (ok tt, db')
    → (get_balance store tx.from db' ≡ get_balance store tx.from db +ℤ pos (suc a))
      × (get_balance store tx.to db' ≡ pos (suc a) -ℤ get_balance store tx.to db)
      × (get_balance store tx.from db +ℤ get_balance store tx.to db +ℤ pos 1
          ≤ℤ get_balance store tx.from db' +ℤ get_balance store tx.to db')
execute_transaction_negative store crypto tx a db db' user ne negative free poor e =
    let (_, _, _, from', to', _, _) =
      execute_transaction_between store crypto tx db db' user ne e in
    let total = total_cost_free tx a negative free in
    let sender : get_balance store tx.from db' ≡ get_balance store tx.from db +ℤ pos (suc a) =
      from' ∙ omega (int_laws, ap pos_part total, ap neg_part total) in
    let recipient : get_balance store tx.to db' ≡ pos (suc a) -ℤ get_balance store tx.to db =
      to' ∙ credit_negative (get_balance store tx.to db) tx.amount a negative poor in
    (sender, recipient, rw (sender, recipient) (omega (int_laws, poor)))
