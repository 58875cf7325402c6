-- ===== src/State/Ledger/Supply.antt =====
-- How transactions change the sum of the balances of a ledger.
use poai.Prelude.{
  ◌≡◌, refl, sym, ap, ◌∙◌, ◌≢◌, ◌⊎◌, inl, inr, true, false, List, [], ◌∷◌, Bytes, ◌==◌, bytes_eq,
  nat_eq, if◌then◌else◌, arith, All, Bool-cases, ==_refl, ne→==_false,
}
use poai.Prelude.Int.{pos_part, neg_part, ℤ, pos, abs, ◌+ℤ◌, ◌-ℤ◌, ◌≤ℤ◌, int_laws, ltb_ℤ}
use poai.Result.{Result, ok, Result-cases}
use poai.Crypto.{Crypto}
use poai.Tx.{Transaction, verify, is_coinbase}
use poai.State.{gas_cost, total_cost}
use poai.State.Steps.{pos-abs}
use poai.State.Supply.{sum, count, sum_changed}
use poai.State.Ledger.{Ledger, replace, debit, credit, bump, apply, apply_all}

-- No balance is negative.
abbrev pub IsSolvent : Ledger → Type 0
IsSolvent l = (addr : Bytes) → pos 0 ≤ℤ l.balances addr

-- A transaction of a non-negative amount whose accounts are listed once each. A coinbase has no sender.
pub record IsListed (addrs : List Bytes) (tx : Transaction) : Type 0 where
  pub nonneg : pos 0 ≤ℤ tx.amount
  pub to_once : count tx.to addrs ≡ 1
  pub from_once : is_coinbase tx ≡ false → count tx.from addrs ≡ 1

-- What the coinbases pay out, and what the others pay for gas.
abbrev pub minted : List Transaction → ℤ
minted [] = pos 0
minted (tx ∷ txs) = (if is_coinbase tx then tx.amount else pos 0) +ℤ minted txs

abbrev pub burned : List Transaction → ℤ
burned [] = pos 0
burned (tx ∷ txs) = (if is_coinbase tx then pos 0 else gas_cost tx) +ℤ burned txs

replace_ne : (k : Bytes) (v : ℤ) (f : Bytes → ℤ) (j : Bytes) → k ≢ j → replace k v f j ≡ f j
replace_ne k v f j ne = rw (ne→==_false k j ne) refl

replace_self : (k : Bytes) (v : ℤ) (f : Bytes → ℤ) → replace k v f k ≡ v
replace_self k v f = rw (==_refl k) refl

-- One balance is replaced.
sum-replace :
    (k : Bytes) (v : ℤ) (f : Bytes → ℤ) (addrs : List Bytes)
    → count k addrs ≡ 1
    → sum (replace k v f) addrs +ℤ f k ≡ sum f addrs +ℤ v
sum-replace k v f addrs once =
    sum_changed k f (replace k v f) (replace_ne k v f) addrs once
    ∙ ap (◌+ℤ◌ (sum f addrs)) (replace_self k v f)

replace-IsSolvent :
    (k : Bytes) (v : ℤ) (f : Bytes → ℤ)
    → pos 0 ≤ℤ v
    → ((addr : Bytes) → pos 0 ≤ℤ f addr)
    → (addr : Bytes) → pos 0 ≤ℤ replace k v f addr
replace-IsSolvent k v f new old addr = elim (Bool-cases (k == addr)) [
  | inl hit ↦ rw hit new
  | inr miss ↦ rw miss (old addr)
]

module _ (tx : Transaction) (l : Ledger) (addrs : List Bytes) (solvent : IsSolvent l) where
  credit-sum :
      pos 0 ≤ℤ tx.amount
      → count tx.to addrs ≡ 1
      → sum (credit tx l).balances addrs ≡ sum l.balances addrs +ℤ tx.amount
  credit-sum nonneg once =
      let given =
        sum-replace tx.to (pos (abs (l.balances tx.to +ℤ tx.amount))) l.balances addrs once in
      let exact = pos-abs (l.balances tx.to +ℤ tx.amount) (omega (int_laws, solvent tx.to)) in
      omega (int_laws, ap pos_part given, ap neg_part given, ap pos_part exact, ap neg_part exact)

  debit-sum :
      count tx.from addrs ≡ 1
      → sum (debit tx l).balances addrs +ℤ total_cost tx ≡ sum l.balances addrs
  unfolding ◌-ℤ◌
  debit-sum once =
      let taken = sum-replace tx.from (l.balances tx.from -ℤ total_cost tx) l.balances addrs once in
      omega (int_laws, ap pos_part taken, ap neg_part taken)

credit-IsSolvent : (tx : Transaction) (l : Ledger) → IsSolvent l → IsSolvent (credit tx l)
credit-IsSolvent tx l solvent =
    replace-IsSolvent tx.to (pos (abs (l.balances tx.to +ℤ tx.amount))) l.balances (omega int_laws)
      solvent

debit-IsSolvent :
    (tx : Transaction) (l : Ledger)
    → ltb_ℤ (l.balances tx.from) (total_cost tx) ≡ false
    → IsSolvent l
    → IsSolvent (debit tx l)
debit-IsSolvent tx l covered solvent =
    let enough : total_cost tx ≤ℤ l.balances tx.from = ground arith in
    replace-IsSolvent tx.from (l.balances tx.from -ℤ total_cost tx) l.balances
      (omega (int_laws, enough)) solvent

-- What a transaction that is applied did.
apply-ok :
    (crypto : Crypto) (tx : Transaction) (l : Ledger)
    → (apply crypto tx l).0 ≡ ok tt
    → ((is_coinbase tx ≡ true) × ((apply crypto tx l).1 ≡ credit tx l))
      ⊎ ((is_coinbase tx ≡ false)
          × ((ltb_ℤ (l.balances tx.from) (total_cost tx) ≡ false)
              × ((apply crypto tx l).1 ≡ bump tx (credit tx (debit tx l)))))
unfolding apply
apply-ok crypto tx l done = elim (Result-cases (verify crypto tx)) [
  | inr (e, refused) ↦ absurd (ground arith)
  | inl (_, verified) ↦ elim (Bool-cases (is_coinbase tx)) [
    | inl mints ↦ inl (mints, rw (verified, mints, apply) refl)
    | inr user ↦ elim (Bool-cases (tx.nonce == l.nonces tx.from)) [
      | inr stale ↦ absurd (ground arith)
      | inl fresh ↦ elim (Bool-cases (ltb_ℤ (l.balances tx.from) (total_cost tx))) [
        | inl short ↦ absurd (ground arith)
        | inr covered ↦ inr (user, (covered, rw (verified, user, fresh, covered, apply) refl))
      ]
    ]
  ]
]

apply-sum :
    (crypto : Crypto) (tx : Transaction) (l : Ledger) (addrs : List Bytes)
    → IsSolvent l
    → IsListed addrs tx
    → (apply crypto tx l).0 ≡ ok tt
    → (sum (apply crypto tx l).1.balances addrs +ℤ burned (tx ∷ [])
        ≡ sum l.balances addrs +ℤ minted (tx ∷ []))
      × IsSolvent (apply crypto tx l).1
unfolding total_cost
apply-sum crypto tx l addrs solvent listed done = elim (apply-ok crypto tx l done) [
  | inl (mints, shape) ↦
      let given = credit-sum tx l addrs solvent listed.nonneg listed.to_once in
      rw (shape, mints)
        (omega (int_laws, ap pos_part given, ap neg_part given), credit-IsSolvent tx l solvent)
  | inr (user, (covered, shape)) ↦
      let poorer = debit-IsSolvent tx l covered solvent in
      let taken = debit-sum tx l addrs solvent (listed.from_once user) in
      let given = credit-sum tx (debit tx l) addrs poorer listed.nonneg listed.to_once in
      rw (shape, user)
        (
          omega (
            int_laws,
            ap pos_part taken,
            ap neg_part taken,
            ap pos_part given,
            ap neg_part given,
          ),
          credit-IsSolvent tx (debit tx l) poorer,
        )
]

apply_all-next :
    (crypto : Crypto) (tx : Transaction) (txs : List Transaction) (l : Ledger)
    → (apply_all crypto (tx ∷ txs) l).0 ≡ ok tt
    → ((apply crypto tx l).0 ≡ ok tt)
      × (apply_all crypto (tx ∷ txs) l ≡ apply_all crypto txs (apply crypto tx l).1)
unfolding apply_all
apply_all-next crypto tx txs l done = elim (Result-cases (apply crypto tx l).0) [
  | inr (e, failed) ↦ absurd (ground arith)
  | inl (u, applied) ↦ (applied, rw (applied, apply_all) refl)
]

-- A list of transactions that are all applied changes the sum of the balances by what its coinbases pay
-- out and what is paid for gas.
pub apply_all-sum :
    (crypto : Crypto) (txs : List Transaction) (l : Ledger) (addrs : List Bytes)
    → IsSolvent l
    → All (IsListed addrs) txs
    → (apply_all crypto txs l).0 ≡ ok tt
    → sum (apply_all crypto txs l).1.balances addrs +ℤ burned txs
      ≡ sum l.balances addrs +ℤ minted txs
unfolding apply_all
apply_all-sum crypto [] l addrs solvent listed done = refl
apply_all-sum crypto (tx ∷ txs) l addrs solvent (first, rest) done =
    let (applied, shape) = apply_all-next crypto tx txs l done in
    let (one, solvent') = apply-sum crypto tx l addrs solvent first applied in
    let later =
      apply_all-sum crypto txs (apply crypto tx l).1 addrs solvent' rest
        (sym (ap (λ (p : Result (Unit {0}) × Ledger). p.0) shape) ∙ done) in
    rw shape
      (omega (int_laws, ap pos_part one, ap neg_part one, ap pos_part later, ap neg_part later))
