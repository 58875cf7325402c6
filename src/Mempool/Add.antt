-- ===== src/Mempool/Add.antt =====
-- What `AddTransaction` lets into the pool, and the invariant of the pool.
use poai.Prelude.{
  ◌+◌, ◌≡◌, refl, ap, ◌∙◌, ◌≢◌, ◌⊎◌, inl, inr, true, false, none, some, Bytes, ◌==◌, bytes_eq,
  if◌then◌else◌, arith, Option-cases, ==→eq, nat_eq,
}
use poai.Prelude.Assoc.{
  IsMap, IsMap-insert, lookup, contains, insert, lookup-insert_self, lookup-insert,
  length-insert_new,
}
use poai.Encoding.{hex}
use poai.Result.{Result, Result-cases, ok, err, Error, already_in_mempool, panicked}
use poai.Badger.{Badger}
use poai.Crypto.{Crypto}
use poai.Tx.{Transaction, is_coinbase, is_empty, with_hash}
use poai.Tx.Signing.{verify_same_hashed}
use poai.State.{validate_transaction, total_cost, gas_cost}
use poai.Mempool.{
  Mempool, new_mempool, get_transaction, size, add_hashed, add_transaction, loggable,
}

-- No key occurs twice, and each transaction is filed under its own hash.
pub record IsPool (mp : Mempool) : Type 0 where
  pub is_map : IsMap mp.txs
  pub keyed : (k : Bytes) (tx : Transaction) → lookup k mp.txs ≡ some tx → k ≡ hex tx.hash

pub new_mempool-IsPool : IsPool new_mempool
unfolding new_mempool
new_mempool-IsPool = record { is_map = tt; keyed = λ k tx h. cc }

insert-IsPool :
    (tx : Transaction) (mp : Mempool)
    → IsPool mp
    → IsPool (record mp { txs = insert (hex tx.hash) tx mp.txs })
insert-IsPool tx mp v = record {
  is_map = IsMap-insert (hex tx.hash) tx mp.txs v.is_map;
  keyed = λ k other h.
      ground
        (arith, h, lookup-insert k (hex tx.hash) tx mp.txs, ==→eq (hex tx.hash) k, v.keyed k other);
}

validate_same_hashed :
    {Db : Type 0} (store : Badger Db) (crypto : Crypto) (tx : Transaction) (hash : Bytes) (db : Db)
    → validate_transaction store crypto (record tx { hash = hash }) db
      ≡ validate_transaction store crypto tx db
unfolding validate_transaction is_coinbase total_cost gas_cost
validate_same_hashed store crypto tx hash db =
    rw (verify_same_hashed crypto tx hash, validate_transaction) refl

with_hash_given :
    (crypto : Crypto) (tx : Transaction) → is_empty tx.hash ≡ false → with_hash crypto tx ≡ tx
unfolding with_hash
with_hash_given crypto tx given = rw given refl

add_hashed_again :
    {Db : Type 0} (store : Badger Db) (crypto : Crypto) (tx : Transaction) (db : Db) (mp : Mempool)
    → let mp' : Mempool = record mp { txs = insert (hex tx.hash) tx mp.txs } in
      add_hashed store crypto tx db mp' ≡ (err already_in_mempool, mp')
unfolding add_hashed
add_hashed_again store crypto tx db mp =
    rw (lookup-insert_self (hex tx.hash) tx mp.txs, add_hashed, contains) refl

module _ {Db : Type 0} (store : Badger Db) (crypto : Crypto) where
  -- How a call on a hashed transaction can end: refused, inserted, or inserted with a panic of the log
  -- line.
  abbrev Inserted : Transaction → Mempool → Mempool
  Inserted tx mp = record mp { txs = insert (hex tx.hash) tx mp.txs }

  add_hashed_cases :
      (tx : Transaction) (db : Db) (mp : Mempool) (r : Result (Unit {0})) (mp' : Mempool)
      → add_hashed store crypto tx db mp ≡ (r, mp')
      → ((e : Error) × (r ≡ err e) × (mp' ≡ mp))
        ⊎ ((lookup (hex tx.hash) mp.txs ≡ none)
            × (validate_transaction store crypto tx db ≡ ok tt)
            × (mp' ≡ Inserted tx mp)
            × (r ≡ (if loggable (hex tx.hash) tx then ok tt else err panicked)))
  unfolding add_hashed
  add_hashed_cases tx db mp r mp' h = elim (Option-cases (lookup (hex tx.hash) mp.txs)) [
    | inr (old, e) ↦ inl (already_in_mempool, ground arith, ground arith)
    | inl fresh ↦ elim (Result-cases (validate_transaction store crypto tx db)) [
      | inr (e, refused) ↦ inl (e, ground arith, ground arith)
      | inl (_, accepted) ↦ inr (fresh, accepted, ground arith, ground arith)
    ]
  ]

  add_hashed_new :
      (tx : Transaction) (db : Db) (mp : Mempool)
      → lookup (hex tx.hash) mp.txs ≡ none
      → validate_transaction store crypto tx db ≡ ok tt
      → loggable (hex tx.hash) tx ≡ true
      → add_hashed store crypto tx db mp ≡ (ok tt, Inserted tx mp)
  unfolding add_hashed
  add_hashed_new tx db mp fresh valid long = rw (fresh, contains, valid, long) refl

  -- A call keeps every transaction filed once, under its own hash, however it ends.
  pub add_transaction-IsPool :
      (tx : Transaction) (db : Db) (mp : Mempool)
      → IsPool mp
      → IsPool (add_transaction store crypto tx db mp).1
  unfolding add_transaction
  add_transaction-IsPool tx db mp v =
      let tx' = with_hash crypto tx in
      let (r, mp') = add_hashed store crypto tx' db mp in
      elim (add_hashed_cases tx' db mp r mp' refl) [
        | inl (_, _, same) ↦ rw same v
        | inr (_, _, inserted, _) ↦ rw inserted (insert-IsPool tx' mp v)
      ]

  -- A transaction that is accepted was valid and new under its hash. The pool then has it under that
  -- hash and is larger by one, its other entries are as before, and adding it once more is refused.
  pub add_transaction_effect :
      (tx : Transaction) (db : Db) (mp mp' : Mempool)
      → add_transaction store crypto tx db mp ≡ (ok tt, mp')
      → let tx' = with_hash crypto tx in
        (validate_transaction store crypto tx' db ≡ ok tt)
        × (get_transaction tx'.hash mp ≡ none)
        × (get_transaction tx'.hash mp' ≡ some tx')
        × (size mp' ≡ size mp + 1)
        × ((k : Bytes)
            → lookup k mp'.txs ≡ (if hex tx'.hash == k then some tx' else lookup k mp.txs))
        × ((later : Db) → add_transaction store crypto tx later mp' ≡ (err already_in_mempool, mp'))
  unfolding add_transaction get_transaction size
  add_transaction_effect tx db mp mp' h =
      let tx' = with_hash crypto tx in
      elim (add_hashed_cases tx' db mp (ok tt) mp' h) [
        | inl (e, bad, _) ↦ absurd (cc)
        | inr (fresh, valid, inserted, _) ↦ rw inserted (
          valid,
          fresh,
          lookup-insert_self (hex tx'.hash) tx' mp.txs,
          length-insert_new (hex tx'.hash) tx' mp.txs fresh,
          λ k. lookup-insert k (hex tx'.hash) tx' mp.txs,
          λ later. add_hashed_again store crypto tx' later mp,
        )
      ]

  -- A refusal leaves the pool as it was.
  pub add_transaction_refused :
      (tx : Transaction) (e : Error) (db : Db) (mp mp' : Mempool)
      → add_transaction store crypto tx db mp ≡ (err e, mp')
      → e ≢ panicked
      → mp' ≡ mp
  unfolding add_transaction
  add_transaction_refused tx e db mp mp' h ne =
      elim (add_hashed_cases (with_hash crypto tx) db mp (err e) mp' h) [
        | inl (_, _, same) ↦ same
        | inr (_, _, _, r) ↦ absurd (ground arith)
      ]

  -- The hash that comes with a transaction is not checked. A transaction that is valid is accepted
  -- again, next to its first copy, under any other non-empty hash that is not in the pool (and that,
  -- with the recipient, is long enough for the log line).
  pub add_transaction_forged :
      (tx : Transaction) (forged : Bytes) (db : Db) (mp : Mempool)
      → validate_transaction store crypto tx db ≡ ok tt
      → is_empty forged ≡ false
      → lookup (hex forged) mp.txs ≡ none
      → loggable (hex forged) tx ≡ true
      → let copy = record tx { hash = forged } in
        add_transaction store crypto copy db mp
        ≡ (ok tt, record mp { txs = insert (hex forged) copy mp.txs })
  unfolding add_transaction
  add_transaction_forged tx forged db mp valid given fresh long =
      let copy : Transaction = record tx { hash = forged } in
      ap (λ t. add_hashed store crypto t db mp) (with_hash_given crypto copy given)
      ∙ add_hashed_new copy db mp fresh (validate_same_hashed store crypto tx forged db ∙ valid)
          long
