-- ===== src/Mempool.antt =====
-- Pending transactions (poai/core/mempool.go). The lock is held for the whole of each method, so a
-- method is one step; the database that `mp.state` reads is an argument.
pub mod Add
pub mod Select
pub mod Cleanup
use poai.Prelude.{
  ℕ, ◌+◌, Bool, true, false, ◌&&◌, ◌||◌, Option, none, some, List, [], ◌∷◌, Bytes, if◌then◌else◌,
  length, leb, map, nat_eq, bytes_eq,
}
use poai.Prelude.Assoc.{Assoc, lookup, contains, insert, erase}
use poai.Prelude.Int.{ℤ, pos, ◌+ℤ◌}
use poai.Encoding.{hex}
use poai.Result.{Result, ok, err, already_in_mempool, panicked}
use poai.Badger.{Badger}
use poai.Crypto.{Crypto}
use poai.Tx.{Transaction, is_empty, is_coinbase, with_hash}
use poai.State.{validate_transaction}

-- `txs map[string]*Transaction`, keyed by the hexadecimal hash.
pub record Mempool : Type 0 where
  pub txs : Assoc Bytes Transaction

unfoldable pub new_mempool : Mempool
new_mempool = record { txs = [] }

-- The log lines slice `txHash[:8]`, `From[:8]` and `To[:8]`, which panics where these are shorter (a
-- slice's capacity is taken to be its length).
abbrev pub hash_loggable : Bytes → Bool
hash_loggable tx_hash = leb 8 (length tx_hash)

abbrev pub loggable : Bytes → Transaction → Bool
loggable tx_hash tx =
    hash_loggable tx_hash && ((is_empty tx.from || leb 8 (length tx.from)) && leb 8 (length tx.to))

-- A method's last step is the log line.
abbrev pub logged : Bool → Mempool → Result (Unit {0}) × Mempool
logged true mp = (ok tt, mp)
logged false mp = (err panicked, mp)

unfoldable pub get_transaction : Bytes → Mempool → Option Transaction
get_transaction hash mp = lookup (hex hash) mp.txs

-- Transactions are taken until there are `max_txs`; the test comes after the append.
unfoldable pub take_txs : ℕ → ℕ → Assoc Bytes Transaction → List Transaction
take_txs max_txs n [] = []
take_txs max_txs n ((_, tx) ∷ txs) =
    let rest = take_txs max_txs (n + 1) txs in if leb max_txs (n + 1) then tx ∷ [] else tx ∷ rest

unfoldable pub get_transactions_for_block : ℕ → Mempool → List Transaction
unfolding take_txs
get_transactions_for_block max_txs mp = take_txs max_txs 0 mp.txs

unfoldable pub remove_transaction : Bytes → Mempool → Result (Unit {0}) × Mempool
remove_transaction hash mp = elim (lookup (hex hash) mp.txs) [
  | none ↦ (ok tt, mp)
  | some tx ↦ logged (loggable (hex hash) tx) (record mp { txs = erase (hex hash) mp.txs })
]

unfoldable pub erase_all : List Bytes → Assoc Bytes Transaction → Assoc Bytes Transaction
erase_all [] txs = txs
erase_all (k ∷ ks) txs = erase_all ks (erase k txs)

unfoldable pub remove_transactions : List Transaction → Mempool → Mempool
unfolding erase_all
remove_transactions txs mp = record mp { txs = erase_all (map (λ tx. hex tx.hash) txs) mp.txs }

unfoldable pub size : Mempool → ℕ
size mp = length mp.txs

unfoldable pub get_all_transactions : Mempool → List Transaction
get_all_transactions mp = map (λ e. e.1) mp.txs

unfoldable pub sum_amounts : Assoc Bytes Transaction → ℤ
sum_amounts [] = pos 0
sum_amounts ((_, tx) ∷ txs) =
    if is_coinbase tx then sum_amounts txs else tx.amount +ℤ sum_amounts txs

-- `size` and `total_value`
unfoldable pub get_stats : Mempool → ℕ × ℤ
unfolding sum_amounts
get_stats mp = (length mp.txs, sum_amounts mp.txs)

module _ {Db : Type 0} (store : Badger Db) (crypto : Crypto) where
  -- `AddTransaction` once the hash is set.
  unfoldable pub add_hashed : Transaction → Db → Mempool → Result (Unit {0}) × Mempool
  add_hashed tx db mp =
      if contains (hex tx.hash) mp.txs
      then (err already_in_mempool, mp)
      else elim (validate_transaction store crypto tx db) [
        | err e ↦ (err e, mp)
        | ok _ ↦
            logged (loggable (hex tx.hash) tx) (record mp { txs = insert (hex tx.hash) tx mp.txs })
      ]

  unfoldable pub add_transaction : Transaction → Db → Mempool → Result (Unit {0}) × Mempool
  unfolding with_hash
  add_transaction tx = add_hashed (with_hash crypto tx)

  abbrev pub is_valid : Db → Transaction → Bool
  is_valid db tx = elim (validate_transaction store crypto tx db) [ ok _ ↦ true | err _ ↦ false ]

  -- The keys of the transactions that no longer validate; `none` is the panic of a log line.
  unfoldable pub invalid_keys : Db → Assoc Bytes Transaction → Option (List Bytes)
  invalid_keys db [] = some []
  invalid_keys db ((k, tx) ∷ txs) =
      if is_valid db tx
      then invalid_keys db txs
      else (if hash_loggable k
          then elim (invalid_keys db txs) [ none ↦ none | some ks ↦ some (k ∷ ks) ]
          else none)

  unfoldable pub cleanup : Db → Mempool → Result (Unit {0}) × Mempool
  unfolding invalid_keys erase_all
  cleanup db mp = elim (invalid_keys db mp.txs) [
    | none ↦ (err panicked, mp)
    | some to_remove ↦ (ok tt, record mp { txs = erase_all to_remove mp.txs })
  ]
