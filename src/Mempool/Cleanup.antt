-- ===== src/Mempool/Cleanup.antt =====
-- `Cleanup` keeps the transactions that still validate, and those only.
use poai.Prelude.{
  ◌≡◌, refl, inl, inr, false, not, Bool, Option, none, some, List, [], ◌∷◌, Bytes, if◌then◌else◌,
  arith, Option-cases, ==→eq, ==_refl, map, nat_eq, bytes_eq,
}
use poai.Prelude.Assoc.{Assoc, IsMap, IsMap-erase, lookup, erase}
use poai.Encoding.{hex}
use poai.Result.{ok}
use poai.Badger.{Badger}
use poai.Crypto.{Crypto}
use poai.Tx.{Transaction}
use poai.Mempool.{Mempool, is_valid, invalid_keys, cleanup, erase_all, remove_transactions}
use poai.Mempool.Select.{mem_key, lookup-erase_all}
use poai.Mempool.Add.{IsPool}

erase_all-IsMap :
    (ks : List Bytes) (txs : Assoc Bytes Transaction) → IsMap txs → IsMap (erase_all ks txs)
unfolding erase_all
erase_all-IsMap [] txs h = h
erase_all-IsMap (k ∷ ks) txs h = erase_all-IsMap ks (erase k txs) (IsMap-erase k txs h)

pub erase_all-IsPool :
    (ks : List Bytes) (mp : Mempool) → IsPool mp → IsPool (record mp { txs = erase_all ks mp.txs })
erase_all-IsPool ks mp v = record {
  is_map = erase_all-IsMap ks mp.txs v.is_map;
  keyed = λ k tx h. ground (arith, h, lookup-erase_all k ks mp.txs, v.keyed k tx);
}

-- `RemoveTransactions` keeps every remaining transaction filed once under its own hash.
pub remove_transactions-IsPool :
    (txs : List Transaction) (mp : Mempool) → IsPool mp → IsPool (remove_transactions txs mp)
unfolding remove_transactions
remove_transactions-IsPool txs mp v = erase_all-IsPool (map (λ tx. hex tx.hash) txs) mp v

module _ {Db : Type 0} (store : Badger Db) (crypto : Crypto) where
  -- Whether the pool has a transaction under a key, and it no longer validates.
  abbrev stale : Db → Option Transaction → Bool
  stale db none = false
  stale db (some tx) = not (is_valid store crypto db tx)

  mem_key-invalid_keys :
      (db : Db) (txs : Assoc Bytes Transaction) (ks : List Bytes) (k : Bytes)
      → IsMap txs
      → invalid_keys store crypto db txs ≡ some ks
      → mem_key k ks ≡ stale db (lookup k txs)
  unfolding invalid_keys
  mem_key-invalid_keys db [] ks k v h = ground arith
  mem_key-invalid_keys db ((j, tx) ∷ txs) ks k v h =
      elim (Option-cases (invalid_keys store crypto db txs)) [
        | inl panics ↦ absurd (ground arith)
        | inr (rest, e) ↦
            ground (arith, mem_key-invalid_keys db txs rest k v.1 e, ==→eq j k, ==_refl j)
      ]

  -- Cleanup keeps every valid transaction and removes every other one, and the pool stays in order.
  pub cleanup-lookup :
      (db : Db) (mp mp' : Mempool)
      → IsPool mp
      → cleanup store crypto db mp ≡ (ok tt, mp')
      → IsPool mp'
        × ((k : Bytes)
            → lookup k mp'.txs ≡ (if stale db (lookup k mp.txs) then none else lookup k mp.txs))
  unfolding cleanup
  cleanup-lookup db mp mp' v h = elim (Option-cases (invalid_keys store crypto db mp.txs)) [
    | inl panics ↦ absurd (ground arith)
    | inr (ks, e) ↦
        let shape : record mp { txs = erase_all ks mp.txs } ≡ mp' = ground arith in
        rw (← shape) (
          erase_all-IsPool ks mp v,
          λ k.
              rw (lookup-erase_all k ks mp.txs, mem_key-invalid_keys db mp.txs ks k v.is_map e)
                refl,
        )
  ]
