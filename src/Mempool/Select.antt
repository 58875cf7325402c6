-- ===== src/Mempool/Select.antt =====
-- Which transactions a block takes from the pool, and which are removed.
use poai.Prelude.{
  ℕ, ◌+◌, ◌-◌, ◌<◌, suc, zero, ◌≡◌, refl, sym, ap, ◌∙◌, true, false, none, List, [], ◌∷◌, Bytes,
  ◌==◌, bytes_eq, if◌then◌else◌, map, take, Bool, arith, nat_eq,
}
use poai.Prelude.Assoc.{Assoc, lookup, erase, lookup-erase}
use poai.Encoding.{hex}
use poai.Tx.{Transaction}
use poai.Mempool.{
  Mempool, take_txs, get_transactions_for_block, get_all_transactions, erase_all,
  remove_transactions,
}

take_txs_lem :
    (max_txs n d : ℕ) (txs : Assoc Bytes Transaction)
    → max_txs ≡ n + suc d
    → take_txs max_txs n txs ≡ take (suc d) (map (λ e. e.1) txs)
unfolding take_txs
take_txs_lem max_txs n d [] h = refl
take_txs_lem max_txs n zero ((k, tx) ∷ txs) h = ground arith
take_txs_lem max_txs n (suc d) ((k, tx) ∷ txs) h =
    ground (arith, take_txs_lem max_txs (n + 1) d txs)

-- `GetTransactionsForBlock` gives the first transactions that `range` visits, as many as the limit
-- asks for, or all of them if there are fewer.
pub get_transactions_for_block-take :
    (max_txs : ℕ) (mp : Mempool)
    → 0 < max_txs
    → get_transactions_for_block max_txs mp ≡ take max_txs (get_all_transactions mp)
unfolding get_transactions_for_block get_all_transactions
get_transactions_for_block-take max_txs mp h =
    let e : max_txs ≡ suc (max_txs - 1) = omega arith in
    take_txs_lem max_txs 0 (max_txs - 1) mp.txs (omega arith)
    ∙ ap (λ n. take n (map (λ (e : Bytes × Transaction). e.1) mp.txs)) (sym e)

-- Whether a key is among those to be removed.
abbrev pub mem_key : Bytes → List Bytes → Bool
mem_key k [] = false
mem_key k (j ∷ js) = if j == k then true else mem_key k js

pub lookup-erase_all :
    (k : Bytes) (ks : List Bytes) (txs : Assoc Bytes Transaction)
    → lookup k (erase_all ks txs) ≡ (if mem_key k ks then none else lookup k txs)
unfolding erase_all
lookup-erase_all k [] txs = refl
lookup-erase_all k (j ∷ js) txs =
    ground (arith, lookup-erase_all k js (erase j txs), lookup-erase k j txs)

-- `RemoveTransactions` removes the transactions whose hash is listed, and no others.
pub remove_transactions-lookup :
    (txs : List Transaction) (mp : Mempool) (k : Bytes)
    → lookup k (remove_transactions txs mp).txs
      ≡ (if mem_key k (map (λ tx. hex tx.hash) txs) then none else lookup k mp.txs)
unfolding remove_transactions
remove_transactions-lookup txs mp k = lookup-erase_all k (map (λ tx. hex tx.hash) txs) mp.txs
