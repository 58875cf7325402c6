-- ===== src/Chain/Conflict.antt =====
-- Blocks with two transfers of one nonce.
use poai.Prelude.{◌≡◌, refl, ap, ◌∙◌, false, List, [], ◌∷◌, ◌++◌, arith}
use poai.Result.{ok, err, invalid_nonce}
use poai.Tx.{Transaction, verify, is_coinbase}
use poai.Block.{Block}
use poai.State.{execute_transaction}
use poai.State.Execute.{execute_transaction_replay}
use poai.Chain.{Env, Chain}
use poai.Chain.Import.{execute_transactions, finish_import}
use poai.Chain.Reject.{execute_transactions-append, execute_one, finish_import_partial}

append_one :
    (good rest : List Transaction) (tx : Transaction)
    → good ++ (tx ∷ rest) ≡ (good ++ (tx ∷ [])) ++ rest
append_one [] rest tx = refl
append_one (x ∷ good) rest tx = ap (◌∷◌ x) (append_one good rest tx)

module _ {Db : Type 0} (env : Env Db) where
  -- A block is refused for its nonce if a transfer is followed by another of the same sender and nonce,
  -- as the pool may hold them: the first stays executed, with all that came before it.
  pub conflicting_block_refused :
      (b : Block) (good rest : List Transaction) (tx other : Transaction) (c c1 : Chain Db)
      (db2 : Db)
      → b.transactions ≡ good ++ (tx ∷ (other ∷ rest))
      → execute_transactions env good c ≡ (ok tt, c1)
      → is_coinbase tx ≡ false
      → execute_transaction env.store env.crypto tx c1.db ≡ (ok tt, db2)
      → other.from ≡ tx.from
      → other.nonce ≡ tx.nonce
      → verify env.crypto other ≡ ok tt
      → finish_import env b c ≡ (err invalid_nonce, record c1 { db = db2 })
  conflicting_block_refused b good rest tx other c c1 db2 txs before user executed from nonce
        verified =
      finish_import_partial env b (good ++ (tx ∷ [])) rest other invalid_nonce c
        (record c1 { db = db2 }) db2 (txs ∙ append_one good (other ∷ rest) tx)
        (execute_transactions-append env good (tx ∷ []) c c1 before
          ∙ execute_one env tx c1 db2 executed)
        (execute_transaction_replay env.store env.crypto tx other c1.db db2 user executed from nonce
          verified)
        (λ e. ground arith)
