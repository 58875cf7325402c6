-- ===== src/Chain/Reach/Always.antt =====
-- Every chain that a node can come to is in order.
use poai.Prelude.{nat_eq, bytes_eq}
use poai.Prelude.Int.{ℤ}
use poai.Mempool.{Mempool}
use poai.Chain.{Env, Chain}
use poai.Chain.Reach.{Reach}
use poai.Block.{Block}
use poai.Prelude.Assoc.{Assoc}
use poai.Chain.Load.{new_chain, reindex_from_db}

module _ {Db : Type 0} (env : Env Db) where
  -- The chain that `main` brings up.
  abbrev pub brought_up : ℤ × ℤ → ℤ → Db → Chain Db
  brought_up now target db = (reindex_from_db env (new_chain env now target db)).1
