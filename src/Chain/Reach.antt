-- ===== src/Chain/Reach.antt =====
-- What the goroutines of a node do to the chain, change by change, in any order.
pub mod Filed
pub mod Invariant
pub mod Moves
pub mod Calls
pub mod Always
use poai.Prelude.{ℕ, Bool, List, [], Bytes, nat_eq, bytes_eq}
use poai.Prelude.Assoc.{erase}
use poai.Prelude.Int.{ℤ}
use poai.Tx.{Transaction}
use poai.Block.{Block}
use poai.Mempool.{add_transaction, remove_transactions, cleanup}
use poai.Chain.{
  Env, Chain, add_to_side_branch, add_to_orphan_pool, notify_head_change, header_by_height,
  subscribe_to_head_changes,
}
use poai.Chain.Import.{accept_block}
use poai.Chain.Preseed.{preseed_headers}
use poai.Chain.Reorg.{check_reorg}

-- One change. `ImportBlock` and `ScanOrphanPool` are not one change: they give up their locks on the
-- way, and the maps of waiting blocks have locks of their own. Every part of them is a change here, so
-- that those of other goroutines can come before, between and after.
pub data Step {Db : Type 0} (env : Env Db) : Chain Db → Chain Db → Type 0 where
  -- `HeaderByHeight`, also in a retarget
  queried : (height : ℕ) {c : Chain Db} → Step env c (header_by_height env height c).1
  -- the transactions of a block write to the database, whatever they leave there
  executed : (db : Db) {c : Chain Db} → Step env c (record c { db = db })
  -- the transactions of a block leave the pool, and the block becomes the head
  unpooled :
      (txs : List Transaction) {c : Chain Db}
      → Step env c (record c { mempool = remove_transactions txs c.mempool })
  accepted : (b : Block) {c : Chain Db} → Step env c (accept_block env b c)
  notified : {c : Chain Db} → Step env c (notify_head_change c)
  reorganised : {c : Chain Db} → Step env c (check_reorg env c)
  -- a block enters the side branches, or the orphan pool
  side : (b : Block) {c : Chain Db} → Step env c (add_to_side_branch b c)
  orphaned : (b : Block) {c : Chain Db} → Step env c (add_to_orphan_pool b c)
  -- the orphans of a parent leave the pool, or all of them for a scan
  released :
      (h : Bytes) {c : Chain Db} → Step env c (record c { orphan_pool = erase h c.orphan_pool })
  emptied : {c : Chain Db} → Step env c (record c { orphan_pool = [] })
  flagged :
      (busy : Bool) {c : Chain Db} → Step env c (record c { orphan_import_in_progress = busy })
  pooled :
      (tx : Transaction) {c : Chain Db}
      → Step env c
          (record c { mempool = (add_transaction env.store env.crypto tx c.db c.mempool).1 })
  cleaned :
      {c : Chain Db}
      → Step env c (record c { mempool = (cleanup env.store env.crypto c.db c.mempool).1 })
  preseeded :
      (now : ℕ → ℤ × ℤ) (up_to : ℕ) {c : Chain Db} → Step env c (preseed_headers env now up_to c).1
  subscribed : {c : Chain Db} → Step env c (subscribe_to_head_changes c)
  -- a subscriber takes its notification, and a requested block is asked for
  received :
      (subscribers : List Bool) (requests : List Bytes) {c : Chain Db}
      → Step env c (record c { subscribers = subscribers; requests = requests })

pub data Reach {Db : Type 0} (env : Env Db) : Chain Db → Chain Db → Type 0 where
  here : {c : Chain Db} → Reach env c c
  next : {c d e : Chain Db} → Reach env c d → Step env d e → Reach env c e
