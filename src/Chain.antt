-- ===== src/Chain.antt =====
-- The state of the chain, and the methods that read it or make one change (poai/core/chain.go).
pub mod Reorg
pub mod Load
pub mod Import
pub mod Mirror
pub mod Branches
pub mod Heads
pub mod Reject
pub mod Preseed
pub mod Conflict
pub mod Start
pub mod Extend
pub mod Keep
pub mod Agree
pub mod Supply
pub mod Locks
pub mod Scan
pub mod Reach
use poai.Prelude.{
  ℕ, zero, ◌+◌, ◌-◌, ◌%◌, ◌^◌, Option, none, some, Bool, true, false, List, [], ◌∷◌, ◌++◌, Bytes,
  if◌then◌else◌, map, nat_eq, bytes_eq,
}
use poai.Prelude.Assoc.{Assoc, lookup, insert}
use poai.Prelude.Int.{ℤ, pos, negsuc}
use poai.Result.{ok, err}
use poai.Badger.{Badger}
use poai.Crypto.{Crypto}
use poai.Header.{Header}
use poai.Block.{Block}
use poai.Mempool.{Mempool}
use poai.State.{get_balance}
use poai.Store.{Codec, get_block}

-- What the node runs on.
pub record Env (Db : Type 0) : Type 0 where
  pub store : Badger Db
  pub crypto : Crypto
  pub codec : Codec
  -- `config.PruneDepth`
  pub prune_depth : ℕ

-- `Chain`, with the database that its store and its account state share. A subscriber is its channel
-- of capacity one: whether a notification waits in it. `requests` is what the callback
-- `RequestBlockByHash` was asked for, if there is a callback. `orphan_import_in_progress` is the
-- package's flag.
pub record Chain (Db : Type 0) : Type 0 where
  pub blocks : Assoc ℕ Block
  pub block_hash_index : Assoc Bytes Block
  pub head : ℕ
  pub genesis_target : ℤ
  pub db : Db
  pub mempool : Mempool
  pub orphan_pool : Assoc Bytes (List Block)
  pub side_branches : Assoc Bytes (List Block)
  pub subscribers : List Bool
  pub has_callback : Bool
  pub requests : List Bytes
  pub orphan_import_in_progress : Bool

-- `h - 1` on `uint64`.
abbrev pub pred_u64 : ℕ → ℕ
pred_u64 h = (h + (2 ^ 64 - 1)) % 2 ^ 64

-- `append(m[k], b)` on a map of slices.
abbrev pub slice_at : Bytes → Assoc Bytes (List Block) → List Block
slice_at k m = elim (lookup k m) [ none ↦ [] | some bs ↦ bs ]

abbrev pub append_at : Bytes → Block → Assoc Bytes (List Block) → Assoc Bytes (List Block)
append_at k b m = insert k (slice_at k m ++ (b ∷ [])) m

-- The default that replaces a missing or zero target.
abbrev pub default_target : ℤ
default_target = negsuc 999999999999999999

unfoldable pub with_target : Block → Block
with_target b = elim b.header.bits [
  | none ↦ record b { header = record b.header { bits = some default_target } }
  | some (pos zero) ↦ record b { header = record b.header { bits = some default_target } }
  | some _ ↦ b
]

module _ {Db : Type 0} where
  unfoldable pub current_height : Chain Db → ℕ
  current_height c = c.head

  unfoldable pub block_by_height : ℕ → Chain Db → Option Block
  block_by_height height c = lookup height c.blocks

  unfoldable pub get_block_by_hash : Bytes → Chain Db → Option Block
  get_block_by_hash h c = lookup h c.block_hash_index

  unfoldable pub subscribe_to_head_changes : Chain Db → Chain Db
  subscribe_to_head_changes c = record c { subscribers = c.subscribers ++ (false ∷ []) }

  -- A channel that is full is skipped.
  unfoldable pub notify_head_change : Chain Db → Chain Db
  notify_head_change c = record c { subscribers = map (λ _. true) c.subscribers }

  -- The callback runs in a goroutine of its own.
  unfoldable pub add_to_orphan_pool : Block → Chain Db → Chain Db
  add_to_orphan_pool b c = record c {
    orphan_pool = append_at b.header.parent_hash b c.orphan_pool;
    requests = if c.has_callback then c.requests ++ (b.header.parent_hash ∷ []) else c.requests;
  }

  unfoldable pub add_to_side_branch : Block → Chain Db → Chain Db
  add_to_side_branch b c = record c {
    side_branches = append_at b.header.parent_hash b c.side_branches;
  }

  module _ (env : Env Db) where
    -- `GetBalance` on the chain.
    unfoldable pub balance : Bytes → Chain Db → ℤ
    balance addr c = get_balance env.store addr c.db

    -- A block that is not in memory is loaded. The default target is written through the pointer, so
    -- that the chain keeps it; that the index of hashes may hold the same pointer is left out.
    unfoldable pub header_by_height : ℕ → Chain Db → Option Header × Chain Db
    unfolding with_target
    header_by_height height c = elim (lookup height c.blocks) [
      | some blk ↦ (
        some (with_target blk).header,
        record c { blocks = insert height (with_target blk) c.blocks },
      )
      | none ↦ elim (get_block env.store env.codec height c.db) [
        | ok blk ↦ (
          some (with_target blk).header,
          record c { blocks = insert height (with_target blk) c.blocks },
        )
        | err e ↦ (none, c)
      ]
    ]
