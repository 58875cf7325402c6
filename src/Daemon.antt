-- ===== src/Daemon.antt =====
-- How the daemon comes up (poai/cmd/poaid/main.go), and the loops that announce the head (there and in
-- `NewP2PNode` of poai/net/p2p.go). Flags, the network's start and the signals are left out.
pub mod Restart
pub mod Announce
use poai.Prelude.{
  ℕ, Option, none, some, Bool, true, false, List, [], ◌∷◌, Bytes, ◌==◌, nat_eq, bytes_eq,
  if◌then◌else◌,
}
use poai.Prelude.Assoc.{Assoc}
use poai.Prelude.Int.{ℤ}
use poai.Result.{Result, ok, err}
use poai.Crypto.{Crypto}
use poai.Block.{Block}
use poai.Chain.{Env, Chain, current_height, block_by_height, subscribe_to_head_changes}
use poai.Chain.Load.{new_chain, reindex_from_db}
use poai.Chain.Scan.{scan_orphan_pool}
use poai.Broadcast.{Broadcaster, new_local_broadcaster}
use poai.Net.{NewHeadMsg, announce_head}

module _ {Db : Type 0} (env : Env Db) where
  -- The scan of an orphan pool that is not empty after the reindex.
  unfoldable pub scan_if_waiting :
      (Block → Bool) → (Assoc Bytes (List Block) → Chain Db → Chain Db) → Chain Db → Chain Db
  scan_if_waiting waits gap c = elim c.orphan_pool [
    | [] ↦ c
    | _ ∷ _ ↦ (scan_orphan_pool waits gap c).1
  ]

  -- `main` up to the start of the goroutines, on an open database and the files of the blocks'
  -- directory: the broadcaster, with the chain. A failed reindex ends the daemon.
  unfoldable pub start_node :
      (Block → Bool)
      → (Assoc Bytes (List Block) → Chain Db → Chain Db)
      → ℤ × ℤ
      → ℤ
      → Assoc Bytes Bytes
      → Db
      → Result (Broadcaster Db)
  unfolding new_chain reindex_from_db scan_if_waiting
  start_node waits gap now target files db =
      let (r, c) = reindex_from_db env (new_chain env now target db) in
      elim r [
        | err e ↦ err e
        | ok _ ↦
            let c1 : Chain Db = record (scan_if_waiting waits gap c) { has_callback = true } in
            ok (new_local_broadcaster files (subscribe_to_head_changes c1))
      ]

module _ {Db : Type 0} (crypto : Crypto) where
  -- One round of a loop that announces: the message, if there is one, and the new `lastHeight`.
  unfoldable pub announce_tick : Chain Db → ℕ → Option NewHeadMsg × ℕ
  unfolding current_height block_by_height announce_head
  announce_tick c last_height =
      let h = current_height c in
      if h == last_height then (none, last_height) else elim (block_by_height h c) [
        | none ↦ (none, h)
        | some blk ↦ (some (announce_head crypto blk), h)
      ]

  -- What is announced over the rounds, in each of which the loop sees a chain.
  unfoldable pub announce_ticks : List (Chain Db) → ℕ → List NewHeadMsg
  unfolding announce_tick
  announce_ticks [] last_height = []
  announce_ticks (c ∷ cs) last_height =
      let (msg, last_height') = announce_tick c last_height in
      let later = announce_ticks cs last_height' in elim msg [ none ↦ later | some m ↦ m ∷ later ]
