-- ===== src/Chain/Load.antt =====
-- How a chain comes up: `createGenesis`, `NewChain` and `ReindexFromDB`.
use poai.Prelude.{
  ℕ, zero, suc, ◌+◌, ◌%◌, ◌^◌, Option, none, some, true, false, leb, [], ◌∷◌, if◌then◌else◌, ltb,
  nat_eq, bytes_eq,
}
use poai.Prelude.Assoc.{insert}
use poai.Prelude.Int.{ℤ, pos}
use poai.Result.{Result, ok, err, Error, key_not_found}
use poai.Header.{zero_hash}
use poai.Block.{Block, block_hash}
use poai.Mempool.{new_mempool}
use poai.State.{initialize_genesis_state}
use poai.Store.{put_block, get_block, get_tip_height}
use poai.Chain.{Env, Chain}

-- `now` is the clock at the two calls of `time.Now`.
unfoldable pub genesis_block : ℤ × ℤ → ℤ → Block
genesis_block now target = record {
  header = record {
    height = 0;
    parent_hash = zero_hash;
    lhat = pos 0;
    bits = some target;
    timestamp = now.0;
    state_root = zero_hash;
    nonce = 0;
  };
  transactions = [];
  merkle_root = [];
  time = now.1;
  receipts = [];
}

module _ {Db : Type 0} (env : Env Db) where
  -- A failure to persist the block is logged.
  unfoldable pub create_genesis : ℤ × ℤ → Chain Db → Chain Db
  create_genesis now c =
      let genesis = genesis_block now c.genesis_target in
      record c {
        blocks = insert 0 genesis c.blocks;
        block_hash_index = insert (block_hash env.crypto genesis) genesis c.block_hash_index;
        head = 0;
        db = (put_block env.store env.codec 0 genesis c.db).1;
      }

  -- One round of the loading loop: a block that cannot be read is skipped.
  unfoldable pub load_height : ℕ → Chain Db → Chain Db
  load_height h c = elim (get_block env.store env.codec h c.db) [
    | err e ↦ c
    | ok blk ↦ record c {
      blocks = insert h blk c.blocks;
      block_hash_index = insert (block_hash env.crypto blk) blk c.block_hash_index;
      head = if ltb c.head h then h else c.head;
    }
  ]

  -- The loop over the heights up to the tip, whose counter wraps; `none` is a loop that is not over when
  -- the fuel is.
  unfoldable pub load_loop : ℕ → ℕ → ℕ → Chain Db → Option (Chain Db)
  unfolding load_height
  load_loop zero h tip c = none
  load_loop (suc fuel) h tip c = elim (leb h tip) [
    | true ↦ load_loop fuel ((h + 1) % 2 ^ 64) tip (load_height h c)
    | false ↦ some c
  ]

  -- The heights below `n`, in order: what the loop comes to where `n` is one above the tip and below
  -- 2 ^ 64.
  unfoldable pub load_below : ℕ → Chain Db → Chain Db
  unfolding load_height
  load_below zero c = c
  load_below (suc n) c = load_height n (load_below n c)

  abbrev pub empty_chain : ℤ → Db → Chain Db
  empty_chain genesis_target db = record {
    blocks = [];
    block_hash_index = [];
    head = 0;
    genesis_target = genesis_target;
    db = db;
    mempool = new_mempool;
    orphan_pool = [];
    side_branches = [];
    subscribers = [];
    has_callback = false;
    requests = [];
    orphan_import_in_progress = false;
  }

  -- The stored blocks, where the tip is below 2 ^ 64 - 1: at that tip the loop does not end.
  unfoldable pub load_stored : Chain Db → Chain Db
  unfolding load_below
  load_stored c = elim (get_tip_height env.store c.db) [
    | err e ↦ c
    | ok tip ↦ load_below (suc tip) c
  ]

  unfoldable pub genesis_if_empty : ℤ × ℤ → Chain Db → Chain Db
  unfolding create_genesis
  genesis_if_empty now c = elim c.blocks [
    | [] ↦
        let c' = create_genesis now c in
        record c' { db = (initialize_genesis_state env.store c'.db).1 }
    | _ ∷ _ ↦ c
  ]

  -- `NewChain` on an open database.
  unfoldable pub new_chain : ℤ × ℤ → ℤ → Db → Chain Db
  unfolding load_stored genesis_if_empty
  new_chain now genesis_target db =
      genesis_if_empty now (load_stored (empty_chain genesis_target db))

  -- An empty database is no error.
  unfoldable pub reindex_failed : Error → Chain Db → Result (Unit {0}) × Chain Db
  reindex_failed key_not_found c = (ok tt, c)
  reindex_failed e c = (err e, c)

  -- The head is not reset. The tip is below 2 ^ 64 - 1, as above.
  unfoldable pub reindex_from_db : Chain Db → Result (Unit {0}) × Chain Db
  unfolding load_below reindex_failed
  reindex_from_db c =
      let c' : Chain Db = record c { blocks = []; block_hash_index = [] } in
      elim (get_tip_height env.store c'.db) [
        | err e ↦ reindex_failed e c'
        | ok tip ↦ (ok tt, load_below (suc tip) c')
      ]
