-- ===== src/Examples/Files.antt =====
-- Examples on the files of the local broadcaster.
use poai.Prelude.{◌≡◌, refl, true, [], ◌∷◌, nat_eq, bytes_eq}
use poai.Prelude.Int.{pos, negsuc}
use poai.Badger.{MemDb}
use poai.Block.{Block, block_hash}
use poai.Store.{stored}
use poai.Chain.Import.{import_block}
use poai.Broadcast.{
  Disk, Broadcaster, new_local_broadcaster, broadcast_block, process_blocks, is_processed,
}
use poai.Broadcast.Ticks.{process_blocks_twice}
use poai.Broadcast.Deliver.{broadcast_block_imported}
use poai.Examples.{toy_crypto, toy_codec, plain_block}
use poai.Examples.Chains.{env, fresh, genesis, alone}

-- Every call of the operating system succeeds.
abbrev disk : Disk
disk = record { writable = λ name. true; readable = λ name. true; removable = λ name. true }

abbrev empty_dir : Broadcaster MemDb
empty_dir = new_local_broadcaster [] fresh

abbrev offered : Block
offered = plain_block 1 7 (negsuc 0) (block_hash toy_crypto genesis)

abbrev broadcast : Broadcaster MemDb
broadcast = (broadcast_block disk toy_codec (pos 5) offered empty_dir).1

broadcast_block_imported_example :
    (process_blocks disk env alone true broadcast).chain
    ≡ (import_block env alone (stored offered) fresh).1
unfolding new_local_broadcaster is_processed
broadcast_block_imported_example =
    (broadcast_block_imported disk env alone (pos 5) offered
      (1 ∷ 7 ∷ (1 ∷ (0 ∷ block_hash toy_crypto genesis))) empty_dir refl refl refl refl tt).1

process_blocks_twice_example :
    process_blocks disk env alone true (process_blocks disk env alone true broadcast)
    ≡ process_blocks disk env alone true broadcast
process_blocks_twice_example = (process_blocks_twice disk env alone true broadcast).1
