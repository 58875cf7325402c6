-- ===== src/Examples/Daemons.antt =====
-- Examples on the daemon's start, the announcements and the keys of the epochs.
use poai.Prelude.{
  false, ℕ, zero, suc, ◌≡◌, refl, ap, ◌≢◌, ◌⊎◌, Option, some, [], ◌∷◌, Bytes, arith, nat_eq,
  bytes_eq, true, length, map,
}
use poai.Prelude.Int.{pos, negsuc}
use poai.Result.{ok}
use poai.Badger.{MemDb}
use poai.Crypto.{Crypto}
use poai.Header.{Header, header_hash, preimage}
use poai.Chain.{Chain, subscribe_to_head_changes}
use poai.Chain.Load.{new_chain, empty_chain}
use poai.Broadcast.{new_local_broadcaster}
use poai.Net.{NewHeadMsg}
use poai.Daemon.{start_node, announce_ticks}
use poai.Chain.Scan.{no_gap}
use poai.Daemon.Restart.{start_node_restart}
use poai.Daemon.Announce.{announce_ticks_heights}
use poai.Encoding.{le_bytes}
use poai.KeySchedule.{epoch_key, last_height, key_preimage}
use poai.KeySchedule.Epochs.{epoch_key_collision}
use poai.Examples.{toy_crypto}
use poai.Examples.Blocks.{block_at, db2}
use poai.Examples.Chains.{env}
use poai.Examples.Starts.{db2_tip, db2_block}

-- What the daemon has after a restart.
abbrev restarted : Chain MemDb
restarted = record (new_chain env (pos 0, pos 0) (negsuc 999) db2) { has_callback = true }

start_node_restart_example :
    start_node env (λ b. false) no_gap (pos 0, pos 0) (negsuc 999) [] db2
    ≡ ok (new_local_broadcaster [] (subscribe_to_head_changes restarted))
start_node_restart_example =
    (start_node_restart env (negsuc 999) db2 (λ b. false) no_gap (pos 0, pos 0) [] 4 2 1
      (block_at 1) (omega arith) (omega arith) db2_tip (omega arith) db2_block).2

-- A chain whose head is at a height.
abbrev headed : ℕ → Chain MemDb
headed h = record (empty_chain env (negsuc 999) db2) { blocks = (h, block_at h) ∷ []; head = h }

-- The head at height 4 stays for a round, and is announced once.
announce_ticks_heights_example :
    map
      (λ (m : NewHeadMsg). m.height)
      (announce_ticks toy_crypto (headed 3 ∷ (headed 4 ∷ (headed 4 ∷ []))) 0)
    ≡ 3 ∷ (4 ∷ [])
announce_ticks_heights_example =
    announce_ticks_heights toy_crypto (headed 3 ∷ (headed 4 ∷ (headed 4 ∷ []))) 0
      ((block_at 3, (refl, refl)), ((block_at 4, (refl, refl)), ((block_at 4, (refl, refl)), tt)))

-- A hash of 32 bytes, the first ones of its argument.
abbrev pad : ℕ → Bytes → Bytes
pad zero bytes = []
pad (suc n) [] = 0 ∷ pad n []
pad (suc n) (b ∷ bytes) = b ∷ pad n bytes

length-pad : (n : ℕ) (bytes : Bytes) → length (pad n bytes) ≡ n
length-pad zero bytes = refl
length-pad (suc n) [] = ap suc (length-pad n [])
length-pad (suc n) (b ∷ bytes) = ap suc (length-pad n bytes)

abbrev padding : Crypto
padding = record toy_crypto { sha3_256 = λ bytes. pad 32 bytes }

-- Every height has the same header.
abbrev constant : ℕ → Option Header
constant h = some (block_at 0).header

epoch_key_collision_example :
    (suc zero ≡ suc (suc zero))
    ⊎ ((key_preimage padding 1 (block_at 0).header ≢ key_preimage padding 2 (block_at 0).header)
        × (padding.sha3_256 (key_preimage padding 1 (block_at 0).header)
            ≡ padding.sha3_256 (key_preimage padding 2 (block_at 0).header)))
unfolding epoch_key last_height key_preimage header_hash preimage le_bytes
epoch_key_collision_example =
    epoch_key_collision padding 20 constant 1 2 (block_at 0).header (block_at 0).header
      (length-pad 32) (omega arith) (omega arith) (omega arith) (omega arith) (omega arith) refl
      refl refl
