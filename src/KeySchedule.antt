-- ===== src/KeySchedule.antt =====
-- The keys of the epochs (poai/core/keyschedule/key.go).
pub mod Epochs
use poai.Prelude.{
  ℕ, zero, suc, ◌+◌, ◌-◌, ◌*◌, ◌%◌, ◌^◌, Option, none, some, ◌++◌, Bytes, ◌==◌, nat_eq, bytes_eq,
  if◌then◌else◌,
}
use poai.Encoding.{le_bytes}
use poai.Crypto.{Crypto}
use poai.Header.{Header, header_hash, zero_hash}

-- The last height before the epoch; `epoch_blocks` is `config.EpochBlocks`. Products and differences
-- are on 64 bits.
unfoldable pub last_height : ℕ → ℕ → ℕ
last_height epoch_blocks epoch =
    if epoch == 0 then 0 else (epoch * epoch_blocks % 2 ^ 64 + (2 ^ 64 - 1)) % 2 ^ 64

-- The 40 bytes that are hashed: the hash of the header and the epoch.
unfoldable pub key_preimage : Crypto → ℕ → Header → Bytes
unfolding header_hash
key_preimage crypto epoch header = header_hash crypto header ++ le_bytes 8 epoch

-- `EpochKey`, with the reader's `HeaderByHeight`. Without the header the key is zero.
unfoldable pub epoch_key : Crypto → ℕ → (ℕ → Option Header) → ℕ → Bytes
unfolding last_height key_preimage
epoch_key crypto epoch_blocks header_by_height epoch =
    elim (header_by_height (last_height epoch_blocks epoch)) [
      | none ↦ zero_hash
      | some header ↦ crypto.sha3_256 (key_preimage crypto epoch header)
    ]
