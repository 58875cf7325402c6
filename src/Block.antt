-- ===== src/Block.antt =====
-- Blocks, their Merkle root and the block subsidy (poai/core/block.go).
pub mod Subsidy
use poai.Prelude.{
  ℕ, ◌/◌, ◌^◌, some, List, [], ◌∷◌, ◌++◌, map, Bytes, leb, if◌then◌else◌, nat_eq, bytes_eq,
}
use poai.Prelude.Int.{ℤ}
use poai.Crypto.{Crypto}
use poai.Header.{Header, header_hash, zero_hash}
use poai.Tx.{Transaction, with_hash}

abbrev pub initial_subsidy : ℕ
initial_subsidy = 50

abbrev pub halving_blocks : ℕ
halving_blocks = 210000

pub record Block : Type 0 where
  pub header : Header
  pub transactions : List Transaction
  pub merkle_root : Bytes
  pub time : ℤ
  pub receipts : Bytes

unfoldable pub block_hash : Crypto → Block → Bytes
block_hash crypto b = header_hash crypto b.header

-- The hashes of the transactions, one after the other.
abbrev pub concat_hashes : List Transaction → Bytes
concat_hashes [] = []
concat_hashes (tx ∷ txs) = tx.hash ++ concat_hashes txs

-- `CalculateMerkleRoot`: the root, and the transactions with the hashes that it has set.
unfoldable pub calculate_merkle_root : Crypto → List Transaction → Bytes × List Transaction
calculate_merkle_root crypto [] = ([], [])
calculate_merkle_root crypto (tx ∷ txs) =
    let hashed = map (with_hash crypto) (tx ∷ txs) in
    (crypto.keccak256 (concat_hashes hashed), hashed)

-- `now` is the clock at the two calls of `time.Now`.
unfoldable pub new_block : Crypto → ℤ × ℤ → ℕ → Bytes → ℤ → ℤ → List Transaction → ℕ → Block
unfolding calculate_merkle_root
new_block crypto now height parent_hash loss parent_bits txs nonce =
    let (root, hashed) = calculate_merkle_root crypto txs in
    record {
      header = record {
        height = height;
        parent_hash = parent_hash;
        lhat = loss;
        bits = some parent_bits;
        timestamp = now.0;
        state_root = zero_hash;
        nonce = nonce;
      };
      transactions = hashed;
      merkle_root = root;
      time = now.1;
      receipts = [];
    }

-- `GetSubsidy`; a right shift divides by a power of two.
unfoldable pub get_subsidy : ℕ → ℕ
get_subsidy height =
    let halvings = height / halving_blocks in
    if leb 64 halvings then 0 else initial_subsidy / 2 ^ halvings
