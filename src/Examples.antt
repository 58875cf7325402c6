-- ===== src/Examples.antt =====
-- Concrete data for the examples: a database in memory, a toy cryptography in which a signature carries
-- the key, and a codec for blocks without transactions.
mod Accounts
mod Pool
mod Blocks
mod Chains
mod Starts
mod Network
mod Work
mod Ledgers
mod Catching
mod Locking
mod Loops
mod Files
mod Commands
mod Answers
mod Daemons
use poai.Prelude.{
  ℕ, zero, suc, ◌≡◌, refl, ap, sym, ◌∙◌, Option, none, some, Bool, true, false, ◌&&◌, List, [], ◌∷◌,
  ◌++◌, Bytes, take, if◌then◌else◌, arith, Bool-cases, inl, inr, ◌==◌, bytes_eq, ==→eq, nat_eq,
}
use poai.Prelude.Int.{ℤ, pos, negsuc}
use poai.Crypto.{Crypto, Recovers}
use poai.Header.{zero_hash}
use poai.Tx.{Transaction}
use poai.Block.{Block}
use poai.Store.{Codec, stored}

abbrev pub key_of : Bytes → Option Bytes
key_of [] = none
key_of (b ∷ key) = some key

abbrev pub toy_crypto : Crypto
toy_crypto = record {
  keccak256 = λ bytes. take 4 bytes;
  sha3_256 = λ bytes. bytes;
  sign_hash = λ hash key. some (1 ∷ key);
  sig_to_pub = λ hash sig. key_of sig;
  pubkey_to_address = λ key. key;
  public_key = λ key. key;
}

pub toy_crypto-Recovers : Recovers toy_crypto
toy_crypto-Recovers = record {
  sig_ne-nil = λ hash key sig e empty. ground arith;
  recovers = λ hash key sig e. ground arith;
}

abbrev pub alice : Bytes
alice = 11 ∷ 12 ∷ 13 ∷ 14 ∷ 15 ∷ 16 ∷ 17 ∷ 18 ∷ []

abbrev pub bob : Bytes
bob = 21 ∷ 22 ∷ 23 ∷ 24 ∷ 25 ∷ 26 ∷ 27 ∷ 28 ∷ []

-- What a user sends, signed by the sender's key, which is the address.
abbrev pub transfer : Bytes → Bytes → ℤ → ℕ → Transaction
transfer from to amount nonce = record {
  from = from;
  to = to;
  amount = amount;
  nonce = nonce;
  gas_limit = 0;
  gas_price = pos 0;
  signature = 1 ∷ from;
  hash = [];
}

-- The fields that the codec does not write, at their zero values.
abbrev pub plain : List Transaction → Bytes → ℤ → Bytes → ℤ → ℤ → Bool
plain [] [] (pos zero) [] (pos zero) (pos zero) = true
plain _ _ _ _ _ _ = false

abbrev pub is_plain : Block → Bool
is_plain b =
    plain b.transactions b.merkle_root b.time b.receipts b.header.lhat b.header.timestamp
    && (b.header.state_root == zero_hash)

-- A plain block, from what the codec writes.
abbrev pub plain_block : ℕ → ℕ → ℤ → Bytes → Block
plain_block height nonce bits parent_hash = record {
  header = record {
    height = height;
    parent_hash = parent_hash;
    lhat = pos 0;
    bits = some bits;
    timestamp = pos 0;
    state_root = zero_hash;
    nonce = nonce;
  };
  transactions = [];
  merkle_root = [];
  time = pos 0;
  receipts = [];
}

abbrev pub write_bits : Option ℤ → Bytes
write_bits none = 0 ∷ 0 ∷ []
write_bits (some (pos n)) = 0 ∷ n ∷ []
write_bits (some (negsuc n)) = 1 ∷ n ∷ []

abbrev pub read_bits : ℕ → ℕ → ℤ
read_bits zero n = pos n
read_bits (suc s) n = negsuc n

abbrev pub toy_encode : Block → Option Bytes
toy_encode b =
    if is_plain b
    then some
        (b.header.height ∷ b.header.nonce ∷ (write_bits b.header.bits ++ b.header.parent_hash))
    else none

abbrev pub toy_decode : Bytes → Option Block
toy_decode (height ∷ nonce ∷ sign ∷ n ∷ parent_hash) =
    some (plain_block height nonce (read_bits sign n) parent_hash)
toy_decode _ = none

read_written :
    (h n : ℕ) (bits : Option ℤ) (p : Bytes)
    → toy_decode (h ∷ n ∷ (write_bits bits ++ p))
      ≡ some (
          stored (record (plain_block h n (pos 0) p) {
            header = record (plain_block h n (pos 0) p).header { bits = bits };
          }))
read_written h n none p = refl
read_written h n (some (pos x)) p = refl
read_written h n (some (negsuc x)) p = refl

is_plain_shape :
    (b : Block)
    → is_plain b ≡ true
    → b ≡ record (plain_block b.header.height b.header.nonce (pos 0) b.header.parent_hash) {
      header =
          record (plain_block b.header.height b.header.nonce (pos 0) b.header.parent_hash).header {
            bits = b.header.bits;
          };
    }
is_plain_shape b e = ground (arith, ==→eq b.header.state_root zero_hash)

pub toy_decode-encode :
    (b : Block) (val : Bytes) → toy_encode b ≡ some val → toy_decode val ≡ some (stored b)
toy_decode-encode b val e = elim (Bool-cases (is_plain b)) [
  | inr other ↦ absurd (ground arith)
  | inl plainly ↦
      let written : b.header.height
            ∷ b.header.nonce
            ∷ (write_bits b.header.bits ++ b.header.parent_hash)
          ≡ val =
        ground arith in
      ap toy_decode (sym written)
      ∙ read_written b.header.height b.header.nonce b.header.bits b.header.parent_hash
      ∙ ap (λ x. some (stored x)) (sym (is_plain_shape b plainly))
]

abbrev pub toy_codec : Codec
toy_codec = record { encode = toy_encode; decode = toy_decode; decode-encode = toy_decode-encode }
