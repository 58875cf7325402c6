-- ===== src/Crypto.antt =====
-- The cryptography that the node calls: `github.com/ethereum/go-ethereum/crypto` (Keccak-256 and
-- secp256k1 signatures) and SHA3-256, as functions on byte strings of which nothing is computed.
use poai.Prelude.{◌≡◌, ◌≢◌, Option, some, [], Bytes, nat_eq, bytes_eq}

pub record Crypto : Type 0 where
  -- `crypto.Keccak256`
  pub keccak256 : Bytes → Bytes
  -- `sha3.Sum256`
  pub sha3_256 : Bytes → Bytes
  -- `crypto.Sign` of a hash under a private key; `none` is an error
  pub sign_hash : Bytes → Bytes → Option Bytes
  -- `crypto.SigToPub` of a hash and a signature; `none` is an error
  pub sig_to_pub : Bytes → Bytes → Option Bytes
  -- `crypto.PubkeyToAddress`
  pub pubkey_to_address : Bytes → Bytes
  -- the public key of a private key
  pub public_key : Bytes → Bytes

-- What is documented of a signature: it is not empty, and the key that made it is recovered.
pub record Recovers (crypto : Crypto) : Type 0 where
  pub sig_ne-nil : (hash key sig : Bytes) → crypto.sign_hash hash key ≡ some sig → sig ≢ []
  pub recovers :
      (hash key sig : Bytes)
      → crypto.sign_hash hash key ≡ some sig
      → crypto.sig_to_pub hash sig ≡ some (crypto.public_key key)
