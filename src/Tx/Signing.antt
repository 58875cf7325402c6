-- ===== src/Tx/Signing.antt =====
-- Signing and verification of transactions.
use poai.Prelude.{
  ◌≡◌, refl, sym, ◌≢◌, inl, inr, ◌⊎◌, true, false, arith, Bool-cases, Bytes, some, Option-cases,
  ==_refl, ==→eq, [], ◌∷◌, nat_eq, bytes_eq,
}
use poai.Result.{ok}
use poai.Crypto.{Crypto, Recovers}
use poai.Tx.{
  Transaction, calculate_hash, hashed_json, sign, verify_signature, verify, is_coinbase, is_empty,
}

pub is_empty_of_ne : (b : Bytes) → b ≢ [] → is_empty b ≡ false
is_empty_of_ne [] h = absurd (h refl)
is_empty_of_ne (x ∷ b) h = refl

-- The hash covers neither the signature nor the cached hash.
calculate_hash_signed :
    (crypto : Crypto) (tx : Transaction) (sig hash : Bytes)
    → calculate_hash crypto (record tx { signature = sig; hash = hash }) ≡ calculate_hash crypto tx
unfolding calculate_hash hashed_json
calculate_hash_signed crypto tx sig hash = refl

verify_signed :
    (crypto : Crypto) (key sig hash : Bytes) (tx : Transaction)
    → tx.from ≡ crypto.pubkey_to_address (crypto.public_key key)
    → sig ≢ []
    → crypto.sig_to_pub (calculate_hash crypto tx) sig ≡ some (crypto.public_key key)
    → verify crypto (record tx { signature = sig; hash = hash }) ≡ ok tt
unfolding verify verify_signature
verify_signed crypto key sig hash tx from ne recovered =
    ground (arith, calculate_hash_signed crypto tx sig hash, is_empty_of_ne sig ne, ==_refl tx.from)

pub sign_shape :
    (crypto : Crypto) (key : Bytes) (tx tx' : Transaction)
    → sign crypto key tx ≡ ok tx'
    → (sig : Bytes) × (crypto.sign_hash (calculate_hash crypto tx) key ≡ some sig)
      × (record tx { signature = sig; hash = calculate_hash crypto tx } ≡ tx')
unfolding sign
sign_shape crypto key tx tx' e =
    elim (Option-cases (crypto.sign_hash (calculate_hash crypto tx) key)) [
      | inl failed ↦ absurd (ground arith)
      | inr (sig, signed) ↦ (sig, signed, ground arith)
    ]

-- A transaction signed by the key of its sender's address verifies, and carries its own hash.
pub verify-sign :
    (crypto : Crypto) (key : Bytes) (tx tx' : Transaction)
    → Recovers crypto
    → tx.from ≡ crypto.pubkey_to_address (crypto.public_key key)
    → sign crypto key tx ≡ ok tx'
    → (verify crypto tx' ≡ ok tt) × (tx'.hash ≡ calculate_hash crypto tx')
verify-sign crypto key tx tx' laws from e =
    let (sig, signed, shape) = sign_shape crypto key tx tx' e in
    let hash = calculate_hash crypto tx in
    rw (← shape) (
      verify_signed crypto key sig hash tx from (laws.sig_ne-nil hash key sig signed)
          (laws.recovers hash key sig signed),
      sym (calculate_hash_signed crypto tx sig hash),
    )

-- A transaction with a sender that verifies carries a signature of its hash whose recovered key has
-- the sender's address. One without a sender always verifies.
pub verify-Signed :
    (crypto : Crypto) (tx : Transaction)
    → verify crypto tx ≡ ok tt
    → (is_coinbase tx ≡ true)
      ⊎ ((pub_key : Bytes) × (crypto.sig_to_pub (calculate_hash crypto tx) tx.signature
            ≡ some pub_key)
          × (crypto.pubkey_to_address pub_key ≡ tx.from))
unfolding verify verify_signature is_coinbase
verify-Signed crypto tx e =
    elim (Option-cases (crypto.sig_to_pub (calculate_hash crypto tx) tx.signature)) [
      | inl failed ↦ ground arith
      | inr (pub_key, recovered) ↦ elim (Bool-cases (is_empty tx.from)) [
        | inl none_sent ↦ inl none_sent
        | inr sent ↦
            inr
              (pub_key, recovered, ground (arith, ==→eq (crypto.pubkey_to_address pub_key) tx.from))
      ]
    ]

-- Verification does not read the cached hash.
pub verify_same_hashed :
    (crypto : Crypto) (tx : Transaction) (hash : Bytes)
    → verify crypto (record tx { hash = hash }) ≡ verify crypto tx
unfolding verify verify_signature calculate_hash hashed_json
verify_same_hashed crypto tx hash = refl
