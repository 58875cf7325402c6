-- ===== src/Tx.antt =====
-- Transactions (poai/core/tx.go).
pub mod Signing
use poai.Prelude.{
  ℕ, Bool, true, false, none, some, [], ◌∷◌, ◌++◌, Bytes, ◌==◌, bytes_eq, if◌then◌else◌, nat_eq,
}
use poai.Prelude.Int.{ℤ, pos}
use poai.Encoding.{codes, decimal, decimal_ℤ, base64}
use poai.Result.{Result, ok, err, no_signature, invalid_signature, sender_mismatch, signing_failed}
use poai.Crypto.{Crypto}

-- The slices, `Amount` and `GasPrice` are not nil.
pub record Transaction : Type 0 where
  pub from : Bytes
  pub to : Bytes
  pub amount : ℤ
  pub nonce : ℕ
  pub gas_limit : ℕ
  pub gas_price : ℤ
  pub signature : Bytes
  pub hash : Bytes

-- `len(b) == 0`
abbrev pub is_empty : Bytes → Bool
is_empty [] = true
is_empty (b ∷ bs) = false

unfoldable pub new_coinbase_tx : Bytes → ℤ → Transaction
new_coinbase_tx miner_addr subsidy = record {
  from = [];
  to = miner_addr;
  amount = subsidy;
  nonce = 0;
  gas_limit = 0;
  gas_price = pos 0;
  signature = [];
  hash = [];
}

unfoldable pub new_tx : Bytes → Bytes → ℤ → ℕ → Transaction
new_tx from to amount nonce = record {
  from = from;
  to = to;
  amount = amount;
  nonce = nonce;
  gas_limit = 21000;
  gas_price = pos 1;
  signature = [];
  hash = [];
}

-- `json.Marshal` of the six fields that are hashed, where the slices are not nil.
unfoldable pub hashed_json : Transaction → Bytes
hashed_json tx =
    codes "{\"from\":\""
    ++ (base64 tx.from
        ++ (codes "\",\"to\":\""
            ++ (base64 tx.to
                ++ (codes "\",\"amount\":"
                    ++ (decimal_ℤ tx.amount
                        ++ (codes ",\"nonce\":"
                            ++ (decimal tx.nonce
                                ++ (codes ",\"gasLimit\":"
                                    ++ (decimal tx.gas_limit
                                        ++ (codes ",\"gasPrice\":"
                                            ++ (decimal_ℤ tx.gas_price ++ codes "}")))))))))))

unfoldable pub is_coinbase : Transaction → Bool
is_coinbase tx = is_empty tx.from

module _ (crypto : Crypto) where
  unfoldable pub calculate_hash : Transaction → Bytes
  calculate_hash tx = crypto.keccak256 (hashed_json tx)

  -- `Sign` leaves the transaction alone when it fails.
  unfoldable pub sign : Bytes → Transaction → Result Transaction
  sign key tx =
      let hash = calculate_hash tx in
      elim (crypto.sign_hash hash key) [
        | none ↦ err signing_failed
        | some sig ↦ ok (record tx { signature = sig; hash = hash })
      ]

  unfoldable pub verify_signature : Transaction → Result (Unit {0})
  verify_signature tx =
      if is_empty tx.signature
      then err no_signature
      else elim (crypto.sig_to_pub (calculate_hash tx) tx.signature) [
        | none ↦ err invalid_signature
        | some pub_key ↦
            if crypto.pubkey_to_address pub_key == tx.from then ok tt else err sender_mismatch
      ]

  unfoldable pub verify : Transaction → Result (Unit {0})
  unfolding verify_signature
  verify tx = if is_empty tx.from then ok tt else verify_signature tx

  -- The hash is calculated if it is not set, as the pool and the Merkle root do.
  unfoldable pub with_hash : Transaction → Transaction
  unfolding calculate_hash
  with_hash tx = if is_empty tx.hash then record tx { hash = calculate_hash tx } else tx
