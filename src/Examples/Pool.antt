-- ===== src/Examples/Pool.antt =====
-- Examples on the pool of pending transactions.
use poai.Prelude.{◌+◌, ◌≡◌, refl, none, [], ◌∷◌, Bytes, nat_eq, bytes_eq}
use poai.Prelude.Assoc.{lookup, insert}
use poai.Prelude.Int.{◌+ℤ◌, ◌-ℤ◌, to_int64, ◌*ℤ◌}
use poai.Result.{ok}
use poai.Badger.{mem_badger}
use poai.Encoding.{
  of_le, of_be, be_bytes, base64, base64_digit, decimal, decimal_ℤ, le_bytes, of_be_from, push_be,
  push_decimal, hex, hex_digit,
}
use poai.Tx.{
  Transaction, verify, calculate_hash, is_coinbase, hashed_json, verify_signature, with_hash,
}
use poai.State.{
  set_balance, get_balance, get_nonce, execute_transaction, validate_transaction, gas_cost,
  execute_transfer, total_cost, sub_balance, add_balance, increment_nonce, commit, set_nonce,
}
use poai.Mempool.{
  Mempool, new_mempool, add_hashed, add_transaction, cleanup, invalid_keys, erase_all,
  remove_transactions, size,
}
use poai.Mempool.Add.{
  IsPool, new_mempool-IsPool, add_transaction-IsPool, add_transaction_effect,
  add_transaction_forged,
}
use poai.Mempool.Cleanup.{cleanup-lookup}
use poai.Examples.{toy_crypto}
use poai.Examples.Accounts.{funded, payment, paid}

abbrev pending : Mempool
pending = (add_transaction mem_badger toy_crypto payment funded new_mempool).1

pending_added : add_transaction mem_badger toy_crypto payment funded new_mempool ≡ (ok tt, pending)
unfolding validate_transaction add_transaction add_hashed with_hash hex hex_digit cleanup
    invalid_keys erase_all new_mempool remove_transactions execute_transaction verify is_coinbase
    execute_transfer get_nonce of_le set_balance get_balance of_be be_bytes total_cost ◌+ℤ◌ gas_cost
    ◌*ℤ◌ to_int64 sub_balance add_balance increment_nonce base64 base64_digit decimal decimal_ℤ
    le_bytes of_be_from push_be push_decimal ◌-ℤ◌ commit set_nonce calculate_hash hashed_json
    verify_signature
pending_added = refl

pending-IsPool : IsPool pending
pending-IsPool =
    add_transaction-IsPool mem_badger toy_crypto payment funded new_mempool new_mempool-IsPool

add_transaction_effect_example : size pending ≡ size new_mempool + 1
unfolding validate_transaction add_transaction add_hashed with_hash hex hex_digit cleanup
    invalid_keys erase_all new_mempool remove_transactions execute_transaction verify is_coinbase
    execute_transfer get_nonce of_le set_balance get_balance of_be be_bytes total_cost ◌+ℤ◌ gas_cost
    ◌*ℤ◌ to_int64 sub_balance add_balance increment_nonce base64 base64_digit decimal decimal_ℤ
    le_bytes of_be_from push_be push_decimal ◌-ℤ◌ commit set_nonce calculate_hash hashed_json
    verify_signature
add_transaction_effect_example =
    (add_transaction_effect mem_badger toy_crypto payment funded new_mempool pending
      pending_added).3

-- The payment again, under a hash of the sender's choice.
abbrev forged : Bytes
forged = 9 ∷ 9 ∷ 9 ∷ 9 ∷ []

abbrev copy : Transaction
copy = record payment { hash = forged }

add_transaction_forged_example :
    add_transaction mem_badger toy_crypto copy funded pending
    ≡ (ok tt, record pending { txs = insert (hex forged) copy pending.txs })
unfolding validate_transaction add_transaction add_hashed with_hash hex hex_digit cleanup
    invalid_keys erase_all new_mempool remove_transactions execute_transaction verify is_coinbase
    execute_transfer get_nonce of_le set_balance get_balance of_be be_bytes total_cost ◌+ℤ◌ gas_cost
    ◌*ℤ◌ to_int64 sub_balance add_balance increment_nonce base64 base64_digit decimal decimal_ℤ
    le_bytes of_be_from push_be push_decimal ◌-ℤ◌ commit set_nonce calculate_hash hashed_json
    verify_signature
add_transaction_forged_example =
    add_transaction_forged mem_badger toy_crypto payment forged funded pending refl refl refl refl

-- Once the payment is executed, its nonce is used up.
abbrev cleaned : Mempool
cleaned = (cleanup mem_badger toy_crypto paid pending).1

cleaned_up : cleanup mem_badger toy_crypto paid pending ≡ (ok tt, cleaned)
unfolding validate_transaction add_transaction add_hashed with_hash hex hex_digit cleanup
    invalid_keys erase_all new_mempool remove_transactions execute_transaction verify is_coinbase
    execute_transfer get_nonce of_le set_balance get_balance of_be be_bytes total_cost ◌+ℤ◌ gas_cost
    ◌*ℤ◌ to_int64 sub_balance add_balance increment_nonce base64 base64_digit decimal decimal_ℤ
    le_bytes of_be_from push_be push_decimal ◌-ℤ◌ commit set_nonce calculate_hash hashed_json
    verify_signature
cleaned_up = refl

cleanup-lookup_example : lookup (hex (with_hash toy_crypto payment).hash) cleaned.txs ≡ none
unfolding validate_transaction add_transaction add_hashed with_hash hex hex_digit cleanup
    invalid_keys erase_all new_mempool remove_transactions execute_transaction verify is_coinbase
    execute_transfer get_nonce of_le set_balance get_balance of_be be_bytes total_cost ◌+ℤ◌ gas_cost
    ◌*ℤ◌ to_int64 sub_balance add_balance increment_nonce base64 base64_digit decimal decimal_ℤ
    le_bytes of_be_from push_be push_decimal ◌-ℤ◌ commit set_nonce calculate_hash hashed_json
    verify_signature
cleanup-lookup_example =
    (cleanup-lookup mem_badger toy_crypto paid pending cleaned pending-IsPool cleaned_up).1
      (hex (with_hash toy_crypto payment).hash)
