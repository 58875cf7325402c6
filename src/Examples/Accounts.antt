-- ===== src/Examples/Accounts.antt =====
-- Examples on accounts and transactions.
use poai.Prelude.{◌≡◌, refl, arith, nat_eq, bytes_eq}
use poai.Prelude.Int.{pos, negsuc, ◌+ℤ◌, ◌-ℤ◌, to_int64, ◌*ℤ◌}
use poai.Result.{ok, err, invalid_nonce}
use poai.Badger.{MemDb, mem_badger, mem_badger-Reliable, empty_db}
use poai.Encoding.{
  of_le, of_be, be_bytes, base64, base64_digit, decimal, decimal_ℤ, le_bytes, of_be_from, push_be,
  push_decimal,
}
use poai.Tx.{Transaction, verify, calculate_hash, sign, is_coinbase, hashed_json, verify_signature}
use poai.Tx.Signing.{verify-sign}
use poai.State.{
  set_balance, get_balance, get_nonce, execute_transaction, validate_transaction, gas_cost,
  execute_transfer, total_cost, sub_balance, add_balance, increment_nonce, commit, set_nonce,
}
use poai.State.Execute.{execute_transaction_replay}
use poai.State.Supply.{execute_transaction_negative}
use poai.State.Validate.{execute_transaction-validate_transaction}
use poai.Examples.{toy_crypto, toy_crypto-Recovers, alice, bob, transfer}

-- Alice has 1000 coins.
abbrev pub funded : MemDb
funded = (set_balance mem_badger alice (pos 1000) empty_db).1

abbrev pub payment : Transaction
payment = transfer alice bob (pos 100) 0

abbrev pub paid : MemDb
paid = (execute_transaction mem_badger toy_crypto payment funded).1

pub payment_executed : execute_transaction mem_badger toy_crypto payment funded ≡ (ok tt, paid)
unfolding execute_transaction verify is_coinbase execute_transfer get_nonce of_le set_balance
    get_balance of_be be_bytes total_cost ◌+ℤ◌ gas_cost ◌*ℤ◌ to_int64 sub_balance add_balance
    increment_nonce base64 base64_digit decimal decimal_ℤ le_bytes of_be_from push_be push_decimal
    ◌-ℤ◌ commit set_nonce calculate_hash hashed_json verify_signature sign
payment_executed = refl

-- A second transfer of Alice's with the same nonce.
abbrev pub conflicting : Transaction
conflicting = transfer alice bob (pos 7) 0

execute_transaction_replay_example :
    execute_transaction mem_badger toy_crypto conflicting paid ≡ (err invalid_nonce, paid)
unfolding execute_transaction verify is_coinbase execute_transfer get_nonce of_le set_balance
    get_balance of_be be_bytes total_cost ◌+ℤ◌ gas_cost ◌*ℤ◌ to_int64 sub_balance add_balance
    increment_nonce base64 base64_digit decimal decimal_ℤ le_bytes of_be_from push_be push_decimal
    ◌-ℤ◌ commit set_nonce calculate_hash hashed_json verify_signature sign
execute_transaction_replay_example =
    execute_transaction_replay mem_badger toy_crypto payment conflicting funded paid refl
      payment_executed refl refl refl

execute_transaction-validate_transaction_example :
    (execute_transaction mem_badger toy_crypto conflicting paid).0 ≡ err invalid_nonce
unfolding validate_transaction execute_transaction verify is_coinbase execute_transfer get_nonce
    of_le set_balance get_balance of_be be_bytes total_cost ◌+ℤ◌ gas_cost ◌*ℤ◌ to_int64 sub_balance
    add_balance increment_nonce base64 base64_digit decimal decimal_ℤ le_bytes of_be_from push_be
    push_decimal ◌-ℤ◌ commit set_nonce calculate_hash hashed_json verify_signature sign
execute_transaction-validate_transaction_example =
    execute_transaction-validate_transaction mem_badger mem_badger-Reliable toy_crypto conflicting
      paid

-- Alice sends Bob minus five coins.
abbrev negative : Transaction
negative = transfer alice bob (negsuc 4) 0

abbrev inflated : MemDb
inflated = (execute_transaction mem_badger toy_crypto negative funded).1

negative_executed : execute_transaction mem_badger toy_crypto negative funded ≡ (ok tt, inflated)
unfolding execute_transaction verify is_coinbase execute_transfer get_nonce of_le set_balance
    get_balance of_be be_bytes total_cost ◌+ℤ◌ gas_cost ◌*ℤ◌ to_int64 sub_balance add_balance
    increment_nonce base64 base64_digit decimal decimal_ℤ le_bytes of_be_from push_be push_decimal
    ◌-ℤ◌ commit set_nonce calculate_hash hashed_json verify_signature sign
negative_executed = refl

execute_transaction_negative_example : get_balance mem_badger alice inflated ≡ pos 1005
unfolding execute_transaction verify is_coinbase execute_transfer get_nonce of_le set_balance
    get_balance of_be be_bytes total_cost ◌+ℤ◌ gas_cost ◌*ℤ◌ to_int64 sub_balance add_balance
    increment_nonce base64 base64_digit decimal decimal_ℤ le_bytes of_be_from push_be push_decimal
    ◌-ℤ◌ commit set_nonce calculate_hash hashed_json verify_signature sign
execute_transaction_negative_example =
    (execute_transaction_negative mem_badger toy_crypto negative 4 funded inflated refl
      (λ e. ground arith) refl refl (omega arith) negative_executed).0

abbrev signed : Transaction
signed = record payment { hash = calculate_hash toy_crypto payment }

verify-sign_example :
    (verify toy_crypto signed ≡ ok tt) × (signed.hash ≡ calculate_hash toy_crypto signed)
unfolding execute_transaction verify is_coinbase execute_transfer get_nonce of_le set_balance
    get_balance of_be be_bytes total_cost ◌+ℤ◌ gas_cost ◌*ℤ◌ to_int64 sub_balance add_balance
    increment_nonce base64 base64_digit decimal decimal_ℤ le_bytes of_be_from push_be push_decimal
    ◌-ℤ◌ commit set_nonce calculate_hash hashed_json verify_signature sign
verify-sign_example = verify-sign toy_crypto alice payment signed toy_crypto-Recovers refl refl
