-- ===== src/Examples/Commands.antt =====
-- Examples on the subcommands of the daemon.
use poai.Prelude.{◌≡◌, refl, some, false, true, ◌∷◌, List, Bytes, arith, nat_eq, bytes_eq}
use poai.Prelude.Int.{ℤ, pos, negsuc, ◌+ℤ◌, ◌-ℤ◌, to_int64, ◌*ℤ◌}
use poai.Result.{ok, err, invalid_nonce}
use poai.Badger.{MemDb, mem_badger}
use poai.Encoding.{
  of_le, of_be, be_bytes, base64, base64_digit, decimal, decimal_ℤ, le_bytes, of_be_from, push_be,
  push_decimal, hex, hex_digit, codes, parse_digits,
}
use poai.Encoding.Text.{unhex, hex_value, parse_nat, parse_ℤ}
use poai.Tx.{
  Transaction, verify, calculate_hash, sign, is_coinbase, hashed_json, verify_signature, new_tx,
}
use poai.State.{
  set_balance, get_balance, get_nonce, execute_transaction, gas_cost, execute_transfer, total_cost,
  sub_balance, add_balance, increment_nonce, commit, set_nonce,
}
use poai.Cli.{Keys, send_output, handle_send_command, handle_generate_key_command}
use poai.Cli.Send.{IsKey, handle_send_command-verify, send_once, generate_key-send}
use poai.Examples.{toy_crypto, toy_crypto-Recovers, alice, bob}
use poai.Badger.{empty_db}

abbrev toy_keys : Keys
toy_keys = record {
  to_ecdsa = λ bytes. some bytes;
  from_ecdsa = λ key. key;
  from_ecdsa_pub = λ key. key;
}

-- What Alice sends to Bob.
abbrev sent : ℤ → Transaction
sent amount = record (new_tx alice bob amount 0) {
  signature = 1 ∷ alice;
  hash = calculate_hash toy_crypto (new_tx alice bob amount 0);
}

abbrev printed : ℤ → List Bytes
printed amount = send_output alice (hex bob) amount (sent amount)

hundred_sent :
    handle_send_command toy_crypto toy_keys (hex bob) (codes "100") (hex alice)
    ≡ ok (sent (pos 100), printed (pos 100))
unfolding handle_send_command unhex hex_value parse_nat parse_ℤ sign new_tx calculate_hash
    hashed_json hex hex_digit parse_digits
hundred_sent = refl

seven_sent :
    handle_send_command toy_crypto toy_keys (hex bob) (codes "7") (hex alice)
    ≡ ok (sent (pos 7), printed (pos 7))
unfolding handle_send_command unhex hex_value parse_nat parse_ℤ sign new_tx calculate_hash
    hashed_json hex hex_digit parse_digits
seven_sent = refl

handle_send_command-verify_example : verify toy_crypto (sent (pos 100)) ≡ ok tt
handle_send_command-verify_example =
    (handle_send_command-verify toy_crypto toy_keys (hex bob) (codes "100") (hex alice)
      (sent (pos 100)) (printed (pos 100)) toy_crypto-Recovers hundred_sent).0

-- Alice has enough for the gas of a transfer.
abbrev funded : MemDb
funded = (set_balance mem_badger alice (pos 1000000) empty_db).1

abbrev spent : MemDb
spent = (execute_transaction mem_badger toy_crypto (sent (pos 100)) funded).1

hundred_executed :
    execute_transaction mem_badger toy_crypto (sent (pos 100)) funded ≡ (ok tt, spent)
unfolding execute_transaction verify is_coinbase execute_transfer get_nonce of_le set_balance
    get_balance of_be be_bytes total_cost ◌+ℤ◌ gas_cost ◌*ℤ◌ to_int64 sub_balance add_balance
    increment_nonce base64 base64_digit decimal decimal_ℤ le_bytes of_be_from push_be push_decimal
    ◌-ℤ◌ commit set_nonce calculate_hash hashed_json verify_signature sign new_tx
hundred_executed = refl

send_once_example :
    execute_transaction mem_badger toy_crypto (sent (pos 7)) spent ≡ (err invalid_nonce, spent)
unfolding is_coinbase new_tx
send_once_example =
    send_once toy_crypto toy_keys mem_badger (hex bob) (codes "100") (hex bob) (codes "7")
      (hex alice) (sent (pos 100)) (sent (pos 7)) (printed (pos 100)) (printed (pos 7)) funded spent
      toy_crypto-Recovers refl hundred_sent seven_sent hundred_executed

alice-IsKey : IsKey toy_crypto toy_keys alice
alice-IsKey = record {
  read_back = refl;
  key_bytes = ground arith;
  key_ne-nil = λ e. ground arith;
  address_bytes = ground arith;
  address_ne-nil = λ e. ground arith;
}

bob-IsKey : IsKey toy_crypto toy_keys bob
bob-IsKey = record {
  read_back = refl;
  key_bytes = ground arith;
  key_ne-nil = λ e. ground arith;
  address_bytes = ground arith;
  address_ne-nil = λ e. ground arith;
}

generate_key-send_example :
    handle_send_command toy_crypto toy_keys
      (handle_generate_key_command toy_crypto toy_keys true bob).address
      (decimal_ℤ (negsuc 4))
      (handle_generate_key_command toy_crypto toy_keys false alice).private_key
    ≡ ok (sent (negsuc 4), printed (negsuc 4))
unfolding sign
generate_key-send_example =
    generate_key-send toy_crypto toy_keys alice bob false true (negsuc 4) (sent (negsuc 4))
      alice-IsKey bob-IsKey refl
