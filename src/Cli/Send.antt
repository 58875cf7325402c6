-- ===== src/Cli/Send.antt =====
-- What the transactions of `poaid send` are worth, and the keys of `poaid generate-key`.
use poai.Prelude.{
  ◌<◌, ◌≡◌, refl, sym, ap, ◌∙◌, ◌≢◌, inl, inr, some, Bool, false, List, [], Bytes, nat_eq, bytes_eq,
  arith, All, Option-cases,
}
use poai.Prelude.Int.{ℤ}
use mathlib.Core.Option.{some-injective}
use poai.Encoding.{hex, decimal_ℤ}
use poai.Encoding.Text.{unhex, parse_ℤ, unhex-hex, parse_ℤ-decimal_ℤ, hex-ne-nil, decimal_ℤ-ne-nil}
use poai.Result.{ok, err, invalid_nonce}
use poai.Badger.{Badger}
use poai.Crypto.{Crypto, Recovers}
use poai.Tx.{Transaction, new_tx, sign, verify, is_coinbase}
use poai.Tx.Signing.{verify-sign, sign_shape, is_empty_of_ne}
use poai.State.{execute_transaction}
use poai.State.Execute.{execute_transaction_replay}
use poai.Cli.{Keys, address_of, handle_send_command, handle_generate_key_command, send_output}

module _ (crypto : Crypto) (keys : Keys) where
  -- How a command that succeeded has read its flags.
  pub record Sent (to_addr amount priv_key_hex : Bytes) (tx : Transaction) : Type 0 where
    pub priv_key_bytes : Bytes
    pub priv_key : Bytes
    pub to_addr_bytes : Bytes
    pub amount_int : ℤ
    pub key_read : unhex priv_key_hex ≡ some priv_key_bytes
    pub is_key : keys.to_ecdsa priv_key_bytes ≡ some priv_key
    pub to_read : unhex to_addr ≡ some to_addr_bytes
    pub amount_read : parse_ℤ amount ≡ some amount_int
    pub signed :
        sign crypto priv_key (new_tx (address_of crypto keys priv_key) to_addr_bytes amount_int 0)
        ≡ ok tx

  handle_send_command-Sent :
      (to_addr amount priv_key_hex : Bytes) (tx : Transaction) (out : List Bytes)
      → handle_send_command crypto keys to_addr amount priv_key_hex ≡ ok (tx, out)
      → Sent to_addr amount priv_key_hex tx
  unfolding handle_send_command
  handle_send_command-Sent to_addr amount priv_key_hex tx out e =
      elim (Option-cases (unhex priv_key_hex)) [
        | inl bad ↦ absurd (ground arith)
        | inr (bytes, key_read) ↦ elim (Option-cases (keys.to_ecdsa bytes)) [
          | inl bad ↦ absurd (ground arith)
          | inr (key, is_key) ↦ elim (Option-cases (unhex to_addr)) [
            | inl bad ↦ absurd (ground arith)
            | inr (to, to_read) ↦ elim (Option-cases (parse_ℤ amount)) [
              | inl bad ↦ absurd (ground arith)
              | inr (n, amount_read) ↦ record {
                priv_key_bytes = bytes;
                priv_key = key;
                to_addr_bytes = to;
                amount_int = n;
                key_read = key_read;
                is_key = is_key;
                to_read = to_read;
                amount_read = amount_read;
                signed = ground arith;
              }
            ]
          ]
        ]
      ]

  -- The fields of the transaction.
  Sent-fields :
      (to_addr amount priv_key_hex : Bytes) (tx : Transaction)
      (s : Sent to_addr amount priv_key_hex tx)
      → (tx.from ≡ address_of crypto keys s.priv_key)
        × (tx.to ≡ s.to_addr_bytes)
        × (tx.amount ≡ s.amount_int)
        × (tx.nonce ≡ 0)
  unfolding new_tx
  Sent-fields to_addr amount priv_key_hex tx s =
      let unsigned = new_tx (address_of crypto keys s.priv_key) s.to_addr_bytes s.amount_int 0 in
      let (sig, _, shape) = sign_shape crypto s.priv_key unsigned tx s.signed in
      rw (← shape) (refl, refl, refl, refl)

  -- The same private key has the same address.
  Sent-same_key :
      (to_addr to_addr' amount amount' priv_key_hex : Bytes) (tx tx' : Transaction)
      (s : Sent to_addr amount priv_key_hex tx) (s' : Sent to_addr' amount' priv_key_hex tx')
      → s'.priv_key ≡ s.priv_key
  Sent-same_key to_addr to_addr' amount amount' priv_key_hex tx tx' s s' =
      let same_bytes = some-injective _ _ (sym s'.key_read ∙ s.key_read) in
      some-injective _ _ (sym s'.is_key ∙ ap keys.to_ecdsa same_bytes ∙ s.is_key)

  -- A transaction that `send` prints is from the address of the private key, goes to the address that
  -- was given in hexadecimal, has the amount that was given in decimal, and verifies. Its nonce is 0.
  pub handle_send_command-verify :
      (to_addr amount priv_key_hex : Bytes) (tx : Transaction) (out : List Bytes)
      → Recovers crypto
      → handle_send_command crypto keys to_addr amount priv_key_hex ≡ ok (tx, out)
      → (verify crypto tx ≡ ok tt)
        × (unhex to_addr ≡ some tx.to)
        × (parse_ℤ amount ≡ some tx.amount)
        × (tx.nonce ≡ 0)
        × ((key_bytes : Bytes) × ((key : Bytes) × ((unhex priv_key_hex ≡ some key_bytes)
                × ((keys.to_ecdsa key_bytes ≡ some key) × (tx.from ≡ address_of crypto keys key)))))
  unfolding new_tx
  handle_send_command-verify to_addr amount priv_key_hex tx out laws e =
      let s = handle_send_command-Sent to_addr amount priv_key_hex tx out e in
      let (from, to, amount_ok, nonce_ok) = Sent-fields to_addr amount priv_key_hex tx s in
      let unsigned = new_tx (address_of crypto keys s.priv_key) s.to_addr_bytes s.amount_int 0 in
      (
        (verify-sign crypto s.priv_key unsigned tx laws refl s.signed).0,
        s.to_read ∙ ap some (sym to),
        s.amount_read ∙ ap some (sym amount_ok),
        nonce_ok,
        (s.priv_key_bytes, (s.priv_key, (s.key_read, (s.is_key, from)))),
      )

  -- Once one transaction of `send` has been executed, every other one that `send` makes with the same
  -- private key is refused for its nonce, whatever the recipient and the amount: `send` always signs
  -- the nonce 0.
  pub send_once :
      {Db : Type 0} (store : Badger Db) (to_addr amount to_addr' amount' priv_key_hex : Bytes)
      (tx tx' : Transaction) (out out' : List Bytes) (db db' : Db)
      → Recovers crypto
      → is_coinbase tx ≡ false
      → handle_send_command crypto keys to_addr amount priv_key_hex ≡ ok (tx, out)
      → handle_send_command crypto keys to_addr' amount' priv_key_hex ≡ ok (tx', out')
      → execute_transaction store crypto tx db ≡ (ok tt, db')
      → execute_transaction store crypto tx' db' ≡ (err invalid_nonce, db')
  send_once store to_addr amount to_addr' amount' priv_key_hex tx tx' out out' db db' laws user e e'
        ran =
      let s = handle_send_command-Sent to_addr amount priv_key_hex tx out e in
      let s' = handle_send_command-Sent to_addr' amount' priv_key_hex tx' out' e' in
      let fields = Sent-fields to_addr amount priv_key_hex tx s in
      let fields' = Sent-fields to_addr' amount' priv_key_hex tx' s' in
      let same = Sent-same_key to_addr to_addr' amount amount' priv_key_hex tx tx' s s' in
      execute_transaction_replay store crypto tx tx' db db' user ran
        (fields'.0 ∙ ap (address_of crypto keys) same ∙ sym fields.0) (fields'.3 ∙ sym fields.3)
        (handle_send_command-verify to_addr' amount' priv_key_hex tx' out' laws e').0

  -- What is documented of a key that `crypto.GenerateKey` made: its bytes are bytes and read back as
  -- the key, and its address has bytes.
  pub record IsKey (key : Bytes) : Type 0 where
    pub read_back : keys.to_ecdsa (keys.from_ecdsa key) ≡ some key
    pub key_bytes : All (λ b. b < 256) (keys.from_ecdsa key)
    pub key_ne-nil : keys.from_ecdsa key ≢ []
    pub address_bytes : All (λ b. b < 256) (address_of crypto keys key)
    pub address_ne-nil : address_of crypto keys key ≢ []

  -- With the private key that `generate-key` prints for one key, the address that it prints for another
  -- and an amount in decimal, `send` succeeds. Its transaction is the signed transfer of that amount,
  -- negative or not, from the account of the one to the account of the other.
  pub generate_key-send :
      (key key' : Bytes) (save save' : Bool) (n : ℤ) (tx : Transaction)
      → IsKey key
      → IsKey key'
      → sign crypto key (new_tx (address_of crypto keys key) (address_of crypto keys key') n 0)
        ≡ ok tx
      → handle_send_command crypto keys
          (handle_generate_key_command crypto keys save' key').address
          (decimal_ℤ n)
          (handle_generate_key_command crypto keys save key).private_key
        ≡ ok (tx, send_output (address_of crypto keys key) (hex (address_of crypto keys key')) n tx)
  unfolding handle_send_command handle_generate_key_command
  generate_key-send key key' save save' n tx k k' signed = ground (
    arith,
    is_empty_of_ne (hex (address_of crypto keys key')) (hex-ne-nil _ k'.address_ne-nil),
    is_empty_of_ne (decimal_ℤ n) (decimal_ℤ-ne-nil n),
    is_empty_of_ne (hex (keys.from_ecdsa key)) (hex-ne-nil _ k.key_ne-nil),
    unhex-hex (keys.from_ecdsa key) k.key_bytes,
    unhex-hex (address_of crypto keys key') k'.address_bytes,
    k.read_back,
    parse_ℤ-decimal_ℤ n,
    signed,
  )
