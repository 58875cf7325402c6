-- ===== src/Cli.antt =====
-- The subcommands of the daemon (poai/cmd/poaid/cli.go), on the values of their flags.
pub mod Send
use poai.Prelude.{
  Option, none, some, Bool, true, false, ◌||◌, List, [], ◌∷◌, ◌++◌, Bytes, ◌==◌, nat_eq, bytes_eq,
  if◌then◌else◌,
}
use poai.Prelude.Int.{ℤ}
use poai.Encoding.{codes, decimal_ℤ, hex}
use poai.Encoding.Text.{unhex, parse_ℤ}
use poai.Result.{
  Error, Result, ok, err, bad_usage, invalid_private_key, invalid_key_format, invalid_address,
  invalid_amount, cannot_access,
}
use poai.Badger.{Badger}
use poai.Crypto.{Crypto}
use poai.Tx.{Transaction, is_empty, new_tx, sign}
use poai.State.{get_balance}

-- Keys as bytes: `crypto.ToECDSA`, whose error is `none`, `crypto.FromECDSA` and
-- `crypto.FromECDSAPub`.
pub record Keys : Type 0 where
  pub to_ecdsa : Bytes → Option Bytes
  pub from_ecdsa : Bytes → Bytes
  pub from_ecdsa_pub : Bytes → Bytes

-- What `main` goes on with: without a subcommand that is known, the daemon.
pub data Command : Type 0 where
  daemon send balance generate_key help : Command

unfoldable pub handle_cli_commands : List Bytes → Command
handle_cli_commands [] = daemon
handle_cli_commands (program ∷ []) = daemon
handle_cli_commands (program ∷ subcommand ∷ args) =
    if subcommand == codes "send"
    then send
    else (if subcommand == codes "balance"
        then balance
        else (if subcommand == codes "generate-key"
            then generate_key
            else (if subcommand == codes "help" then help else daemon)))

infixl 5 ◌>>=◌
abbrev ◌>>=◌ : {A B : Type 0} → Result A → (A → Result B) → Result B
ok a >>= f = f a
err e >>= f = err e

-- `log.Fatalf` and `os.Exit(1)` end the command with an error.
abbrev pub need : {A : Type 0} → Option A → Error → Result A
need none e = err e
need (some a) e = ok a

-- What the command prints of a signed transaction.
unfoldable pub send_output : Bytes → Bytes → ℤ → Transaction → List Bytes
send_output sender to_addr amount tx =
    codes "Transaction created:"
    ∷ (codes "  From: " ++ hex sender)
    ∷ (codes "  To: " ++ to_addr)
    ∷ (codes "  Amount: " ++ decimal_ℤ amount)
    ∷ (codes "  Hash: " ++ hex tx.hash)
    ∷ (codes "  Signature: " ++ hex tx.signature)
    ∷ codes ""
    ∷ codes "Transaction signed successfully. Add to mempool to broadcast."
    ∷ []

module _ (crypto : Crypto) (keys : Keys) where
  -- `privKey.Public()`, and its address.
  abbrev pub address_of : Bytes → Bytes
  address_of key = crypto.pubkey_to_address (crypto.public_key key)

  -- The transaction is printed and goes nowhere else.
  unfoldable pub handle_send_command : Bytes → Bytes → Bytes → Result (Transaction × List Bytes)
  handle_send_command to_addr amount priv_key_hex =
      if is_empty to_addr || is_empty amount || is_empty priv_key_hex then err bad_usage else do
        priv_key_bytes ← need (unhex priv_key_hex) invalid_private_key
        priv_key ← need (keys.to_ecdsa priv_key_bytes) invalid_key_format
        to_addr_bytes ← need (unhex to_addr) invalid_address
        amount_int ← need (parse_ℤ amount) invalid_amount
        tx ← sign crypto priv_key (new_tx (address_of priv_key) to_addr_bytes amount_int 0)
        ok (tx, send_output (address_of priv_key) to_addr amount_int tx)

  -- What `generate-key` prints of a new key, and the files that it saves, by their names.
  pub record KeyOutput : Type 0 where
    pub private_key : Bytes
    pub public_key : Bytes
    pub address : Bytes
    pub files : List (Bytes × Bytes)

  unfoldable pub miner_config : Bytes → Bytes
  miner_config address_hex =
      codes "# PoAI Miner Configuration\n"
      ++ (codes "# Copy this address to use with --miner-address flag\n\n"
          ++ (codes "MINER_ADDRESS="
              ++ (address_hex
                  ++ (codes "\n\n# Example usage:\n# ./poaid --miner-address="
                      ++ (address_hex
                          ++ codes
                              " --model-path=models/tinyllama-1.1b-chat-v1.0.Q4_K_M.gguf --target=500\n")))))

  unfoldable pub handle_generate_key_command : Bool → Bytes → KeyOutput
  unfolding miner_config
  handle_generate_key_command save_to_file priv_key =
      let priv_key_hex = hex (keys.from_ecdsa priv_key) in
      let address_hex = hex (address_of priv_key) in
      record {
        private_key = priv_key_hex;
        public_key = hex (keys.from_ecdsa_pub (crypto.public_key priv_key));
        address = address_hex;
        files =
            if save_to_file
            then (codes "poai_private_key.txt", priv_key_hex)
              ∷ (codes "poai_address.txt", address_hex)
              ∷ (codes "miner_config.txt", miner_config address_hex)
              ∷ []
            else [];
      }

-- The balance that is printed. `none` of the database is an error of `OpenBadgerStore`: a running node
-- holds it.
unfoldable pub handle_balance_command :
    {Db : Type 0} → Badger Db → Bytes → Option Db → Result (ℤ × Bytes)
handle_balance_command store addr opened = if is_empty addr then err bad_usage else do
  addr_bytes ← need (unhex addr) invalid_address
  db ← need opened cannot_access
  ok (get_balance store addr_bytes db, decimal_ℤ (get_balance store addr_bytes db))
