-- ===== src/Examples/Ledgers.antt =====
-- Examples on the ledger, and on nodes that agree on it.
use poai.Prelude.{◌≡◌, refl, sym, ◌∷◌, nat_eq, bytes_eq}
use poai.Prelude.Int.{◌+ℤ◌, ◌-ℤ◌, to_int64, ◌*ℤ◌}
use poai.Result.{ok}
use poai.Badger.{MemDb, mem_badger, mem_badger-Reliable}
use poai.Encoding.{
  of_le, of_be, be_bytes, base64, base64_digit, decimal, decimal_ℤ, le_bytes, of_be_from, push_be,
  push_decimal,
}
use poai.Tx.{verify, calculate_hash, sign, is_coinbase, hashed_json, verify_signature}
use poai.State.{
  set_balance, get_balance, get_nonce, execute_transaction, gas_cost, execute_transfer, total_cost,
  sub_balance, add_balance, increment_nonce, commit, set_nonce,
}
use poai.State.Ledger.{view, apply}
use poai.State.Ledger.Refine.{execute_transaction_refines}
use poai.Store.{put_block}
use poai.Chain.{Chain}
use poai.Chain.Branches.{put_block-view}
use poai.Chain.Import.{finish_import}
use poai.Chain.Agree.{finish_import_agree}
use poai.Examples.{toy_crypto, toy_codec}
use poai.Examples.Accounts.{funded, payment, paid}
use poai.Examples.Blocks.{block_at}
use poai.Examples.Chains.{env, fresh, clashing}

execute_transaction_refines_example :
    (ok tt, view mem_badger paid) ≡ apply toy_crypto payment (view mem_badger funded)
unfolding execute_transaction verify is_coinbase execute_transfer get_nonce of_le set_balance
    get_balance of_be be_bytes total_cost ◌+ℤ◌ gas_cost ◌*ℤ◌ to_int64 sub_balance add_balance
    increment_nonce base64 base64_digit decimal decimal_ℤ le_bytes of_be_from push_be push_decimal
    ◌-ℤ◌ commit set_nonce calculate_hash hashed_json verify_signature sign
execute_transaction_refines_example =
    execute_transaction_refines mem_badger mem_badger-Reliable toy_crypto payment funded

-- A node that has one block more in its database and its memory.
abbrev ahead : Chain MemDb
ahead = record fresh {
  db = (put_block mem_badger toy_codec 1 (block_at 1) fresh.db).1;
  blocks = (1, block_at 1) ∷ fresh.blocks;
  head = 1;
}

-- Both nodes refuse a block in which one sender spends twice under one nonce, after part of it is
-- executed.
finish_import_agree_example :
    ((finish_import env clashing fresh).0 ≡ (finish_import env clashing ahead).0)
    × (view mem_badger (finish_import env clashing fresh).1.db
        ≡ view mem_badger (finish_import env clashing ahead).1.db)
finish_import_agree_example =
    finish_import_agree env env clashing fresh ahead mem_badger-Reliable mem_badger-Reliable refl
      (sym (put_block-view mem_badger toy_codec 1 (block_at 1) fresh.db))
