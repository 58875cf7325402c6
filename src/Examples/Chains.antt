-- ===== src/Examples/Chains.antt =====
-- Examples on the chain.
use poai.Prelude.{◌≡◌, refl, none, [], ◌∷◌, arith, nat_eq, bytes_eq}
use poai.Prelude.Assoc.{lookup}
use poai.Prelude.Int.{pos, negsuc, ◌+ℤ◌, ◌-ℤ◌, to_int64, ◌*ℤ◌}
use poai.Result.{ok, err, invalid_nonce, side_branch}
use poai.Badger.{MemDb, mem_badger, empty_db}
use poai.Header.{header_hash, preimage}
use poai.Encoding.{
  of_le, of_be, be_bytes, base64, base64_digit, decimal, decimal_ℤ, le_bytes, of_be_from, push_be,
  push_decimal, parse_uint, parse_digits,
}
use poai.Tx.{Transaction, verify, calculate_hash, is_coinbase, hashed_json, verify_signature}
use poai.State.{
  set_balance, get_balance, get_nonce, execute_transaction, gas_cost, execute_transfer, total_cost,
  sub_balance, add_balance, increment_nonce, commit, set_nonce,
}
use poai.Block.{Block, block_hash}
use poai.Mempool.{new_mempool, remove_transactions, erase_all}
use poai.Store.{put_block, get_block, prune_blocks, get_tip_height, deletions, min_keep}
use poai.State.{initialize_genesis_state}
use poai.Tx.{new_coinbase_tx}
use poai.Chain.{Env, Chain, add_to_side_branch, notify_head_change}
use poai.Chain.Reorg.{check_reorg, consider_branches}
use poai.Chain.Load.{new_chain, genesis_if_empty, load_stored, create_genesis, genesis_block}
use poai.Chain.Import.{
  extended, import_core, import_block, find_by_hash, import_on, import_taken, set_bits,
  finish_import, execute_transactions, accept_block,
}
use poai.Chain.Extend.{import_core-Extends, import_core_accepts}
use poai.Chain.Heads.{HasHead, IsOvertaken, stray_block_head}
use poai.Chain.Branches.{check_reorg-Untouched}
use poai.Prelude.{All}
use poai.Badger.{mem_badger-Reliable}
use poai.State.Supply.{supply}
use poai.State.Ledger.Supply.{IsListed}
use poai.Chain.Supply.{finish_import-supply}
use poai.Chain.Conflict.{conflicting_block_refused}
use poai.Chain.Start.{new_chain-HasHead}
use poai.Examples.{toy_crypto, toy_codec, plain_block, alice, bob, transfer}

abbrev pub env : Env MemDb
env = record { store = mem_badger; crypto = toy_crypto; codec = toy_codec; prune_depth = 100 }

-- A fresh chain.
abbrev pub fresh : Chain MemDb
fresh = new_chain env (pos 0, pos 0) (negsuc 999) empty_db

abbrev pub genesis : Block
genesis = genesis_block (pos 0, pos 0) (negsuc 999)

-- No other goroutine runs.
abbrev pub alone : Chain MemDb → Chain MemDb
alone c = c

abbrev pub coinbase : Transaction
coinbase = new_coinbase_tx alice (pos 50)

abbrev pub first : Block
first = record (plain_block 1 7 (negsuc 0) (block_hash toy_crypto genesis)) {
  transactions = coinbase ∷ [];
}

abbrev advanced : Chain MemDb
advanced = (import_core env alone first fresh).1

first_imported : import_core env alone first fresh ≡ (ok extended, advanced)
unfolding new_coinbase_tx import_core find_by_hash import_on import_taken set_bits finish_import
    execute_transactions accept_block block_hash header_hash preimage new_chain genesis_if_empty
    load_stored create_genesis genesis_block initialize_genesis_state get_tip_height put_block
    prune_blocks deletions min_keep check_reorg consider_branches notify_head_change
    remove_transactions erase_all new_mempool parse_uint parse_digits get_block execute_transaction
    verify is_coinbase execute_transfer get_nonce of_le set_balance get_balance of_be be_bytes
    total_cost ◌+ℤ◌ gas_cost ◌*ℤ◌ to_int64 sub_balance add_balance increment_nonce base64
    base64_digit decimal decimal_ℤ le_bytes of_be_from push_be push_decimal ◌-ℤ◌ commit set_nonce
    calculate_hash hashed_json verify_signature
first_imported = refl

import_core-Extends_example : lookup 1 fresh.blocks ≡ none
unfolding import_core find_by_hash import_on import_taken set_bits finish_import
    execute_transactions accept_block block_hash header_hash preimage new_chain genesis_if_empty
    load_stored create_genesis genesis_block initialize_genesis_state get_tip_height put_block
    prune_blocks deletions min_keep check_reorg consider_branches notify_head_change
    remove_transactions erase_all new_mempool parse_uint parse_digits get_block execute_transaction
    verify is_coinbase execute_transfer get_nonce of_le set_balance get_balance of_be be_bytes
    total_cost ◌+ℤ◌ gas_cost ◌*ℤ◌ to_int64 sub_balance add_balance increment_nonce base64
    base64_digit decimal decimal_ℤ le_bytes of_be_from push_be push_decimal ◌-ℤ◌ commit set_nonce
    calculate_hash hashed_json verify_signature
import_core-Extends_example =
    (import_core-Extends env alone first fresh advanced refl refl first_imported).0

import_core_accepts_example : (import_core env alone first fresh).0 ≡ ok extended
unfolding new_coinbase_tx import_core find_by_hash import_on import_taken set_bits finish_import
    execute_transactions accept_block block_hash header_hash preimage new_chain genesis_if_empty
    load_stored create_genesis genesis_block initialize_genesis_state get_tip_height put_block
    prune_blocks deletions min_keep check_reorg consider_branches notify_head_change
    remove_transactions erase_all new_mempool parse_uint parse_digits get_block execute_transaction
    verify is_coinbase execute_transfer get_nonce of_le set_balance get_balance of_be be_bytes
    total_cost ◌+ℤ◌ gas_cost ◌*ℤ◌ to_int64 sub_balance add_balance increment_nonce base64
    base64_digit decimal decimal_ℤ le_bytes of_be_from push_be push_decimal ◌-ℤ◌ commit set_nonce
    calculate_hash hashed_json verify_signature
import_core_accepts_example =
    import_core_accepts env alone genesis first fresh refl refl refl refl refl

pub fresh-HasHead : HasHead env fresh
fresh-HasHead = new_chain-HasHead env (pos 0, pos 0) (negsuc 999) empty_db

-- A block at height 5 on top of the genesis block.
abbrev stray : Block
stray = plain_block 5 7 (negsuc 0) (block_hash toy_crypto genesis)

abbrev forked : Chain MemDb
forked = add_to_side_branch stray fresh

stray_block_head_example :
    ((import_block env alone stray fresh).0 ≡ err side_branch)
    × IsOvertaken env stray fresh (check_reorg env (import_block env alone stray fresh).1)
unfolding import_core find_by_hash import_on import_taken set_bits finish_import
    execute_transactions accept_block block_hash header_hash preimage new_chain genesis_if_empty
    load_stored create_genesis genesis_block initialize_genesis_state get_tip_height put_block
    prune_blocks deletions min_keep check_reorg consider_branches notify_head_change
    remove_transactions erase_all new_mempool parse_uint parse_digits get_block execute_transaction
    verify is_coinbase execute_transfer get_nonce of_le set_balance get_balance of_be be_bytes
    total_cost ◌+ℤ◌ gas_cost ◌*ℤ◌ to_int64 sub_balance add_balance increment_nonce base64
    base64_digit decimal decimal_ℤ le_bytes of_be_from push_be push_decimal ◌-ℤ◌ commit set_nonce
    calculate_hash hashed_json verify_signature
stray_block_head_example =
    stray_block_head env alone stray genesis fresh refl refl refl refl (omega arith)

check_reorg-Untouched_example : (check_reorg env forked).block_hash_index ≡ forked.block_hash_index
check_reorg-Untouched_example = (check_reorg-Untouched env forked).0

abbrev minted_db : MemDb
minted_db = (execute_transaction mem_badger toy_crypto coinbase fresh.db).1

coinbase_executed :
    execute_transactions env (coinbase ∷ []) fresh ≡ (ok tt, record fresh { db = minted_db })
unfolding new_coinbase_tx import_core find_by_hash import_on import_taken set_bits finish_import
    execute_transactions accept_block block_hash header_hash preimage new_chain genesis_if_empty
    load_stored create_genesis genesis_block initialize_genesis_state get_tip_height put_block
    prune_blocks deletions min_keep check_reorg consider_branches notify_head_change
    remove_transactions erase_all new_mempool parse_uint parse_digits get_block execute_transaction
    verify is_coinbase execute_transfer get_nonce of_le set_balance get_balance of_be be_bytes
    total_cost ◌+ℤ◌ gas_cost ◌*ℤ◌ to_int64 sub_balance add_balance increment_nonce base64
    base64_digit decimal decimal_ℤ le_bytes of_be_from push_be push_decimal ◌-ℤ◌ commit set_nonce
    calculate_hash hashed_json verify_signature
coinbase_executed = refl

-- Two transfers of Alice's with the nonce 0, after the coinbase that pays her.
abbrev paying : Transaction
paying = transfer alice bob (pos 7) 0

abbrev again : Transaction
again = transfer alice bob (pos 8) 0

abbrev pub clashing : Block
clashing = record first { transactions = coinbase ∷ (paying ∷ (again ∷ [])) }

abbrev paid_db : MemDb
paid_db = (execute_transaction mem_badger toy_crypto paying minted_db).1

paying_executed : execute_transaction mem_badger toy_crypto paying minted_db ≡ (ok tt, paid_db)
unfolding new_coinbase_tx import_core find_by_hash import_on import_taken set_bits finish_import
    execute_transactions accept_block block_hash header_hash preimage new_chain genesis_if_empty
    load_stored create_genesis genesis_block initialize_genesis_state get_tip_height put_block
    prune_blocks deletions min_keep check_reorg consider_branches notify_head_change
    remove_transactions erase_all new_mempool parse_uint parse_digits get_block execute_transaction
    verify is_coinbase execute_transfer get_nonce of_le set_balance get_balance of_be be_bytes
    total_cost ◌+ℤ◌ gas_cost ◌*ℤ◌ to_int64 sub_balance add_balance increment_nonce base64
    base64_digit decimal decimal_ℤ le_bytes of_be_from push_be push_decimal ◌-ℤ◌ commit set_nonce
    calculate_hash hashed_json verify_signature
paying_executed = refl

conflicting_block_refused_example :
    finish_import env clashing fresh ≡ (err invalid_nonce, record fresh { db = paid_db })
unfolding is_coinbase verify verify_signature
conflicting_block_refused_example =
    conflicting_block_refused env clashing (coinbase ∷ []) [] paying again fresh
      (record fresh { db = minted_db }) paid_db refl coinbase_executed refl paying_executed refl
      refl refl

-- Alice is paid for the block and spends some of it in the same block.
abbrev fair : Block
fair = record first { transactions = coinbase ∷ (paying ∷ []) }

fair_taken : (finish_import env fair fresh).0 ≡ ok extended
unfolding new_coinbase_tx import_core find_by_hash import_on import_taken set_bits finish_import
    execute_transactions accept_block block_hash header_hash preimage new_chain genesis_if_empty
    load_stored create_genesis genesis_block initialize_genesis_state get_tip_height put_block
    prune_blocks deletions min_keep check_reorg consider_branches notify_head_change
    remove_transactions erase_all new_mempool parse_uint parse_digits get_block execute_transaction
    verify is_coinbase execute_transfer get_nonce of_le set_balance get_balance of_be be_bytes
    total_cost ◌+ℤ◌ gas_cost ◌*ℤ◌ to_int64 sub_balance add_balance increment_nonce base64
    base64_digit decimal decimal_ℤ le_bytes of_be_from push_be push_decimal ◌-ℤ◌ commit set_nonce
    calculate_hash hashed_json verify_signature
fair_taken = refl

fair-IsListed : All (IsListed (alice ∷ bob ∷ [])) fair.transactions
unfolding is_coinbase new_coinbase_tx
fair-IsListed = (
  record { nonneg = omega arith; to_once = refl; from_once = λ e. ground arith },
  (record { nonneg = omega arith; to_once = refl; from_once = λ e. refl }, tt),
)

finish_import-supply_example :
    supply mem_badger (alice ∷ bob ∷ []) (finish_import env fair fresh).1.db +ℤ pos 0
    ≡ supply mem_badger (alice ∷ bob ∷ []) fresh.db +ℤ pos 50
unfolding is_coinbase new_coinbase_tx gas_cost ◌+ℤ◌ ◌*ℤ◌ to_int64
finish_import-supply_example =
    finish_import-supply env fair fresh (alice ∷ bob ∷ []) mem_badger-Reliable fair-IsListed
      fair_taken
