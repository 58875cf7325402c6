-- ===== src/Examples/Starts.antt =====
-- Examples on chains that come up.
use poai.Prelude.{◌≡◌, refl, some, arith, nat_eq, bytes_eq}
use poai.Prelude.Int.{pos, negsuc, ◌+ℤ◌, ◌-ℤ◌, to_int64, ◌*ℤ◌}
use poai.Result.{ok}
use poai.Badger.{mem_badger}
use poai.Header.{header_hash, preimage}
use poai.Encoding.{
  of_le, of_be, be_bytes, base64, base64_digit, decimal, decimal_ℤ, le_bytes, of_be_from, push_be,
  push_decimal, parse_uint, parse_digits,
}
use poai.Tx.{verify, calculate_hash, is_coinbase, hashed_json, verify_signature}
use poai.State.{
  set_balance, get_balance, get_nonce, execute_transaction, gas_cost, execute_transfer, total_cost,
  sub_balance, add_balance, increment_nonce, commit, set_nonce,
}
use poai.Block.{block_hash}
use poai.Mempool.{new_mempool, remove_transactions, erase_all}
use poai.Store.{put_block, get_block, prune_blocks, get_tip_height, deletions, min_keep}
use poai.State.{initialize_genesis_state}
use poai.Chain.{notify_head_change}
use poai.Chain.Reorg.{check_reorg, consider_branches}
use poai.Chain.Load.{
  load_loop, empty_chain, new_chain, genesis_if_empty, load_stored, create_genesis, genesis_block,
}
use poai.Chain.Import.{
  import_core, find_by_hash, import_on, import_taken, set_bits, finish_import, execute_transactions,
  accept_block,
}
use poai.Chain.Start.{new_chain_restart}
use poai.Examples.{toy_codec}
use poai.Examples.Blocks.{block_at, db2}
use poai.Examples.Chains.{env}

pub db2_tip : get_tip_height mem_badger db2 ≡ ok 2
unfolding import_core find_by_hash import_on import_taken set_bits finish_import
    execute_transactions accept_block block_hash header_hash preimage new_chain genesis_if_empty
    load_stored create_genesis genesis_block initialize_genesis_state get_tip_height put_block
    prune_blocks deletions min_keep check_reorg consider_branches notify_head_change
    remove_transactions erase_all new_mempool parse_uint parse_digits get_block execute_transaction
    verify is_coinbase execute_transfer get_nonce of_le set_balance get_balance of_be be_bytes
    total_cost ◌+ℤ◌ gas_cost ◌*ℤ◌ to_int64 sub_balance add_balance increment_nonce base64
    base64_digit decimal decimal_ℤ le_bytes of_be_from push_be push_decimal ◌-ℤ◌ commit set_nonce
    calculate_hash hashed_json verify_signature
db2_tip = refl

pub db2_block : get_block mem_badger toy_codec 1 db2 ≡ ok (block_at 1)
unfolding import_core find_by_hash import_on import_taken set_bits finish_import
    execute_transactions accept_block block_hash header_hash preimage new_chain genesis_if_empty
    load_stored create_genesis genesis_block initialize_genesis_state get_tip_height put_block
    prune_blocks deletions min_keep check_reorg consider_branches notify_head_change
    remove_transactions erase_all new_mempool parse_uint parse_digits get_block execute_transaction
    verify is_coinbase execute_transfer get_nonce of_le set_balance get_balance of_be be_bytes
    total_cost ◌+ℤ◌ gas_cost ◌*ℤ◌ to_int64 sub_balance add_balance increment_nonce base64
    base64_digit decimal decimal_ℤ le_bytes of_be_from push_be push_decimal ◌-ℤ◌ commit set_nonce
    calculate_hash hashed_json verify_signature
db2_block = refl

new_chain_restart_example :
    (load_loop env 4 0 2 (empty_chain env (negsuc 999) db2)
      ≡ some (new_chain env (pos 0, pos 0) (negsuc 999) db2))
    × ((new_chain env (pos 0, pos 0) (negsuc 999) db2).db ≡ db2)
new_chain_restart_example =
    let came_up =
      new_chain_restart env (pos 0, pos 0) (negsuc 999) db2 4 2 1 (block_at 1) (omega arith)
        (omega arith) db2_tip (omega arith) db2_block in
    (came_up.0, came_up.1)
