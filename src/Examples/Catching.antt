-- ===== src/Examples/Catching.antt =====
-- An example on a node that catches up.
use poai.Prelude.{◌≡◌, refl, [], ◌∷◌, arith, nat_eq, bytes_eq}
use poai.Prelude.Int.{pos, negsuc, ◌+ℤ◌, ◌-ℤ◌, to_int64, ◌*ℤ◌}
use poai.Badger.{MemDb, mem_badger, mem_badger-Reliable}
use poai.Encoding.{
  of_le, of_be, be_bytes, base64, base64_digit, decimal, decimal_ℤ, le_bytes, of_be_from, push_be,
  push_decimal, parse_uint, parse_digits,
}
use poai.Header.{header_hash, preimage}
use poai.Block.{Block, block_hash}
use poai.Tx.{verify, calculate_hash, is_coinbase, hashed_json, verify_signature, new_coinbase_tx}
use poai.State.{
  set_balance, get_balance, get_nonce, gas_cost, total_cost, commit, initialize_genesis_state,
}
use poai.State.Ledger.{apply, apply_all, view}
use poai.Mempool.{new_mempool}
use poai.Store.{put_block, get_tip_height}
use poai.Chain.{Chain, block_by_height}
use poai.Chain.Load.{new_chain, genesis_if_empty, load_stored, create_genesis, genesis_block}
use poai.Chain.Import.{find_by_hash}
use poai.Net.{NewHeadMsg, Node, handle_new_head, handle_block_resp}
use poai.Net.Next.{Ready}
use poai.Net.CatchUp.{Segment, catch_up}
use poai.Examples.{toy_crypto, plain_block, alice, bob, transfer}
use poai.Examples.Chains.{env, fresh, genesis, alone, first}

-- Alice spends what she was paid for the first block.
abbrev second : Block
second = record (plain_block 2 7 (negsuc 0) (block_hash toy_crypto first)) {
  transactions = transfer alice bob (pos 20) 0 ∷ [];
}

-- A peer with both blocks, and a node with none of them.
abbrev peer : Chain MemDb
peer = record fresh { blocks = (0, genesis) ∷ (1, first) ∷ (2, second) ∷ []; head = 2 }

abbrev behind : Node MemDb
behind = record { chain = fresh; best_known_height = 0 }

abbrev announced : NewHeadMsg
announced = record { height = 2; hash = []; parent = [] }

fresh-Ready : Ready toy_crypto genesis fresh
unfolding new_chain genesis_if_empty load_stored create_genesis genesis_block
    initialize_genesis_state get_tip_height put_block new_mempool find_by_hash block_hash
    header_hash preimage le_bytes parse_uint parse_digits commit set_balance
fresh-Ready = record {
  at_head = refl;
  parent = genesis;
  found = refl;
  parent_height = refl;
  above_free = λ k above. ground arith;
  no_branches = refl;
  no_orphans = refl;
  idle = refl;
}

two_blocks :
    Segment toy_crypto fresh.blocks genesis (view mem_badger fresh.db) (first ∷ (second ∷ []))
unfolding new_coinbase_tx new_chain genesis_if_empty load_stored create_genesis genesis_block
    initialize_genesis_state get_tip_height put_block new_mempool find_by_hash block_hash
    header_hash preimage le_bytes parse_uint parse_digits apply apply_all verify is_coinbase
    get_nonce of_le set_balance get_balance of_be be_bytes total_cost ◌+ℤ◌ gas_cost ◌*ℤ◌ to_int64
    base64 base64_digit decimal decimal_ℤ of_be_from push_be push_decimal ◌-ℤ◌ commit calculate_hash
    hashed_json verify_signature
two_blocks = (
  record {
    linked = refl;
    height = refl;
    fits = omega arith;
    plain = refl;
    fresh = refl;
    runs = refl;
  },
  (λ e. ground arith, tt),
  (
    record {
      linked = refl;
      height = refl;
      fits = omega arith;
      plain = refl;
      fresh = refl;
      runs = refl;
    },
    tt,
    tt,
  ),
)

catch_up_example :
    (handle_block_resp env alone
      (first ∷ (second ∷ []))
      (handle_new_head announced behind).1.chain).head
    ≡ 2
unfolding new_chain genesis_if_empty load_stored create_genesis genesis_block
    initialize_genesis_state get_tip_height put_block new_mempool parse_uint parse_digits commit
    set_balance block_by_height
catch_up_example =
    (catch_up env alone mem_badger-Reliable peer announced behind genesis 514 (omega arith)
      (omega arith) (omega arith) (omega arith) refl fresh-Ready two_blocks).1
