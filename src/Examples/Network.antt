-- ===== src/Examples/Network.antt =====
-- Examples on the messages between nodes.
use poai.Prelude.{◌≤◌, ◌≡◌, refl, none, some, [], ◌∷◌, arith, length, nat_eq, bytes_eq}
use poai.Prelude.Int.{negsuc}
use poai.Badger.{MemDb, empty_db}
use poai.Chain.{Chain}
use poai.Chain.Load.{empty_chain}
use poai.Net.{BlockRequest, clamp_request, handle_block_req}
use poai.Net.Serve.{blocks_from, span_of, handle_block_req_serves, handle_block_req_forever}
use poai.Examples.Blocks.{block_at}
use poai.Examples.Chains.{env}

-- A chain with blocks at heights 0, 1 and 2.
abbrev short : Chain MemDb
short = record (empty_chain env (negsuc 0) empty_db) {
  blocks = (0, block_at 0) ∷ (1, block_at 1) ∷ (2, block_at 2) ∷ [];
  head = 2;
}

abbrev wide : BlockRequest
wide = record { from_height = 1; to_height = 1000 }

handle_block_req_serves_example :
    (handle_block_req 514 wide short ≡ some (blocks_from short 1 (span_of short wide)))
    × (length (blocks_from short 1 (span_of short wide)) ≤ 513)
unfolding clamp_request
handle_block_req_serves_example =
    handle_block_req_serves short wide 514 (omega arith) (omega arith) (omega arith) (omega arith)

abbrev endless : BlockRequest
endless = record { from_height = 18446744073709551615; to_height = 18446744073709551615 }

handle_block_req_forever_example : handle_block_req 1000 endless short ≡ none
handle_block_req_forever_example =
    handle_block_req_forever short endless 1000 refl (omega arith) (omega arith)
