-- ===== src/Examples/Loops.antt =====
-- Examples on the work loop of the miner.
use poai.Prelude.{◌≡◌, refl, some, false, true, [], arith, nat_eq, bytes_eq}
use poai.Prelude.Int.{pos, to_int64, int64}
use poai.Badger.{MemDb}
use poai.Encoding.{of_le}
use poai.Chain.Load.{new_chain, genesis_if_empty, load_stored, create_genesis, genesis_block}
use poai.Chain.{Chain, current_height, header_by_height, with_target}
use poai.Store.{get_tip_height}
use poai.Mining.{current_target, try_nonce, mining_prompt, quiz_lines, loss_of, build_block}
use poai.Mining.Loop.{
  Loop, Work, starting, waiting, head_header, start_round, block_found, try_one, wait_for_head,
  work_step, works, changes, Reach, here, next,
}
use poai.Mining.Loop.Waiting.{IsLow, waits_while_low}
use poai.Examples.{alice}
use poai.Examples.Chains.{env, fresh, genesis}
use poai.Examples.Work.{toy_quiz, toy_infer, toy_sha256}

-- A miner whose every try has the loss zero.
abbrev work : Work
work = record {
  target = pos 5;
  address = some alice;
  infer = toy_infer;
  sha256 = toy_sha256;
  quiz = toy_quiz;
}

abbrev begun : Loop MemDb
begun = record {
  phase = starting;
  chain = fresh;
  notified = false;
  clock = (pos 0, pos 0);
  sent = [];
}

-- A round begins, and its first nonce is a hit.
abbrev mined : Loop MemDb
mined = work_step env work (work_step env work begun)

mined_height : mined.phase ≡ waiting 1
unfolding work_step start_round try_one block_found head_header current_height header_by_height
    current_target try_nonce mining_prompt quiz_lines loss_of build_block to_int64 int64 of_le
    new_chain genesis_if_empty load_stored create_genesis genesis_block with_target get_tip_height
mined_height = refl

abbrev mining_run : Reach env work begun mined
mining_run = next (next here works) works

-- A miner that waits for height 3, while the head is the genesis block.
abbrev idle : Loop MemDb
idle = record begun { phase = waiting 3 }

abbrev told : Loop MemDb
told = record idle { notified = true }

-- The head as it is found.
abbrev seen : Loop MemDb
seen = work_step env work told

fresh_head : (head_header env fresh).0 ≡ some genesis.header
unfolding head_header current_height header_by_height new_chain genesis_if_empty load_stored
    create_genesis genesis_block with_target get_tip_height
fresh_head = refl

fresh-IsLow : (c : Chain MemDb) → (head_header env c).0 ≡ some genesis.header → IsLow env work 3 c
unfolding genesis_block
fresh-IsLow c found head e = ground arith

seen_head : (head_header env seen.chain).0 ≡ some genesis.header
unfolding work_step wait_for_head head_header current_height header_by_height new_chain
    genesis_if_empty load_stored create_genesis genesis_block with_target get_tip_height
seen_head = refl

-- It is notified, looks at the head, and goes on waiting.
waits_while_low_example : (seen.phase ≡ waiting 3) × (seen.sent ≡ [])
waits_while_low_example =
    waits_while_low env work 3 {l = idle} {m = seen}
      (next (next here (changes fresh true (pos 0, pos 0))) works) refl
      (
        (fresh-IsLow fresh fresh_head, fresh-IsLow fresh fresh_head),
        fresh-IsLow seen.chain seen_head,
      )
