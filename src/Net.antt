-- ===== src/Net.antt =====
-- Block gossip and synchronisation (poai/net/p2p.go, poai/net/topics.go): the handlers of the messages,
-- each on one message that has been decoded, with what it publishes as a result.
pub mod Serve
pub mod Request
pub mod Next
pub mod CatchUp
use poai.Prelude.{
  ℕ, zero, suc, ◌+◌, ◌-◌, ◌*◌, ◌%◌, ◌^◌, Option, none, some, Bool, true, false, List, [], ◌∷◌,
  Bytes, ◌==◌, nat_eq, bytes_eq, if◌then◌else◌, ltb, leb,
}
use poai.Prelude.Assoc.{Assoc}
use poai.Header.{header_hash}
use poai.Block.{Block, block_hash}
use poai.Crypto.{Crypto}
use poai.Chain.{Env, Chain, current_height, block_by_height}
use poai.Chain.Import.{import_block}

pub record NewHeadMsg : Type 0 where
  pub height : ℕ
  pub hash : Bytes
  pub parent : Bytes

pub record BlockRequest : Type 0 where
  pub from_height : ℕ
  pub to_height : ℕ

-- `P2PNode`, without the libp2p host and its subscriptions.
pub record Node (Db : Type 0) : Type 0 where
  pub chain : Chain Db
  pub best_known_height : ℕ

abbrev pub max_wire_block : ℕ
max_wire_block = 256 * 1024

-- The message of `AnnounceHead`.
unfoldable pub announce_head : Crypto → Block → NewHeadMsg
announce_head crypto b = record {
  height = b.header.height;
  hash = header_hash crypto b.header;
  parent = b.header.parent_hash;
}

-- `h++` on `uint64`.
abbrev pub succ_u64 : ℕ → ℕ
succ_u64 h = (h + 1) % 2 ^ 64

-- A block, if there is one, before others.
abbrev pub with_block : Option Block → List Block → List Block
with_block none bs = bs
with_block (some b) bs = b ∷ bs

-- `handleBlockReq`: a range of more than 512 heights, on `uint64`, ends 512 above its start.
unfoldable pub clamp_request : BlockRequest → BlockRequest
clamp_request req =
    if ltb 512 ((req.to_height + 2 ^ 64 - req.from_height) % 2 ^ 64)
    then record req { to_height = (req.from_height + 512) % 2 ^ 64 }
    else req

-- An orphan that waits for a parent, as `RequestBlockByHash` looks for it.
unfoldable pub waiting_in : Bytes → List Block → Option Block
waiting_in parent_hash [] = none
waiting_in parent_hash (b ∷ bs) =
    if b.header.parent_hash == parent_hash then some b else waiting_in parent_hash bs

unfoldable pub waiting : Bytes → Assoc Bytes (List Block) → Option Block
unfolding waiting_in
waiting parent_hash [] = none
waiting parent_hash ((_, orphans) ∷ pool) = elim (waiting_in parent_hash orphans) [
  | none ↦ waiting parent_hash pool
  | some b ↦ some b
]

module _ {Db : Type 0} where
  -- The loop over `h <= req.To`, on fuel; `none` when the fuel is used up.
  unfoldable pub serve : ℕ → ℕ → ℕ → Chain Db → Option (List Block)
  unfolding block_by_height
  serve zero h to c = none
  serve (suc fuel) h to c =
      let rest = serve fuel (succ_u64 h) to c in
      if leb h to
      then elim rest [ none ↦ none | some bs ↦ some (with_block (block_by_height h c) bs) ]
      else some []

  -- The blocks of the response.
  unfoldable pub handle_block_req : ℕ → BlockRequest → Chain Db → Option (List Block)
  unfolding serve clamp_request
  handle_block_req fuel req c =
      let req' = clamp_request req in serve fuel req'.from_height req'.to_height c

  -- What is published on the request topic, and the new state.
  unfoldable pub handle_new_head : NewHeadMsg → Node Db → Option BlockRequest × Node Db
  unfolding current_height
  handle_new_head msg n =
      if msg.height == 0
      then (none, n)
      else (let n' : Node Db = record n {
        best_known_height =
            if ltb n.best_known_height msg.height then msg.height else n.best_known_height;
      } in
          if leb msg.height (current_height n.chain) then (none, n') else (
            some (record {
              from_height = succ_u64 (current_height n.chain);
              to_height = msg.height;
            }),
            n',
          ))

  -- Whether one of the heights below `n` has a block with a hash: the loop up to the head, which is
  -- below 2 ^ 64 - 1 (at that head the counter of the code wraps).
  unfoldable pub has_hash_below : Crypto → Bytes → ℕ → Chain Db → Bool
  unfolding block_by_height
  has_hash_below crypto h zero c = false
  has_hash_below crypto h (suc n) c =
      let rest = has_hash_below crypto h n c in
      elim (block_by_height n c) [
        | none ↦ rest
        | some b ↦ if block_hash crypto b == h then true else rest
      ]

  -- The request of `RequestBlockByHash`, on a chain that does not change meanwhile.
  unfoldable pub request_block_by_hash : Crypto → Bytes → Chain Db → Option BlockRequest
  unfolding has_hash_below waiting current_height
  request_block_by_hash crypto parent_hash c =
      let best = current_height c in
      let fallback : BlockRequest = record {
        from_height = if ltb 100 best then best - 100 else 0;
        to_height = best;
      } in
      if has_hash_below crypto parent_hash (suc best) c
      then none
      else elim (waiting parent_hash c.orphan_pool) [
        | none ↦ some fallback
        | some orphan ↦
            if ltb 1 orphan.header.height
            then some (record { from_height = 1; to_height = orphan.header.height })
            else some fallback
      ]

  module _ (env : Env Db) where
    -- `handleBlockResp`: every block is imported, in order, whatever the errors.
    unfoldable pub handle_block_resp : (Chain Db → Chain Db) → List Block → Chain Db → Chain Db
    unfolding import_block
    handle_block_resp gap [] c = c
    handle_block_resp gap (b ∷ bs) c = handle_block_resp gap bs (import_block env gap b c).1

    -- One round of `HandleBlockMessages`: a message of the node itself, one that is too long, and one
    -- that does not decode are skipped.
    unfoldable pub handle_block_message :
        (Chain Db → Chain Db) → Bool → ℕ → Option Block → Chain Db → Chain Db
    unfolding import_block
    handle_block_message gap from_self size decoded c =
        if from_self
        then c
        else (if ltb max_wire_block size
            then c
            else elim decoded [ none ↦ c | some b ↦ (import_block env gap b c).1 ])
