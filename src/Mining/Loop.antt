-- ===== src/Mining/Loop.antt =====
-- The work loop of the miner as a state machine: starting a round on the head, trying nonces, and
-- waiting for the head to reach the block that was found.
pub mod Waiting
pub mod Mined
use poai.Prelude.{
  ℕ, ◌+◌, ◌%◌, ◌^◌, Option, none, some, Bool, true, false, ◌||◌, List, [], ◌∷◌, ◌++◌, Bytes, ltb,
  leb, if◌then◌else◌, nat_eq, bytes_eq,
}
use poai.Prelude.Int.{ℤ, leb_ℤ}
use poai.Header.{Header}
use poai.Block.{Block}
use poai.Inference.{Infer}
use poai.Chain.{Env, Chain, current_height, header_by_height}
use poai.Mining.{current_target, try_nonce, build_block}

pub data Phase : Type 0 where
  starting : Phase
  -- the parent, the target and the next nonce of a round
  trying : Header → ℤ → ℕ → Phase
  -- the height of the block that was found
  waiting : ℕ → Phase

-- The miner and what it sees: the chain, whether a notification waits in `headChangeCh`, the clock at
-- the two calls of `time.Now` in `NewBlock`, and the blocks that it has broadcast.
pub record Loop (Db : Type 0) : Type 0 where
  pub phase : Phase
  pub chain : Chain Db
  pub notified : Bool
  pub clock : ℤ × ℤ
  pub sent : List Block

-- The arguments of `WorkLoop`: the target and the address of the command line (`none` if there is none
-- or it does not decode), the model, SHA-256 and the quizzes.
pub record Work : Type 0 where
  pub target : ℤ
  pub address : Option Bytes
  pub infer : Infer
  pub sha256 : Bytes → Bytes
  pub quiz : ℕ → ℕ → List Bytes

-- The height of a round on a parent.
abbrev pub next_height : Header → ℕ
next_height parent = (parent.height + 1) % 2 ^ 64

-- `chain.HeaderByHeight(chain.Height())`
unfoldable pub head_header : {Db : Type 0} → Env Db → Chain Db → Option Header × Chain Db
unfolding current_height header_by_height
head_header env c = header_by_height env (current_height c) c

module _ {Db : Type 0} (env : Env Db) (work : Work) where
  -- A round begins on the header of the head; without one the loop tries again.
  unfoldable pub start_round : Loop Db → Loop Db
  unfolding head_header current_target
  start_round l =
      let (head, c1) = head_header env l.chain in
      elim head [
        | none ↦ record l { chain = c1 }
        | some parent ↦
            let (target, c2) = current_target (header_by_height env) work.target parent c1 in
            record l { phase = trying parent target 0; chain = c2 }
      ]

  -- After a try that failed: the next nonce, or a new round if the head has risen.
  unfoldable pub check_head : Header → ℤ → ℕ → Loop Db → Loop Db
  unfolding head_header
  check_head parent target nonce l =
      let going = trying parent target ((nonce + 1) % 2 ^ 64) in
      if l.notified
      then (let (head, c1) = head_header env l.chain in
          let l' : Loop Db = record l { chain = c1; notified = false } in
          elim head [
            | none ↦ record l' { phase = going }
            | some new_parent ↦ record l' {
              phase = if ltb parent.height new_parent.height then starting else going;
            }
          ])
      else record l { phase = going }

  -- A block that is found is broadcast, and the loop waits.
  unfoldable pub block_found : Header → ℕ → ℤ → Loop Db → Loop Db
  unfolding build_block
  block_found parent nonce loss l =
      let block = build_block env.crypto l.clock parent l.chain.mempool work.address nonce loss in
      record l { phase = waiting block.header.height; sent = l.sent ++ (block ∷ []) }

  -- One try. After inference has failed the channel is not looked at.
  unfoldable pub try_one : Header → ℤ → ℕ → Loop Db → Loop Db
  unfolding check_head block_found
  try_one parent target nonce l =
      elim (try_nonce work.infer work.sha256 work.quiz (next_height parent) nonce) [
        | none ↦ record l { phase = trying parent target ((nonce + 1) % 2 ^ 64) }
        | some loss ↦
            if leb_ℤ loss target
            then block_found parent nonce loss l
            else check_head parent target nonce l
      ]

  -- A notification that comes in while the loop waits.
  unfoldable pub wait_for_head : ℕ → Loop Db → Loop Db
  unfolding head_header
  wait_for_head height l =
      if l.notified
      then (let (head, c1) = head_header env l.chain in
          let l' : Loop Db = record l { chain = c1; notified = false } in
          elim head [
            | none ↦ l'
            | some new_head ↦
                if leb height new_head.height then record l' { phase = starting } else l'
          ])
      else l

  -- What the loop does next.
  unfoldable pub work_step : Loop Db → Loop Db
  unfolding start_round try_one wait_for_head
  work_step l = elim l.phase [
    | starting ↦ start_round l
    | trying parent target nonce ↦ try_one parent target nonce l
    | waiting height ↦ wait_for_head height l
  ]

  -- The loop goes on, or the rest of the node changes the chain, which may notify.
  pub data Step (l : Loop Db) : Loop Db → Type 0 where
    works : Step l (work_step l)
    changes :
        (chain : Chain Db) (told : Bool) (clock : ℤ × ℤ)
        → Step l (record l { chain = chain; notified = told || l.notified; clock = clock })

  pub data Reach (l : Loop Db) : Loop Db → Type 0 where
    here : Reach l l
    next : {m n : Loop Db} → Reach l m → Step m n → Reach l n
