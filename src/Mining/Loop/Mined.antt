-- ===== src/Mining/Loop/Mined.antt =====
-- What the blocks are that the work loop broadcasts.
use poai.Prelude.{◌≤◌, ◌≡◌, ◌⊎◌, some, List, ◌∷◌, nat_eq, bytes_eq, All, length}
use poai.Prelude.Int.{ℤ, pos, ◌≤ℤ◌}
use poai.Header.{Header, header_hash}
use poai.Tx.{Transaction, new_coinbase_tx, with_hash}
use poai.Block.{Block, get_subsidy}
use poai.Mempool.{Mempool}
use poai.Chain.{Env, header_by_height}
use poai.Mining.{current_target, try_nonce, miner_address}
use poai.Mining.Loop.{
  Phase, starting, trying, waiting, Loop, Work, next_height, head_header, Reach, here, next,
}

-- `OnHead` says what a parent and a target have to do with the head when a round begins on them.
module _ {Db : Type 0} (env : Env Db) (work : Work) (OnHead : Header → ℤ → Type 0) where
  -- A block with its work.
  pub record IsMined (b : Block) : Type 0 where
    pub parent : Header
    pub target : ℤ
    pub on_head : OnHead parent target
    pub height : b.header.height ≡ next_height parent
    pub linked : b.header.parent_hash ≡ header_hash env.crypto parent
    pub tried :
        try_nonce work.infer work.sha256 work.quiz (next_height parent) b.header.nonce
        ≡ some b.header.lhat
    pub meets : b.header.lhat ≤ℤ target
    pub coinbase : Transaction
    pub chosen : List Transaction
    pub transactions : b.transactions ≡ coinbase ∷ chosen
    pub paid :
        coinbase
        ≡ with_hash env.crypto
            (new_coinbase_tx (miner_address work.address) (pos (get_subsidy (next_height parent))))
    pub few : length chosen ≤ 100

  abbrev InRound : Phase → Type 0
  InRound starting = Unit
  InRound (trying parent target nonce) = OnHead parent target
  InRound (waiting height) = Unit

  pub record Honest (l : Loop Db) : Type 0 where
    pub round : InRound l.phase
    pub mined : All IsMined l.sent

  -- A round that begins on a state of the loop has a parent and a target of that kind.
  abbrev Begins : Loop Db → Type 0
  Begins l =
      (parent : Header)
      → (head_header env l.chain).0 ≡ some parent
      → OnHead parent
          (current_target (header_by_height env) work.target parent (head_header env l.chain).1).0

module _ {Db : Type 0} (env : Env Db) (work : Work) where
  -- A state that a run goes through.
  abbrev pub Visited : {l m : Loop Db} → Reach env work l m → Loop Db → Type 0
  Visited {l} here k = k ≡ l
  Visited {l} {m} (next r st) k = (k ≡ m) ⊎ Visited r k

  -- A round began in a state of the run: the parent was the header of its chain's head, and the target
  -- is the one that the miner took from it.
  abbrev pub Began : {l m : Loop Db} → Reach env work l m → Header → ℤ → Type 0
  Began r parent target =
      (k : Loop Db) × (Visited r k
        × (k.phase ≡ starting)
        × ((head_header env k.chain).0 ≡ some parent)
        × (target
            ≡ (current_target (header_by_height env) work.target parent
                (head_header env k.chain).1).0))
