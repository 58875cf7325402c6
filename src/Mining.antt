-- ===== src/Mining.antt =====
-- The miner (poai/miner/workloop.go): the prompt, the loss, the target, the search and the block of a
-- round of the work loop.
pub mod Search
pub mod Loop
use poai.Prelude.{
  ℕ, zero, suc, ◌+◌, ◌%◌, ◌^◌, Option, none, some, Bool, ◌&&◌, List, [], ◌∷◌, ◌++◌, Bytes, ◌==◌,
  nat_eq, if◌then◌else◌, ltb, bytes_eq,
}
use poai.Prelude.Int.{ℤ, pos, leb_ℤ, int64, to_int64}
use poai.Encoding.{codes, of_le}
use poai.Crypto.{Crypto}
use poai.Header.{Header, header_hash}
use poai.Tx.{new_coinbase_tx}
use poai.Block.{Block, get_subsidy, new_block}
use poai.Difficulty.{adjust, retarget_interval}
use poai.Mempool.{Mempool, get_transactions_for_block}
use poai.Inference.{Infer}

-- Every quiz with a line feed after it.
unfoldable pub quiz_lines : List Bytes → Bytes
quiz_lines [] = []
quiz_lines (quiz ∷ quizzes) = quiz ++ (10 ∷ quiz_lines quizzes)

unfoldable pub mining_prompt : List Bytes → Bytes
unfolding quiz_lines
mining_prompt quizzes =
    codes "Please answer these questions:"
    ++ (10 ∷ quiz_lines quizzes)
    ++ codes "Answers:"
    ++ (10 ∷ [])

-- `int` of the height's 64 bits.
abbrev pub llm_seed : ℕ → ℤ
llm_seed height = to_int64 (height % 2 ^ 64)

-- The `int64` of the first eight bytes of the hash of an output. (`of_le` reads no more.)
unfoldable pub loss_of : (Bytes → Bytes) → Bytes → ℤ
loss_of sha256 output = to_int64 (of_le 8 (sha256 output))

-- `Bits.Int64()`. `HeaderByHeight` leaves no nil, so the case of `none` does not arise.
abbrev pub bits_int64 : Option ℤ → ℤ
bits_int64 none = pos 0
bits_int64 (some bits) = int64 bits

-- The target of the round: `reader` is `chain.HeaderByHeight`. A failed `Adjust` keeps the target.
abbrev cli_or_parent : ℤ → Header → ℤ
cli_or_parent target parent =
    if leb_ℤ (bits_int64 parent.bits) (pos 0) then target else bits_int64 parent.bits

unfoldable pub current_target : {S : Type 0} → (ℕ → S → Option Header × S) → ℤ → Header → S → ℤ × S
unfolding adjust
current_target reader target parent s =
    if ((parent.height + 1) % 2 ^ 64 % retarget_interval == 0) && ltb 0 parent.height
    then (let ((t, e), s') = adjust reader (some parent) s in
        elim e [ none ↦ (int64 t, s') | some e' ↦ (cli_or_parent target parent, s') ])
    else (cli_or_parent target parent, s)

-- An address that was given and decodes, or the default.
abbrev pub miner_address : Option Bytes → Bytes
miner_address none = codes "miner-address-12345678901234567890123456789012"
miner_address (some addr) = addr

module _ (infer : Infer) (sha256 : Bytes → Bytes) (quiz : ℕ → ℕ → List Bytes) where
  -- One try: the loss, if inference does not fail.
  unfoldable pub try_nonce : ℕ → ℕ → Option ℤ
  unfolding mining_prompt loss_of
  try_nonce height nonce = elim (infer (mining_prompt (quiz height nonce)) (llm_seed height)) [
    | none ↦ none
    | some output ↦ some (loss_of sha256 output)
  ]

  abbrev pub meets : ℤ → Option ℤ → Bool
  meets target none = Bool.false
  meets target (some loss) = leb_ℤ loss target

  -- The loop over the nonces, for `n` of them: the first nonce whose loss meets the target.
  unfoldable pub search : ℕ → ℕ → ℤ → ℕ → Option (ℕ × ℤ)
  unfolding try_nonce
  search zero height target nonce = none
  search (suc n) height target nonce =
      let rest = search n height target ((nonce + 1) % 2 ^ 64) in
      elim (try_nonce height nonce) [
        | none ↦ rest
        | some loss ↦ if leb_ℤ loss target then some (nonce, loss) else rest
      ]

-- The block that is built on `parent` once a nonce is found.
unfoldable pub build_block : Crypto → ℤ × ℤ → Header → Mempool → Option Bytes → ℕ → ℤ → Block
unfolding new_block new_coinbase_tx get_subsidy get_transactions_for_block
build_block crypto now parent mempool address nonce loss =
    let height = (parent.height + 1) % 2 ^ 64 in
    let coinbase = new_coinbase_tx (miner_address address) (pos (get_subsidy height)) in
    let txs = coinbase ∷ get_transactions_for_block 100 mempool in
    new_block crypto now height (header_hash crypto parent) loss
      (elim parent.bits [ none ↦ pos 0 | some bits ↦ bits ]) txs nonce
