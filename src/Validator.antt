-- ===== src/Validator.antt =====
-- The verification of a block (poai/validator/verify.go).
pub mod Verify
pub mod Llama
use poai.Prelude.{
  ℕ, Option, none, some, List, [], ◌∷◌, Bytes, ◌&&◌, if◌then◌else◌, nat_eq, bytes_eq,
}
use poai.Prelude.Int.{ℤ, ltb_ℤ, leb_ℤ, int64}
use poai.Result.{
  Result, ok, err, model_failed, empty_prompt, inference_failed, invalid_loss, target_missed,
  panicked,
}
use poai.Crypto.{Crypto}
use poai.Tx.{Transaction, is_empty, verify}
use poai.Block.{Block}
use poai.Inference.{Infer}
use poai.Mining.{quiz_lines, llm_seed, loss_of}

-- The first error of a signature.
unfoldable pub verify_all : Crypto → List Transaction → Result (Unit {0})
verify_all crypto [] = ok tt
verify_all crypto (tx ∷ txs) = elim (verify crypto tx) [
  | err e ↦ err e
  | ok _ ↦ verify_all crypto txs
]

unfoldable pub verification_prompt : List Bytes → Bytes
unfolding quiz_lines
verification_prompt quizzes = quiz_lines quizzes

module _ (crypto : Crypto) (sha256 : Bytes → Bytes) (quiz : ℕ → ℕ → List Bytes) where
  -- The tests of the loss. `Bits.Int64()` of nil panics.
  abbrev check_loss : Block → ℤ → Result (Unit {0})
  check_loss b loss =
      if leb_ℤ loss b.header.lhat && leb_ℤ b.header.lhat loss
      then elim b.header.bits [
        | none ↦ err panicked
        | some bits ↦ if ltb_ℤ (int64 bits) loss then err target_missed else ok tt
      ]
      else err invalid_loss

  -- From the prompt to the end, with a loaded model.
  unfoldable pub verify_work : Infer → Block → Result (Unit {0})
  unfolding verification_prompt loss_of
  verify_work infer b =
      let prompt = verification_prompt (quiz b.header.height b.header.nonce) in
      if is_empty prompt then err empty_prompt else elim (infer prompt (llm_seed b.header.height)) [
        | none ↦ err inference_failed
        | some output ↦ check_loss b (loss_of sha256 output)
      ]

  -- `VerifyBlock`; `model` is the result of `NewLLM`.
  unfoldable pub verify_block : Option Infer → Block → Result (Unit {0})
  unfolding verify_all verify_work
  verify_block none b = err model_failed
  verify_block (some infer) b = elim (verify_all crypto b.transactions) [
    | err e ↦ err e
    | ok _ ↦ verify_work infer b
  ]
