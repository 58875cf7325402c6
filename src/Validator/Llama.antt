-- ===== src/Validator/Llama.antt =====
-- The verification of a block with `llama-cli`.
use poai.Prelude.{◌≡◌, sym, ap, ◌∙◌, Option, some, List, Bytes, nat_eq, bytes_eq}
use poai.Result.{ok}
use poai.Crypto.{Crypto}
use poai.Block.{Block}
use poai.Mining.{llm_seed, loss_of}
use poai.Validator.{verification_prompt, verify_block}
use poai.Validator.Verify.{verify_block-ok}
use poai.Inference.Llama.{fallback, llama_infer}
use poai.Quiz.{Rand, procedural_quiz}
use poai.Inference.Llama.Quizzes.{procedural_quiz-NoMarker}
use poai.Inference.Llama.Prompts.{NoMarker, Echoes, llama_infer-verification_prompt}

module _ {S : Type 0} (rng : Rand S) (crypto : Crypto) (sha256 : Bytes → Bytes)
    (run : List Bytes → Option Bytes) (model_path : Bytes) where
  -- Where `llama-cli` prints the prompt and then a text without a line that has the marker, a block is
  -- verified only if its loss is that of the output that stands in for no text. So one loss verifies
  -- for all nonces of a height, and what the model answers does not matter.
  pub verify_block_llama :
      (b : Block) (text : Bytes)
      → NoMarker text
      → Echoes run model_path
          (verification_prompt (procedural_quiz rng b.header.height b.header.nonce))
          (llm_seed b.header.height)
          text
      → verify_block crypto sha256 (procedural_quiz rng) (some (llama_infer run model_path)) b
        ≡ ok tt
      → b.header.lhat ≡ loss_of sha256 (fallback (llm_seed b.header.height))
  verify_block_llama b text plain echoes verified =
      let (_, (output, (inferred, (same, _)))) =
        verify_block-ok crypto sha256 (procedural_quiz rng) (llama_infer run model_path) b
          verified in
      let fixed =
        llama_infer-verification_prompt run model_path
          (procedural_quiz rng b.header.height b.header.nonce) (llm_seed b.header.height) text
          output (procedural_quiz-NoMarker rng b.header.height b.header.nonce) plain echoes
          inferred in
      sym same ∙ ap (loss_of sha256) fixed
