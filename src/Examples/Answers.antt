-- ===== src/Examples/Answers.antt =====
-- Examples on the output of `llama-cli`.
use poai.Prelude.{
  ℕ, zero, suc, ◌+◌, ◌≡◌, refl, Option, some, List, [], ◌∷◌, ◌++◌, Bytes, arith, nat_eq, bytes_eq,
}
use poai.Prelude.Int.{pos, to_int64, int64}
use poai.Encoding.{codes, decimal_ℤ, decimal, push_decimal, of_le}
use poai.Result.{ok}
use poai.Mining.{quiz_lines, mining_prompt, llm_seed, loss_of}
use poai.Validator.{verification_prompt, verify_block, verify_work, verify_all}
use poai.Validator.Llama.{verify_block_llama}
use poai.Quiz.{Rand, procedural_quiz}
use poai.Inference.Llama.{llama_args, llama_infer, fallback, is_marker, collect, response}
use poai.Inference.Llama.Prompts.{llama_infer_prompts}
use poai.Examples.{toy_crypto}
use poai.Examples.Work.{toy_sha256, solved}

-- The program prints its eleventh argument but one, the prompt, and then its text.
abbrev argument : ℕ → List Bytes → Bytes
argument n [] = []
argument zero (a ∷ args) = a
argument (suc n) (a ∷ args) = argument n args

abbrev echo : List Bytes → Option Bytes
echo args = some (argument 12 args ++ codes " 4 \nand 7")

abbrev sums : List Bytes
sums = codes "What is 2 + 2?" ∷ codes "What is 3 + 4?" ∷ []

-- The miner gets the text on one line, and the validator nothing of it.
llama_infer_prompts_example :
    (llama_infer echo [] (mining_prompt sums) (pos 1) ≡ some (codes "4 and 7"))
    × (llama_infer echo [] (verification_prompt sums) (pos 1)
        ≡ some (codes "generated_response_seed_1"))
unfolding llama_args is_marker collect response fallback decimal_ℤ decimal push_decimal
    mining_prompt quiz_lines verification_prompt
llama_infer_prompts_example =
    llama_infer_prompts echo [] sums (pos 1) (codes " 4 \nand 7") (codes " 4 \nand 7")
      (λ e. ground arith) ((refl, tt), ((refl, tt), tt)) (refl, (refl, tt)) refl refl

-- A source that counts draws.
abbrev counting : Rand ℕ
counting = record { new_source = λ seed. 0; intn = λ n s. (0, s + 1) }

solved_settled :
    verify_block toy_crypto toy_sha256
      (procedural_quiz counting)
      (some (llama_infer echo []))
      solved
    ≡ ok tt
unfolding verify_block verify_work verify_all verification_prompt quiz_lines loss_of to_int64 int64
    of_le procedural_quiz llama_infer llama_args is_marker collect response fallback decimal_ℤ
    decimal push_decimal
solved_settled = refl

verify_block_llama_example : solved.header.lhat ≡ loss_of toy_sha256 (fallback (llm_seed 1))
unfolding llama_args is_marker verification_prompt quiz_lines
verify_block_llama_example =
    verify_block_llama counting toy_crypto toy_sha256 echo [] solved (codes " 4 \nand 7")
      (refl, (refl, tt)) refl solved_settled
