-- ===== src/Examples/Work.antt =====
-- Examples on mining and verification.
use poai.Prelude.{◌++◌, ℕ, ◌≡◌, refl, some, List, [], ◌∷◌, Bytes, nat_eq, bytes_eq}
use poai.Prelude.Int.{pos, to_int64, int64}
use poai.Encoding.{of_le}
use poai.Result.{ok}
use poai.Block.{Block}
use poai.Inference.{Infer}
use poai.Encoding.{codes}
use poai.Mining.{try_nonce, mining_prompt, quiz_lines, loss_of, llm_seed}
use poai.Validator.{verify_block, verify_work, verify_all, verification_prompt}
use poai.Validator.Verify.{verify_block_mined}
use poai.Examples.{toy_crypto, plain_block}

-- A quiz of one question, and a model that repeats its prompt.
abbrev pub toy_quiz : ℕ → ℕ → List Bytes
toy_quiz height nonce = (nonce ∷ []) ∷ []

abbrev pub toy_infer : Infer
toy_infer prompt seed = some prompt

-- Every output has the loss zero.
abbrev pub toy_sha256 : Bytes → Bytes
toy_sha256 output = 0 ∷ []

abbrev pub solved : Block
solved = plain_block 1 7 (pos 5) []

pub solved_verified : verify_block toy_crypto toy_sha256 toy_quiz (some toy_infer) solved ≡ ok tt
unfolding verify_block verify_work verify_all verification_prompt quiz_lines loss_of to_int64 int64
    of_le
solved_verified = refl

verify_block_mined_example :
    (mining_prompt (toy_quiz 1 7)
      ≡ codes "Please answer these questions:"
        ++ (10 ∷ (verification_prompt (toy_quiz 1 7) ++ codes "Answers:" ++ (10 ∷ []))))
    × ((mined : Bytes) × ((verified : Bytes) × ((toy_infer
                (mining_prompt (toy_quiz 1 7))
                (llm_seed 1)
              ≡ some mined)
            × ((toy_infer (verification_prompt (toy_quiz 1 7)) (llm_seed 1) ≡ some verified)
                × (loss_of toy_sha256 mined ≡ loss_of toy_sha256 verified)))))
unfolding try_nonce loss_of to_int64 of_le
verify_block_mined_example =
    verify_block_mined toy_crypto toy_sha256 toy_quiz toy_infer solved refl solved_verified
