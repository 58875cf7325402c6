-- ===== src/Validator/Verify.antt =====
-- What a verified block satisfies, and how its prompt differs from the miner's.
use poai.Prelude.{
  ℕ, ◌≡◌, refl, sym, ◌∙◌, inl, inr, some, true, List, [], ◌∷◌, ◌++◌, Bytes, All, arith, Bool-cases,
  Option-cases, ◌&&◌, nat_eq, bytes_eq,
}
use poai.Prelude.Int.{ℤ, leb_ℤ, int64, ◌≤ℤ◌}
use poai.Encoding.{codes}
use poai.Result.{Result-cases, ok}
use poai.Crypto.{Crypto}
use poai.Tx.{Transaction, verify, is_empty}
use poai.Block.{Block}
use poai.Inference.{Infer}
use poai.Mining.{mining_prompt, llm_seed, loss_of, try_nonce}
use poai.Validator.{verify_all, verification_prompt, check_loss, verify_work, verify_block}

verify_all-All :
    (crypto : Crypto) (txs : List Transaction)
    → verify_all crypto txs ≡ ok tt
    → All (λ tx. verify crypto tx ≡ ok tt) txs
unfolding verify_all
verify_all-All crypto [] e = tt
verify_all-All crypto (tx ∷ txs) e = elim (Result-cases (verify crypto tx)) [
  | inl (_, fine) ↦ (fine, verify_all-All crypto txs (rw (fine, verify_all) at e))
  | inr (e', bad) ↦ absurd (ground arith)
]

leb_ℤ_antisym : (a b : ℤ) → (leb_ℤ a b && leb_ℤ b a) ≡ true → a ≡ b
leb_ℤ_antisym a b e = ground arith

module _ (crypto : Crypto) (sha256 : Bytes → Bytes) (quiz : ℕ → ℕ → List Bytes) (infer : Infer)
    (b : Block) where
  check_loss-ok :
      (loss : ℤ)
      → check_loss crypto sha256 quiz b loss ≡ ok tt
      → (loss ≡ b.header.lhat)
        × ((bits : ℤ) × ((b.header.bits ≡ some bits) × (b.header.lhat ≤ℤ int64 bits)))
  check_loss-ok loss e = elim (Bool-cases (leb_ℤ loss b.header.lhat && leb_ℤ b.header.lhat loss)) [
    | inr differs ↦ absurd (ground arith)
    | inl same ↦ elim (Option-cases b.header.bits) [
      | inl missing ↦ absurd (ground arith)
      | inr (bits, found) ↦ (leb_ℤ_antisym loss b.header.lhat same, (bits, (found, ground arith)))
    ]
  ]

  verify_work-ok :
      verify_work crypto sha256 quiz infer b ≡ ok tt
      → (output : Bytes) × ((infer
              (verification_prompt (quiz b.header.height b.header.nonce))
              (llm_seed b.header.height)
            ≡ some output)
          × ((loss_of sha256 output ≡ b.header.lhat)
              × ((bits : ℤ) × ((b.header.bits ≡ some bits) × (b.header.lhat ≤ℤ int64 bits)))))
  unfolding verify_work
  verify_work-ok e =
      let prompt = verification_prompt (quiz b.header.height b.header.nonce) in
      elim (Bool-cases (is_empty prompt)) [
        | inl empty ↦ absurd (ground arith)
        | inr full ↦ elim (Option-cases (infer prompt (llm_seed b.header.height))) [
          | inl failed ↦ absurd (ground arith)
          | inr (output, inferred) ↦
              let (same, (bits, (found, low))) =
                check_loss-ok (loss_of sha256 output) (ground arith) in
              (output, (inferred, (same, (bits, (found, low)))))
        ]
      ]

  -- A block that is verified has only transactions that verify, and the model's output on the block's
  -- quiz has the loss that the header claims, which is at most the header's target.
  pub verify_block-ok :
      verify_block crypto sha256 quiz (some infer) b ≡ ok tt
      → All (λ tx. verify crypto tx ≡ ok tt) b.transactions
        × ((output : Bytes) × ((infer
                  (verification_prompt (quiz b.header.height b.header.nonce))
                  (llm_seed b.header.height)
                ≡ some output)
              × ((loss_of sha256 output ≡ b.header.lhat)
                  × ((bits : ℤ) × ((b.header.bits ≡ some bits) × (b.header.lhat ≤ℤ int64 bits))))))
  unfolding verify_block verify_work
  verify_block-ok e = elim (Result-cases (verify_all crypto b.transactions)) [
    | inr (e', bad) ↦ absurd (ground arith)
    | inl (_, fine) ↦
        (verify_all-All crypto b.transactions fine, verify_work-ok (rw (fine, verify_block) at e))
  ]

-- The miner's prompt is the validator's between a first and a last line of its own.
pub prompts_framed :
    (quizzes : List Bytes)
    → mining_prompt quizzes
      ≡ codes "Please answer these questions:"
        ++ (10 ∷ (verification_prompt quizzes ++ codes "Answers:" ++ (10 ∷ [])))
unfolding mining_prompt verification_prompt
prompts_framed quizzes = refl

tried_output :
    (infer : Infer) (sha256 : Bytes → Bytes) (quiz : ℕ → ℕ → List Bytes) (height nonce : ℕ)
    (loss : ℤ)
    → try_nonce infer sha256 quiz height nonce ≡ some loss
    → (output : Bytes) × ((infer (mining_prompt (quiz height nonce)) (llm_seed height)
          ≡ some output)
        × (loss_of sha256 output ≡ loss))
unfolding try_nonce
tried_output infer sha256 quiz height nonce loss e =
    elim (Option-cases (infer (mining_prompt (quiz height nonce)) (llm_seed height))) [
      | inl failed ↦ absurd (ground arith)
      | inr (output, inferred) ↦ (output, (inferred, ground arith))
    ]

-- A block whose loss the miner has found by its own prompt is verified only if the model gives, with the
-- same seed, outputs of the same loss on two prompts: the miner's, and what is left of it without its
-- first line "Please answer these questions:" and its last line "Answers:".
pub verify_block_mined :
    (crypto : Crypto) (sha256 : Bytes → Bytes) (quiz : ℕ → ℕ → List Bytes) (infer : Infer)
    (b : Block)
    → try_nonce infer sha256 quiz b.header.height b.header.nonce ≡ some b.header.lhat
    → verify_block crypto sha256 quiz (some infer) b ≡ ok tt
    → let quizzes = quiz b.header.height b.header.nonce in
      (mining_prompt quizzes
        ≡ codes "Please answer these questions:"
          ++ (10 ∷ (verification_prompt quizzes ++ codes "Answers:" ++ (10 ∷ []))))
      × ((mined : Bytes) × ((verified : Bytes) × ((infer
                  (mining_prompt quizzes)
                  (llm_seed b.header.height)
                ≡ some mined)
              × ((infer (verification_prompt quizzes) (llm_seed b.header.height) ≡ some verified)
                  × (loss_of sha256 mined ≡ loss_of sha256 verified)))))
verify_block_mined crypto sha256 quiz infer b tried passed =
    let quizzes = quiz b.header.height b.header.nonce in
    let (mined, (inferred, loss)) =
      tried_output infer sha256 quiz b.header.height b.header.nonce b.header.lhat tried in
    let (_, (verified, (replayed, (replayed_loss, _)))) =
      verify_block-ok crypto sha256 quiz infer b passed in
    (prompts_framed quizzes, (mined, (verified, (inferred, (replayed, loss ∙ sym replayed_loss)))))
