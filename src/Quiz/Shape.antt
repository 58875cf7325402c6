-- ===== src/Quiz/Shape.antt =====
-- The length of a quiz, and quizzes that two heights share.
use poai.Prelude.{
  ℕ, zero, suc, ◌+◌, ◌*◌, ◌%◌, ◌^◌, ◌<◌, ◌≤◌, ◌≡◌, refl, ap, length, arith, nat_eq, bytes_eq,
}
use poai.Prelude.Int.{ℤ, pos, ◌+ℤ◌, int64, to_int64}
use poai.Quiz.{Rand, Bounded, quiz_seed, question_seed, question, questions, procedural_quiz}

module _ {S : Type 0} (rng : Rand S) where
  length-questions :
      (seed : ℤ) (nonce i count : ℕ) → length (questions rng seed nonce i count) ≡ count
  unfolding questions
  length-questions seed nonce i zero = refl
  length-questions seed nonce i (suc count) = ap suc (length-questions seed nonce (suc i) count)

  -- A quiz has three to five questions.
  pub procedural_quiz-length :
      (block_height nonce : ℕ)
      → Bounded rng
      → (3 ≤ length (procedural_quiz rng block_height nonce))
        × (length (procedural_quiz rng block_height nonce) ≤ 5)
  unfolding procedural_quiz
  procedural_quiz-length block_height nonce bounded =
      let seed = quiz_seed block_height nonce in
      let n = 3 + (rng.intn 3 (rng.new_source seed)).0 in
      omega (arith, length-questions seed nonce 0 n, bounded 3 (rng.new_source seed) (omega arith))

  questions_same_residue :
      (seed : ℤ) (n m i count : ℕ)
      → n % 10000 ≡ m % 10000
      → questions rng seed n i count ≡ questions rng seed m i count
  unfolding questions question question_seed
  questions_same_residue seed n m i zero e = refl
  questions_same_residue seed n m i (suc count) e =
      rw (e, questions_same_residue seed n m (suc i) count e) refl

quiz_seed-sum : (h n : ℕ) → h + n < 2 ^ 63 → quiz_seed h n ≡ pos (h + n)
unfolding quiz_seed int64 to_int64 ◌+ℤ◌
quiz_seed-sum h n fits = ground arith

-- A height and a nonce give the same quiz as any height and nonce with the same sum and the same
-- nonce modulo 10000: raising the height by a multiple of 10000 and lowering the nonce by as much
-- changes nothing.
pub procedural_quiz_shared :
    {S : Type 0} (rng : Rand S) (block_height nonce k : ℕ)
    → block_height + nonce + k * 10000 < 2 ^ 63
    → procedural_quiz rng (block_height + k * 10000) nonce
      ≡ procedural_quiz rng block_height (nonce + k * 10000)
unfolding procedural_quiz
procedural_quiz_shared rng block_height nonce k fits =
    let left = quiz_seed-sum (block_height + k * 10000) nonce (omega arith) in
    let right = quiz_seed-sum block_height (nonce + k * 10000) (omega arith) in
    let same : pos (block_height + k * 10000 + nonce) ≡ pos (block_height + (nonce + k * 10000)) =
      ap pos (omega arith) in
    rw (left, right, same)
      (questions_same_residue rng _ nonce (nonce + k * 10000) 0 _ (omega arith))
