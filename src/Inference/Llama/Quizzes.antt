-- ===== src/Inference/Llama/Quizzes.antt =====
-- No question of a quiz has the marker that `Infer` looks for.
use poai.Prelude.{
  ℕ, zero, suc, ◌+◌, ◌*◌, refl, Bool, true, false, [], ◌∷◌, Bytes, All, ◌==◌, nat_eq, bytes_eq,
  if◌then◌else◌,
}
use poai.Prelude.Int.{ℤ}
use poai.Encoding.{codes}
use poai.Quiz.{
  Rand, addition, multiplication, pattern_completion, item, logic_puzzle, question_of,
  question_seed, question, questions, procedural_quiz,
}
use poai.Inference.Llama.Prompts.{NoMarker}
use poai.Inference.Llama.Calm.{Fine, ◌then◌, literal, decimal-Fine, calm-NoMarker}

item-Fine : (idx : ℕ) → Fine (item idx)
item-Fine zero = literal (codes "apple") refl refl
item-Fine (suc zero) = literal (codes "banana") refl refl
item-Fine (suc (suc zero)) = literal (codes "cherry") refl refl
item-Fine (suc (suc (suc zero))) = literal (codes "date") refl refl
item-Fine (suc (suc (suc (suc idx)))) = literal (codes "elderberry") refl refl

addition-Fine : (x y : ℕ) → Fine (addition x y)
unfolding addition
addition-Fine x y =
    literal (codes "What is ") refl refl
    then decimal-Fine x
    then literal (codes " + ") refl refl
    then decimal-Fine y
    then literal (codes "?") refl refl

multiplication-Fine : (x y : ℕ) → Fine (multiplication x y)
unfolding multiplication
multiplication-Fine x y =
    literal (codes "What is ") refl refl
    then decimal-Fine x
    then literal (codes " ") refl refl
    then literal (195 ∷ 151 ∷ []) refl refl
    then literal (codes " ") refl refl
    then decimal-Fine y
    then literal (codes "?") refl refl

pattern_completion-Fine : (start step : ℕ) → Fine (pattern_completion start step)
unfolding pattern_completion
pattern_completion-Fine start step =
    literal (codes "Complete the pattern: ") refl refl
    then decimal-Fine start
    then literal (codes ", ") refl refl
    then decimal-Fine (start + step)
    then literal (codes ", ") refl refl
    then decimal-Fine (start + 2 * step)
    then literal (codes ", ?") refl refl

logic_puzzle-Fine : (idx : ℕ) → Fine (logic_puzzle idx)
unfolding logic_puzzle
logic_puzzle-Fine idx =
    literal (codes "What fruit comes after ") refl refl
    then item-Fine idx
    then literal (codes " in alphabetical order?") refl refl

either-Fine : (t : Bool) (xs ys : Bytes) → Fine xs → Fine ys → Fine (if t then xs else ys)
either-Fine true xs ys h k = h
either-Fine false xs ys h k = k

module _ {S : Type 0} (rng : Rand S) where
  question_of-Fine : (question_type : ℕ) (s : S) → Fine (question_of rng question_type s)
  unfolding question_of
  question_of-Fine question_type s = either-Fine (question_type == 0) _ _ (addition-Fine _ _) (
      either-Fine (question_type == 1) _ _ (multiplication-Fine _ _) (
        either-Fine (question_type == 2) _ _ (pattern_completion-Fine _ _)
          (either-Fine (question_type == 3) _ _ (logic_puzzle-Fine _) (literal [] refl refl))))

  question-Fine : (seed : ℤ) (nonce i : ℕ) → Fine (question rng seed nonce i)
  unfolding question
  question-Fine seed nonce i =
      let (question_type, s) = rng.intn 4 (rng.new_source (question_seed seed nonce i)) in
      question_of-Fine question_type s

  questions-NoMarker :
      (seed : ℤ) (nonce i count : ℕ) → All NoMarker (questions rng seed nonce i count)
  unfolding questions
  questions-NoMarker seed nonce i zero = tt
  questions-NoMarker seed nonce i (suc count) = (
    calm-NoMarker (question rng seed nonce i) (question-Fine seed nonce i).is_calm,
    questions-NoMarker seed nonce (suc i) count,
  )

  pub procedural_quiz-NoMarker :
      (block_height nonce : ℕ) → All NoMarker (procedural_quiz rng block_height nonce)
  unfolding procedural_quiz
  procedural_quiz-NoMarker block_height nonce = questions-NoMarker _ nonce 0 _
