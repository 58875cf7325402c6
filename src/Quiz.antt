-- ===== src/Quiz.antt =====
-- The quiz that a height and a nonce generate (poai/dataset/generator.go).
pub mod Shape
use poai.Prelude.{
  ℕ, zero, suc, ◌+◌, ◌*◌, ◌%◌, ◌<◌, List, [], ◌∷◌, ◌++◌, Bytes, ◌==◌, nat_eq, if◌then◌else◌,
  bytes_eq,
}
use poai.Prelude.Int.{ℤ, pos, ◌+ℤ◌, int64}
use poai.Encoding.{codes, decimal}

-- `math/rand`: the source of a seed, and `Intn` on its state.
pub record Rand (S : Type 0) : Type 0 where
  pub new_source : ℤ → S
  pub intn : ℕ → S → ℕ × S

-- `Intn(n)` is documented to lie below a positive `n`.
abbrev pub Bounded : {S : Type 0} → Rand S → Type 0
Bounded {S} rng = (n : ℕ) (s : S) → 0 < n → (rng.intn n s).0 < n

-- `int64(blockHeight) + int64(nonce)`
unfoldable pub quiz_seed : ℕ → ℕ → ℤ
quiz_seed block_height nonce = int64 (int64 (pos block_height) +ℤ int64 (pos nonce))

-- `seed + int64(i*1000) + int64(nonce%10000)`
unfoldable pub question_seed : ℤ → ℕ → ℕ → ℤ
question_seed seed nonce i = int64 (seed +ℤ pos (i * 1000) +ℤ pos (nonce % 10000))

unfoldable pub addition : ℕ → ℕ → Bytes
addition x y = codes "What is " ++ decimal x ++ codes " + " ++ decimal y ++ codes "?"

-- The multiplication sign is two bytes of UTF-8.
unfoldable pub multiplication : ℕ → ℕ → Bytes
multiplication x y =
    codes "What is "
    ++ decimal x
    ++ codes " "
    ++ (195 ∷ 151 ∷ [])
    ++ codes " "
    ++ decimal y
    ++ codes "?"

unfoldable pub pattern_completion : ℕ → ℕ → Bytes
pattern_completion start step =
    codes "Complete the pattern: "
    ++ decimal start
    ++ codes ", "
    ++ decimal (start + step)
    ++ codes ", "
    ++ decimal (start + 2 * step)
    ++ codes ", ?"

-- `items[idx]`, whose index is below five.
abbrev pub item : ℕ → Bytes
item zero = codes "apple"
item (suc zero) = codes "banana"
item (suc (suc zero)) = codes "cherry"
item (suc (suc (suc zero))) = codes "date"
item (suc (suc (suc (suc idx)))) = codes "elderberry"

unfoldable pub logic_puzzle : ℕ → Bytes
logic_puzzle idx = codes "What fruit comes after " ++ item idx ++ codes " in alphabetical order?"

module _ {S : Type 0} (rng : Rand S) where
  -- Two numbers, drawn one after the other.
  abbrev draw_two : ℕ → ℕ → S → ℕ × ℕ
  draw_two n m s = let (x, s') = rng.intn n s in (x, (rng.intn m s').0)

  -- The question of a type from 0 to 3; `quizzes[i]` stays empty for any other.
  unfoldable pub question_of : ℕ → S → Bytes
  unfolding addition multiplication pattern_completion logic_puzzle
  question_of question_type s =
      let (x, y) = draw_two 1000 1000 s in
      let (x', y') = draw_two 50 50 s in
      let (start, step) = draw_two 10 5 s in
      if question_type == 0
      then addition (1 + x) (1 + y)
      else (if question_type == 1
          then multiplication (1 + x') (1 + y')
          else (if question_type == 2
              then pattern_completion (1 + start) (1 + step)
              else (if question_type == 3 then logic_puzzle (rng.intn 5 s).0 else [])))

  unfoldable pub question : ℤ → ℕ → ℕ → Bytes
  unfolding question_seed question_of
  question seed nonce i =
      let (question_type, s) = rng.intn 4 (rng.new_source (question_seed seed nonce i)) in
      question_of question_type s

  -- The questions from number `i` on.
  unfoldable pub questions : ℤ → ℕ → ℕ → ℕ → List Bytes
  unfolding question
  questions seed nonce i zero = []
  questions seed nonce i (suc count) = question seed nonce i ∷ questions seed nonce (suc i) count

  unfoldable pub procedural_quiz : ℕ → ℕ → List Bytes
  unfolding quiz_seed questions
  procedural_quiz block_height nonce =
      let seed = quiz_seed block_height nonce in
      questions seed nonce 0 (3 + (rng.intn 3 (rng.new_source seed)).0)
