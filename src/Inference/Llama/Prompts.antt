-- ===== src/Inference/Llama/Prompts.antt =====
-- What `llama-cli`, which prints the prompt before its text, gives on the prompts of the miner and of
-- the validator.
use poai.Prelude.{
  ◌≡◌, refl, sym, ap, ◌∙◌, ◌≢◌, inl, inr, Option, some, true, false, List, [], ◌∷◌, ◌++◌, Bytes,
  All, ◌==◌, nat_eq, bytes_eq, arith, Bool-cases,
}
use mathlib.Core.Option.{some-injective}
use poai.Prelude.Int.{ℤ}
use poai.Encoding.{codes}
use poai.Tx.{is_empty}
use poai.Mining.{quiz_lines, mining_prompt}
use poai.Validator.{verification_prompt}
use poai.Inference.Llama.{
  break_line, split_lines, trim_space, is_marker, collect, fallback, response, llama_args,
  llama_infer,
}

append_assoc : (xs ys zs : Bytes) → (xs ++ ys) ++ zs ≡ xs ++ (ys ++ zs)
append_assoc [] ys zs = refl
append_assoc (x ∷ xs) ys zs = ap (λ t. x ∷ t) (append_assoc xs ys zs)

break_line-append :
    (s t : Bytes)
    → break_line (s ++ (10 ∷ t)) ≡ ((break_line s).0, (break_line s).1 ++ split_lines t)
break_line-append [] t = refl
break_line-append (c ∷ s) t =
    let rest = break_line-append s t in
    elim (Bool-cases (c == 10)) [
      | inl feed ↦ rw (feed, rest) refl
      | inr other ↦ rw (other, rest) refl
    ]

split_lines-append : (s t : Bytes) → split_lines (s ++ (10 ∷ t)) ≡ split_lines s ++ split_lines t
split_lines-append s t = ap (λ (p : Bytes × List Bytes). p.0 ∷ p.1) (break_line-append s t)

-- No line has the marker.
abbrev pub NoMarker : Bytes → Type 0
NoMarker text = All (λ l. is_marker (trim_space l) ≡ false) (split_lines text)

collect_skip :
    (xs ys : List Bytes)
    → All (λ l. is_marker (trim_space l) ≡ false) xs
    → collect false (xs ++ ys) ≡ collect false ys
unfolding collect
collect_skip [] ys h = refl
collect_skip (l ∷ xs) ys h = elim (Bool-cases (is_empty (trim_space l))) [
  | inl empty ↦ rw (empty, collect) (collect_skip xs ys h.1)
  | inr full ↦ rw (full, h.0, collect) (collect_skip xs ys h.1)
]

append_nil : (xs : List Bytes) → xs ++ [] ≡ xs
append_nil [] = refl
append_nil (x ∷ xs) = ap (λ t. x ∷ t) (append_nil xs)

collect_none : (text : Bytes) → NoMarker text → collect false (split_lines text) ≡ []
unfolding collect
collect_none text h =
    ap (collect false) (sym (append_nil (split_lines text))) ∙ collect_skip (split_lines text) [] h

-- The lines of quizzes are passed over.
quiz_lines_skip :
    (quizzes : List Bytes) (rest : Bytes)
    → All NoMarker quizzes
    → collect false (split_lines (quiz_lines quizzes ++ rest)) ≡ collect false (split_lines rest)
unfolding quiz_lines
quiz_lines_skip [] rest h = refl
quiz_lines_skip (quiz ∷ quizzes) rest h =
    ap (λ t. collect false (split_lines t)) (append_assoc quiz (10 ∷ quiz_lines quizzes) rest)
    ∙ ap (collect false) (split_lines-append quiz (quiz_lines quizzes ++ rest))
    ∙ collect_skip (split_lines quiz) (split_lines (quiz_lines quizzes ++ rest)) h.0
    ∙ quiz_lines_skip quizzes rest h.1

-- After the miner's prompt every line counts.
collect-mining_prompt :
    (quizzes : List Bytes) (text : Bytes)
    → All NoMarker quizzes
    → collect false (split_lines (mining_prompt quizzes ++ text)) ≡ collect true (split_lines text)
unfolding mining_prompt collect is_marker
collect-mining_prompt quizzes text h =
    let shape : mining_prompt quizzes ++ text
        ≡ codes "Please answer these questions:"
          ++ (10 ∷ (quiz_lines quizzes ++ (codes "Answers:" ++ (10 ∷ text)))) =
      ap (λ t. codes "Please answer these questions:" ++ (10 ∷ t))
        (append_assoc (quiz_lines quizzes ++ codes "Answers:") (10 ∷ []) text
          ∙ append_assoc (quiz_lines quizzes) (codes "Answers:") (10 ∷ text)) in
    ap (λ t. collect false (split_lines t)) shape
    ∙ ap (collect false) (
        split_lines-append (codes "Please answer these questions:")
          (quiz_lines quizzes ++ (codes "Answers:" ++ (10 ∷ text))))
    ∙ quiz_lines_skip quizzes (codes "Answers:" ++ (10 ∷ text)) h
    ∙ ap (collect false) (split_lines-append (codes "Answers:") text)

mining_prompt-full : (quizzes : List Bytes) → is_empty (mining_prompt quizzes) ≡ false
unfolding mining_prompt
mining_prompt-full quizzes = refl

verification_prompt-full :
    (quizzes : List Bytes) → quizzes ≢ [] → is_empty (verification_prompt quizzes) ≡ false
unfolding verification_prompt quiz_lines
verification_prompt-full [] h = absurd (h refl)
verification_prompt-full ([] ∷ quizzes) h = refl
verification_prompt-full ((c ∷ quiz) ∷ quizzes) h = refl

module _ (run : List Bytes → Option Bytes) (model_path : Bytes) where
  -- The program prints the prompt and then its text.
  abbrev pub Echoes : Bytes → ℤ → Bytes → Type 0
  Echoes prompt seed text = run (llama_args model_path prompt seed) ≡ some (prompt ++ text)

  -- On the validator's prompt nothing of a text without a marker counts.
  verification_output :
      (quizzes : List Bytes) (seed : ℤ) (text : Bytes)
      → quizzes ≢ []
      → All NoMarker quizzes
      → NoMarker text
      → Echoes (verification_prompt quizzes) seed text
      → llama_infer run model_path (verification_prompt quizzes) seed ≡ some (fallback seed)
  unfolding llama_infer response verification_prompt
  verification_output quizzes seed text some_quiz plain plain' verified =
      let skipped = quiz_lines_skip quizzes text plain ∙ collect_none text plain' in
      rw (verification_prompt-full quizzes some_quiz, verified)
        (ap (λ lines. some (response seed lines)) skipped)

  -- On the miner's prompt the output is made of the text alone: every line of it that is not blank and
  -- has no marker counts, and the quizzes do not enter. On the validator's prompt for the same quizzes
  -- nothing of a text without a marker counts: the output is the one that stands in for no text, which
  -- depends on the seed alone.
  pub llama_infer_prompts :
      (quizzes : List Bytes) (seed : ℤ) (text text' : Bytes)
      → quizzes ≢ []
      → All NoMarker quizzes
      → NoMarker text'
      → Echoes (mining_prompt quizzes) seed text
      → Echoes (verification_prompt quizzes) seed text'
      → (llama_infer run model_path (mining_prompt quizzes) seed
          ≡ some (response seed (collect true (split_lines text))))
        × (llama_infer run model_path (verification_prompt quizzes) seed ≡ some (fallback seed))
  unfolding llama_infer response verification_prompt
  llama_infer_prompts quizzes seed text text' some_quiz plain plain' mined verified = (
    rw (mining_prompt-full quizzes, mined, collect-mining_prompt quizzes text plain) refl,
    verification_output quizzes seed text' some_quiz plain plain' verified,
  )

  -- An output on the validator's prompt is the one for no text.
  pub llama_infer-verification_prompt :
      (quizzes : List Bytes) (seed : ℤ) (text output : Bytes)
      → All NoMarker quizzes
      → NoMarker text
      → Echoes (verification_prompt quizzes) seed text
      → llama_infer run model_path (verification_prompt quizzes) seed ≡ some output
      → output ≡ fallback seed
  unfolding llama_infer verification_prompt quiz_lines
  llama_infer-verification_prompt [] seed text output plain plain' echoes e = absurd (ground arith)
  llama_infer-verification_prompt (quiz ∷ quizzes) seed text output plain plain' echoes e =
      some-injective _ _ (
        sym e
        ∙ verification_output (quiz ∷ quizzes) seed text (λ empty. ground arith) plain plain'
            echoes)
