-- ===== src/Inference/Llama.antt =====
-- Inference by the external program `llama-cli` (poai/inference/llm_cli.go, the build with `llama`), and
-- what is cut out of its output. Texts are ASCII, of which `strings.TrimSpace` and `strings.ToLower` are
-- written out.
pub mod Prompts
pub mod Calm
pub mod Quizzes
use poai.Prelude.{
  ℕ, Option, none, some, Bool, true, false, ◌&&◌, ◌||◌, List, [], ◌∷◌, ◌++◌, Bytes, map, ◌==◌, ltb,
  leb, nat_eq, bytes_eq, if◌then◌else◌, ◌+◌,
}
use poai.Prelude.Int.{ℤ}
use poai.Encoding.{codes, decimal_ℤ}
use poai.Tx.{is_empty}
use poai.Inference.{Infer}

-- `strings.Split` at line feeds: the first line and the others.
abbrev pub break_line : Bytes → Bytes × List Bytes
break_line [] = ([], [])
break_line (c ∷ cs) =
    let (line, lines) = break_line cs in if c == 10 then ([], line ∷ lines) else (c ∷ line, lines)

abbrev pub split_lines : Bytes → List Bytes
split_lines text = let (line, lines) = break_line text in line ∷ lines

abbrev pub is_space : ℕ → Bool
is_space c = (leb 9 c && leb c 13) || (c == 32)

abbrev pub trim_left : Bytes → Bytes
trim_left [] = []
trim_left (c ∷ cs) = let rest = trim_left cs in if is_space c then rest else c ∷ cs

abbrev pub trim_right : Bytes → Bytes
trim_right [] = []
trim_right (c ∷ cs) =
    let rest = trim_right cs in if is_space c && is_empty rest then [] else c ∷ rest

abbrev pub trim_space : Bytes → Bytes
trim_space text = trim_right (trim_left text)

abbrev pub lower : ℕ → ℕ
lower c = if leb 65 c && leb c 90 then c + 32 else c

abbrev pub has_prefix : Bytes → Bytes → Bool
has_prefix [] text = true
has_prefix (p ∷ ps) [] = false
has_prefix (p ∷ ps) (c ∷ cs) = (p == c) && has_prefix ps cs

abbrev pub contains : Bytes → Bytes → Bool
contains part [] = is_empty part
contains part (c ∷ cs) = has_prefix part (c ∷ cs) || contains part cs

-- `strings.Join` with a blank.
abbrev pub join : List Bytes → Bytes
join [] = []
join (line ∷ []) = line
join (line ∷ next ∷ lines) = line ++ (32 ∷ join (next ∷ lines))

-- Whether a line has the word after which the generated text is looked for.
unfoldable pub is_marker : Bytes → Bool
is_marker line = contains (codes "answers:") (map lower line)

-- The loop over the lines; the first argument is `foundAnswers`.
unfoldable pub collect : Bool → List Bytes → List Bytes
unfolding is_marker
collect found [] = []
collect found (l ∷ lines) =
    let line = trim_space l in
    let skipped = collect found lines in
    let after = collect true lines in
    if is_empty line
    then skipped
    else (if is_marker line then after else (if found then line ∷ skipped else skipped))

unfoldable pub fallback : ℤ → Bytes
fallback seed = codes "generated_response_seed_" ++ decimal_ℤ seed

-- What is made of the lines that were collected.
unfoldable pub response : ℤ → List Bytes → Bytes
unfolding fallback
response seed lines =
    let generated = trim_space (join lines) in
    if is_empty generated then fallback seed else generated

-- The arguments of `llama-cli`.
unfoldable pub llama_args : Bytes → Bytes → ℤ → List Bytes
llama_args model_path prompt seed =
    codes "-m"
    ∷ model_path
    ∷ codes "--temp"
    ∷ codes "0"
    ∷ codes "--seed"
    ∷ decimal_ℤ seed
    ∷ codes "--ctx-size"
    ∷ codes "256"
    ∷ codes "--n-predict"
    ∷ codes "20"
    ∷ codes "--no-conversation"
    ∷ codes "--prompt"
    ∷ prompt
    ∷ codes "--no-warmup"
    ∷ []

-- `Infer`, where `run` is `llama-cli` on its arguments; `none` is a failure or the end of the 30 seconds.
unfoldable pub llama_infer : (List Bytes → Option Bytes) → Bytes → Infer
unfolding llama_args collect response
llama_infer run model_path prompt seed =
    if is_empty prompt then none else elim (run (llama_args model_path prompt seed)) [
      | none ↦ none
      | some output ↦ some (response seed (collect false (split_lines output)))
    ]
