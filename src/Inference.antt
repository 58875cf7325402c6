-- ===== src/Inference.antt =====
-- Inference (poai/inference/llm.go, the build without `llama`): the output that stands in for the
-- model's. Llama is the other build. What uses a model takes its `Infer` as an argument.
pub mod Llama
use poai.Prelude.{Option, none, some, [], ◌∷◌, ◌++◌, Bytes, take, nat_eq, bytes_eq}
use poai.Prelude.Int.{ℤ}
use poai.Encoding.{codes, decimal_ℤ, hex}

-- `Infer` on a prompt and a seed; `none` is an error.
abbrev pub Infer : Type 0
Infer = Bytes → ℤ → Option Bytes

-- The stub's `Infer`, with `crypto/sha256` for the hash.
unfoldable pub stub_infer : (Bytes → Bytes) → Infer
stub_infer sha256 [] seed = none
stub_infer sha256 (b ∷ prompt) seed =
    let h = sha256 ((b ∷ prompt) ++ codes ":" ++ decimal_ℤ seed) in
    some (codes "stub_response_" ++ hex (take 8 h))
