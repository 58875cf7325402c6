-- ===== src/Mining/Loop/Waiting.antt =====
-- The wait of the miner for its own block.
use poai.Prelude.{
  ℕ, ◌<◌, ◌≡◌, refl, ap, ◌∙◌, inl, inr, some, false, leb, nat_eq, bytes_eq, arith, Bool-cases,
  Option-cases,
}
use poai.Header.{Header}
use poai.Chain.{Env, Chain}
use poai.Mining.Loop.{
  starting, trying, waiting, Loop, Work, head_header, start_round, try_one, wait_for_head,
  work_step, Step, works, changes, Reach, here, next,
}

module _ {Db : Type 0} (env : Env Db) (work : Work) (height : ℕ) where
  -- The head of a chain is below the height.
  abbrev pub IsLow : Chain Db → Type 0
  IsLow c = (head : Header) → (head_header env c).0 ≡ some head → head.height < height

  -- The head is below the height all along a run.
  abbrev pub StaysLow : {l m : Loop Db} → Reach env work l m → Type 0
  StaysLow {l} here = IsLow l.chain
  StaysLow (next {m} {n} r st) = StaysLow r × IsLow n.chain

  abbrev Waits : Loop Db → Loop Db → Type 0
  Waits l m = (m.phase ≡ waiting height) × (m.sent ≡ l.sent)

  wait_for_head-Waits :
      (l : Loop Db)
      → l.phase ≡ waiting height
      → IsLow l.chain
      → Waits l (wait_for_head env work height l)
  unfolding wait_for_head
  wait_for_head-Waits l waits low = elim (Bool-cases l.notified) [
    | inr quiet ↦ rw (quiet, wait_for_head) (waits, refl)
    | inl told ↦ elim (Option-cases (head_header env l.chain).0) [
      | inl missing ↦ rw (told, missing, wait_for_head) (waits, refl)
      | inr (head, found) ↦
          let lower : leb height head.height ≡ false =
            (let below = low head found in ground arith) in
          rw (told, found, lower, wait_for_head) (waits, refl)
    ]
  ]

  IsLow-now : {l m : Loop Db} (r : Reach env work l m) → StaysLow r → IsLow m.chain
  IsLow-now here low = low
  IsLow-now (next r st) low = low.1

  work_step_waits :
      (l : Loop Db)
      → l.phase ≡ waiting height
      → work_step env work l ≡ wait_for_head env work height l
  unfolding work_step
  work_step_waits l waits =
      ap
        (λ p. elim p as (λ x. Loop Db) [
          | starting ↦ start_round env work l
          | trying parent target nonce ↦ try_one env work parent target nonce l
          | waiting h ↦ wait_for_head env work h l
        ])
        waits

  Step-Waits :
      (k : Loop Db) {l m : Loop Db} → Step env work l m → IsLow l.chain → Waits k l → Waits k m
  Step-Waits k {l} works low (waits, same) =
      let (still, kept) = wait_for_head-Waits l waits low in
      let step = work_step_waits l waits in
      (ap (λ (n : Loop Db). n.phase) step ∙ still, ap (λ (n : Loop Db). n.sent) step ∙ kept ∙ same)
  Step-Waits k (changes chain told clock) low (waits, same) = (waits, same)

  -- A miner that waits for its block goes on waiting, and broadcasts nothing more, for as long as the
  -- head of the chain stays below that block's height, however often it is notified. If the block is
  -- refused, the miner does not mine again until others have made the chain that high.
  pub waits_while_low :
      {l m : Loop Db} (r : Reach env work l m)
      → l.phase ≡ waiting height
      → StaysLow r
      → (m.phase ≡ waiting height) × (m.sent ≡ l.sent)
  waits_while_low {l} here waits low = (waits, refl)
  waits_while_low {l} (next r st) waits low =
      Step-Waits l st (IsLow-now r low.0) (waits_while_low r waits low.0)
