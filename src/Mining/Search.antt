-- ===== src/Mining/Search.antt =====
-- The nonce that the miner finds.
use poai.Prelude.{
  ℕ, zero, suc, ◌+◌, ◌%◌, ◌^◌, ◌≤◌, ◌<◌, ◌≡◌, refl, ap, ◌∙◌, ◌⊎◌, inl, inr, none, some, Bool, true,
  false, List, Bytes, if◌then◌else◌, ltb, leb, ◌&&◌, arith, Bool-cases, Option-cases, nat_eq,
  bytes_eq,
}
use poai.Prelude.Int.{ℤ, leb_ℤ, ◌≤ℤ◌}
use poai.Inference.{Infer}
use poai.Mining.{search, try_nonce, meets}

module _ (infer : Infer) (sha256 : Bytes → Bytes) (quiz : ℕ → ℕ → List Bytes) (height : ℕ)
    (target : ℤ) where
  -- Whether a nonce of a range has a loss that meets the target.
  abbrev pub meets_within : ℕ → ℕ → ℕ → Bool
  meets_within lo hi k =
      if leb lo k && ltb k hi
      then meets infer sha256 quiz target (try_nonce infer sha256 quiz height k)
      else false

  meets_within_step :
      (lo hi k : ℕ)
      → meets infer sha256 quiz target (try_nonce infer sha256 quiz height lo) ≡ false
      → meets_within (lo + 1) hi k ≡ false
      → meets_within lo hi k ≡ false
  meets_within_step lo hi k here above = elim (Bool-cases (leb (lo + 1) k)) [
    | inl later ↦ ground (arith, above)
    | inr not_later ↦ elim (Bool-cases (leb lo k)) [
      | inr below ↦ rw below refl
      | inl at_least ↦ let same : k ≡ lo = ground arith in rw same (ground (arith, here))
    ]
  ]

  search_miss :
      (n nonce : ℕ)
      → meets infer sha256 quiz target (try_nonce infer sha256 quiz height nonce) ≡ false
      → search infer sha256 quiz (suc n) height target nonce
        ≡ search infer sha256 quiz n height target ((nonce + 1) % 2 ^ 64)
  unfolding search
  search_miss n nonce miss = elim (Option-cases (try_nonce infer sha256 quiz height nonce)) [
    | inl failed ↦ rw (failed, search) refl
    | inr (loss, tried) ↦
        let high : leb_ℤ loss target ≡ false = ground arith in rw (tried, search, high) refl
  ]

  -- The search over `n` nonces that do not wrap finds the first one whose loss meets the target, with
  -- its loss, or finds none because there is none.
  pub search_first :
      (n nonce : ℕ)
      → nonce + n < 2 ^ 64
      → ((search infer sha256 quiz n height target nonce ≡ none)
          × ((k : ℕ) → meets_within nonce (nonce + n) k ≡ false))
        ⊎ ((found : ℕ) × ((loss : ℤ) × ((search infer sha256 quiz n height target nonce
                  ≡ some (found, loss))
                × ((nonce ≤ found)
                    × ((found < nonce + n)
                        × ((try_nonce infer sha256 quiz height found ≡ some loss)
                            × ((loss ≤ℤ target)
                                × ((k : ℕ) → meets_within nonce found k ≡ false))))))))
  unfolding search
  search_first zero nonce fits = inl (refl, λ k. ground arith)
  search_first (suc n) nonce fits =
      let next : (nonce + 1) % 2 ^ 64 ≡ nonce + 1 = omega arith in
      let later = search_first n (nonce + 1) (omega arith) in
      elim (Bool-cases
        (meets infer sha256 quiz target (try_nonce infer sha256 quiz height nonce))) [
          | inl hit ↦ elim (Option-cases (try_nonce infer sha256 quiz height nonce)) [
            | inl failed ↦ absurd (ground arith)
            | inr (loss, tried) ↦
                let low : leb_ℤ loss target ≡ true = ground arith in
                inr (
                  nonce,
                  (
                    loss,
                    (
                      rw (tried, search, low) refl,
                      (omega arith, (omega arith, (tried, (ground arith, λ k. ground arith)))),
                    ),
                  ),
                )
          ]
          | inr miss ↦
              let skip = ap (search infer sha256 quiz n height target) next in
              let shift : nonce + suc n ≡ nonce + 1 + n = omega arith in
              let skipped : search infer sha256 quiz (suc n) height target nonce
                  ≡ search infer sha256 quiz n height target (nonce + 1) =
                search_miss n nonce miss ∙ skip in
              elim later [
                | inl (nothing, quiet) ↦ inl (
                  skipped ∙ nothing,
                  λ k. rw shift (meets_within_step nonce (nonce + 1 + n) k miss (quiet k)),
                )
                | inr (found, (loss, (result, (lo, (hi, (tried, (low, quiet))))))) ↦ inr (
                  found,
                  (
                    loss,
                    (
                      skipped ∙ result,
                      (
                        omega (arith, lo),
                        (
                          omega (arith, hi),
                          (tried, (low, λ k. meets_within_step nonce found k miss (quiet k))),
                        ),
                      ),
                    ),
                  ),
                )
              ]
        ]
