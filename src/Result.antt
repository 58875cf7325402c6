-- ===== src/Result.antt =====
-- Go's `error` results. An error is named for the message that the source formats; wrapping by
-- `fmt.Errorf` keeps the inner error, whose message the source keeps too.
use poai.Prelude.{◌≡◌, refl, ◌⊎◌, inl, inr, Bool, true, false, nat_eq, bytes_eq}

pub data Error : Type 0 where
  -- transactions and accounts
  no_signature invalid_signature sender_mismatch signing_failed : Error
  invalid_nonce insufficient_balance already_in_mempool : Error
  -- blocks and the chain
  block_exists parent_not_found side_branch hash_mismatch : Error
  nil_header nil_bits missing_header : Error
  -- the block store
  encode_failed decode_failed key_not_found bad_number : Error
  -- a file was not written
  write_failed : Error
  -- a write transaction of the database did not commit
  commit_failed : Error
  -- the verification of a block
  model_failed empty_prompt inference_failed invalid_loss target_missed : Error
  -- the command line
  bad_usage invalid_private_key invalid_key_format invalid_address invalid_amount : Error
  cannot_access : Error
  -- a run-time panic
  panicked : Error

pub data Result {ℓ} (A : Type ℓ) : Type ℓ where
  ok : A → Result A
  err : Error → Result A

-- A call that changes a state of type `S`. The state comes back after an error too, since what was
-- written stays written.
abbrev pub Action : Type 0 → Type 0 → Type 0
Action S A = S → Result A × S

module _ {S A : Type 0} where
  abbrev pub pure : A → Action S A
  pure a s = (ok a, s)

  abbrev pub gets : (S → A) → Action S A
  gets f s = (ok (f s), s)

  abbrev pub lift : Result A → Action S A
  lift r s = (r, s)

abbrev pub modify : {S : Type 0} → (S → S) → Action S (Unit {0})
modify f s = (ok tt, f s)

abbrev pub guard : {S : Type 0} → Bool → Error → Action S (Unit {0})
guard true e s = (ok tt, s)
guard false e s = (err e, s)

infixl 5 ◌>>=◌ ◌>>◌
abbrev pub ◌>>=◌ : {S A B : Type 0} → Action S A → (A → Action S B) → Action S B
◌>>=◌ m f s = let (r, s') = m s in elim r [ ok a ↦ f a s' | err e ↦ (err e, s') ]

abbrev pub ◌>>◌ : {S A B : Type 0} → Action S A → Action S B → Action S B
m >> k = m >>= λ _. k

-- To split on a result and keep the equation.
pub Result-cases {ℓ} :
    {A : Type ℓ} (r : Result A) → ((a : A) × (r ≡ ok a)) ⊎ ((e : Error) × (r ≡ err e))
Result-cases (ok a) = inl (a, refl)
Result-cases (err e) = inr (e, refl)
