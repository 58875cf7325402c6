-- ===== src/State/Access.antt =====
-- Reads after writes: a committed write of a balance or of a nonce shows in its own account only.
use poai.Prelude.{
  ℕ, ◌<◌, ◌^◌, ◌≡◌, refl, ◌≢◌, inl, inr, List, [], ◌∷◌, ◌++◌, Bytes, ◌==◌, bytes_eq, nat_eq, arith,
  ==_refl, ne→==_false, Option-cases,
}
use poai.Prelude.Int.{ℤ, pos, abs}
use poai.Encoding.RoundTrip.{of_be-be_bytes, of_le-le_bytes}
use poai.Result.{ok}
use poai.Badger.{Badger, Write, written}
use poai.State.{balance_key, nonce_key, commit, get_balance, set_balance, get_nonce, set_nonce}

pub prefix_cancel : (p a b : Bytes) → (p ++ a == p ++ b) ≡ (a == b)
prefix_cancel [] a b = refl
prefix_cancel (c ∷ p) a b = ground (arith, prefix_cancel p a b)

module _ {Db : Type 0} (store : Badger Db) where
  pub get-commit :
      (ws : List Write) (k : Bytes) (db db' : Db)
      → commit store ws db ≡ (ok tt, db')
      → store.get k db' ≡ written ws k (store.get k db)
  unfolding commit
  get-commit ws k db db' e = elim (Option-cases (store.update ws db)) [
    | inl failed ↦ absurd (ground arith)
    | inr (db1, done) ↦ store.get-update ws k db db' (ground arith)
  ]

  -- The stored balance is the magnitude of what was set.
  pub get_balance-set_balance_self :
      (addr : Bytes) (amount : ℤ) (db db' : Db)
      → set_balance store addr amount db ≡ (ok tt, db')
      → get_balance store addr db' ≡ pos (abs amount)
  unfolding set_balance get_balance
  get_balance-set_balance_self addr amount db db' e =
      rw (get-commit _ (balance_key addr) db db' e, ==_refl addr, of_be-be_bytes) refl

  pub get_balance-set_balance_ne :
      (a b : Bytes) (amount : ℤ) (db db' : Db)
      → a ≢ b
      → set_balance store a amount db ≡ (ok tt, db')
      → get_balance store b db' ≡ get_balance store b db
  unfolding set_balance get_balance
  get_balance-set_balance_ne a b amount db db' ne e =
      rw (get-commit _ (balance_key b) db db' e, ne→==_false a b ne) refl

  pub get_nonce-set_balance :
      (a b : Bytes) (amount : ℤ) (db db' : Db)
      → set_balance store a amount db ≡ (ok tt, db')
      → get_nonce store b db' ≡ get_nonce store b db
  unfolding set_balance get_nonce
  get_nonce-set_balance a b amount db db' e = rw (get-commit _ (nonce_key b) db db' e) refl

  pub get_nonce-set_nonce_self :
      (addr : Bytes) (nonce : ℕ) (db db' : Db)
      → nonce < 2 ^ 64
      → set_nonce store addr nonce db ≡ (ok tt, db')
      → get_nonce store addr db' ≡ nonce
  unfolding set_nonce get_nonce
  get_nonce-set_nonce_self addr nonce db db' h e =
      rw (get-commit _ (nonce_key addr) db db' e, ==_refl addr) (of_le-le_bytes nonce h)

  pub get_nonce-set_nonce_ne :
      (a b : Bytes) (nonce : ℕ) (db db' : Db)
      → a ≢ b
      → set_nonce store a nonce db ≡ (ok tt, db')
      → get_nonce store b db' ≡ get_nonce store b db
  unfolding set_nonce get_nonce
  get_nonce-set_nonce_ne a b nonce db db' ne e =
      rw (get-commit _ (nonce_key b) db db' e, ne→==_false a b ne) refl

  pub get_balance-set_nonce :
      (a b : Bytes) (nonce : ℕ) (db db' : Db)
      → set_nonce store a nonce db ≡ (ok tt, db')
      → get_balance store b db' ≡ get_balance store b db
  unfolding set_nonce get_balance
  get_balance-set_nonce a b nonce db db' e = rw (get-commit _ (balance_key b) db db' e) refl
