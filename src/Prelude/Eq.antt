-- ===== src/Prelude/Eq.antt =====
-- Boolean equality as an interface, with its instances for numbers and for byte strings.
use Prim.Native.Nat.{ℕ}
use mathlib.Core.Path.{◌≡◌, refl}
use mathlib.Core.Logic.{◌≢◌, inl, inr}
use mathlib.Core.Bool.{Bool, true, false, ◌&&◌}
use mathlib.Core.List.{List, [], ◌∷◌}
use native.Mathlib.Omega.{arith}
use package.poai.Prelude.Tests.{nat_beq, nat_beq_iff, Bool-cases}

-- A test, and that it holds of equal things and of no others.
pub record HasEq {ℓ} (A : Type ℓ) : Type ℓ where
  pub same : A → A → Bool
  pub same-sound : (a b : A) → same a b ≡ true → a ≡ b
  pub same-refl : (a : A) → same a a ≡ true

pub nat_beq_refl : (n : ℕ) → nat_beq n n ≡ true
nat_beq_refl n = ground arith

instance abbrev pub nat_eq : HasEq ℕ
nat_eq = record {
  same = nat_beq;
  same-sound = λ n m. (nat_beq_iff n m).0;
  same-refl = nat_beq_refl;
}

-- A byte string: its bytes as numbers. Keys, hashes, addresses and encodings are byte strings.
abbrev pub Bytes : Type 0
Bytes = List ℕ

-- `bytes.Equal`
abbrev pub bytes_beq : Bytes → Bytes → Bool
bytes_beq [] [] = true
bytes_beq [] (y ∷ ys) = false
bytes_beq (x ∷ xs) [] = false
bytes_beq (x ∷ xs) (y ∷ ys) = nat_beq x y && bytes_beq xs ys

pub bytes_beq→eq : (xs ys : Bytes) → bytes_beq xs ys ≡ true → xs ≡ ys
bytes_beq→eq [] [] h = refl
bytes_beq→eq [] (y ∷ ys) h = cc
bytes_beq→eq (x ∷ xs) [] h = cc
bytes_beq→eq (x ∷ xs) (y ∷ ys) h = ground (arith, bytes_beq→eq xs ys)

pub bytes_beq_refl : (xs : Bytes) → bytes_beq xs xs ≡ true
bytes_beq_refl [] = refl
bytes_beq_refl (x ∷ xs) = ground (arith, bytes_beq_refl xs)

instance abbrev pub bytes_eq : HasEq Bytes
bytes_eq = record { same = bytes_beq; same-sound = bytes_beq→eq; same-refl = bytes_beq_refl }

infix 50 ◌==◌
abbrev pub ◌==◌ {ℓ} : {A : Type ℓ} ⦃e : HasEq A⦄ → A → A → Bool
◌==◌ ⦃e⦄ a b = e.same a b

module _ {ℓ} {A : Type ℓ} ⦃e : HasEq A⦄ where
  pub ==_refl : (a : A) → (a == a) ≡ true
  ==_refl = e.same-refl

  pub ==→eq : (a b : A) → (a == b) ≡ true → a ≡ b
  ==→eq = e.same-sound

  pub ne→==_false : (a b : A) → a ≢ b → (a == b) ≡ false
  ne→==_false a b h = elim (Bool-cases (a == b)) [ inl t ↦ absurd (h (==→eq a b t)) | inr f ↦ f ]
