-- ===== src/Encoding/RoundTrip.antt =====
-- Numbers survive the encodings in which the node stores them.
use poai.Prelude.{
  ℕ, zero, suc, ◌+◌, ◌-◌, ◌*◌, ◌/◌, ◌%◌, ◌^◌, ◌<◌, ◌≡◌, refl, sym, inl, inr, some, [], ◌∷◌, Bytes,
  arith, Bool-cases, ◌==◌, nat_eq, length, ◌∙◌, ap, ◌≢◌, bytes_eq,
}
use poai.Encoding.{
  push_decimal, decimal, parse_digits, parse_uint, push_be, be_bytes, of_be_from, of_be, le_bytes,
  of_le,
}
use mathlib.Core.Option.{some-injective}
use native.Mathlib.Nat.{pow-succ'}

-- Reading one printed digit.
parse_digits_digit :
    (v d : ℕ) (rest : Bytes)
    → d < 10
    → parse_digits v ((b'0' + d) ∷ rest) ≡ parse_digits (v * 10 + d) rest
unfolding parse_digits
parse_digits_digit v d rest h = ground (arith, ap (λ k. parse_digits (v * 10 + k) rest) (digit d))
  where
    digit : (d : ℕ) → b'0' + d - b'0' ≡ d
    digit d = omega arith

parse_digits-push_decimal :
    (fuel n : ℕ) (rest : Bytes)
    → n < fuel
    → parse_digits 0 (push_decimal fuel n rest) ≡ parse_digits n rest
unfolding push_decimal
parse_digits-push_decimal zero n rest h = absurd (omega arith)
parse_digits-push_decimal (suc fuel) n rest h = elim (Bool-cases (n / 10 == 0)) [
  | inl last ↦ rw last (
      parse_digits_digit 0 (n % 10) rest (omega arith)
      ∙ ap (λ k. parse_digits k rest) (ground arith))
  | inr more ↦ rw more (
      parse_digits-push_decimal fuel (n / 10) ((b'0' + n % 10) ∷ rest) (ground arith)
      ∙ parse_digits_digit (n / 10) (n % 10) rest (omega arith)
      ∙ ap (λ k. parse_digits k rest) (omega arith))
]

push_decimal-ne-nil : (fuel n : ℕ) (rest : Bytes) → rest ≢ [] → push_decimal fuel n rest ≢ []
unfolding push_decimal
push_decimal-ne-nil zero n rest h = h
push_decimal-ne-nil (suc fuel) n rest h = elim (Bool-cases (n / 10 == 0)) [
  | inl last ↦ rw last (λ e. cc)
  | inr more ↦ rw more (push_decimal-ne-nil fuel (n / 10) ((b'0' + n % 10) ∷ rest) (λ e. cc))
]

parse_uint_lem :
    (bs : Bytes) (n : ℕ)
    → bs ≢ []
    → parse_digits 0 bs ≡ some n
    → n < 2 ^ 64
    → parse_uint bs ≡ some n
unfolding parse_uint
parse_uint_lem [] n h e lt = absurd (h refl)
parse_uint_lem (c ∷ cs) n h e lt = rw (e, parse_uint) (ground arith)

pub decimal-ne-nil : (n : ℕ) → decimal n ≢ []
unfolding decimal push_decimal
decimal-ne-nil n = elim (Bool-cases (n / 10 == 0)) [
  | inl last ↦ rw last (λ e. cc)
  | inr more ↦ rw more (push_decimal-ne-nil n (n / 10) ((b'0' + n % 10) ∷ []) (λ e. cc))
]

pub parse_digits-decimal : (n : ℕ) → parse_digits 0 (decimal n) ≡ some n
unfolding decimal parse_digits
parse_digits-decimal n = parse_digits-push_decimal (suc n) n [] (omega arith)

-- The decimal form of a 64-bit number is read back as that number.
pub parse_uint-decimal : (n : ℕ) → n < 2 ^ 64 → parse_uint (decimal n) ≡ some n
unfolding decimal parse_digits
parse_uint-decimal n h =
    parse_uint_lem (decimal n) n (decimal-ne-nil n)
      (parse_digits-push_decimal (suc n) n [] (omega arith)) h

of_be-push_be :
    (fuel n : ℕ) (rest : Bytes) → n < fuel → of_be_from 0 (push_be fuel n rest) ≡ of_be_from n rest
unfolding push_be of_be_from
of_be-push_be zero n rest h = absurd (omega arith)
of_be-push_be (suc fuel) n rest h = elim (Bool-cases (n == 0)) [
  | inl last ↦ rw last (ap (λ k. of_be_from k rest) (ground arith))
  | inr more ↦ rw more (
      of_be-push_be fuel (n / 256) ((n % 256) ∷ rest) (ground arith)
      ∙ ap (λ k. of_be_from k rest) (omega arith))
]

-- `SetBytes` reads what `Bytes` wrote.
pub of_be-be_bytes : (n : ℕ) → of_be (be_bytes n) ≡ n
unfolding of_be be_bytes of_be_from
of_be-be_bytes n = of_be-push_be (suc n) n [] (omega arith)

-- The first `k` bytes hold a number modulo 256^k.
of_le-le_bytes_pow : (k n : ℕ) → n < 256 ^ k → of_le k (le_bytes k n) ≡ n
unfolding of_le le_bytes
of_le-le_bytes_pow zero n h = omega arith
of_le-le_bytes_pow (suc k) n h =
    omega (arith, pow-succ' 256 k, of_le-le_bytes_pow k (n / 256) (omega (arith, pow-succ' 256 k)))

-- A 64-bit number survives the little-endian form.
pub of_le-le_bytes : (n : ℕ) → n < 2 ^ 64 → of_le 8 (le_bytes 8 n) ≡ n
of_le-le_bytes n h = of_le-le_bytes_pow 8 n (omega arith)

pub length-le_bytes : (k n : ℕ) → length (le_bytes k n) ≡ k
unfolding le_bytes
length-le_bytes zero n = refl
length-le_bytes (suc k) n = ap suc (length-le_bytes k (n / 256))

-- Different numbers have different decimal forms.
pub decimal_inj : (n m : ℕ) → decimal n ≡ decimal m → n ≡ m
unfolding decimal parse_digits
decimal_inj n m e = some-injective n m (
    sym (parse_digits-push_decimal (suc n) n [] (omega arith))
    ∙ ap (parse_digits 0) e
    ∙ parse_digits-push_decimal (suc m) m [] (omega arith))
