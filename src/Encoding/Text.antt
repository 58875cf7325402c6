-- ===== src/Encoding/Text.antt =====
-- What the command line reads: `hex.DecodeString`, and `SetString` of `big.Int` in base 10.
use poai.Prelude.{
  ℕ, suc, ◌+◌, ◌-◌, ◌*◌, ◌/◌, ◌%◌, ◌<◌, ◌≡◌, ◌≢◌, refl, ap, Option, none, some, [], ◌∷◌, Bytes, leb,
  ◌==◌, if◌then◌else◌, ◌&&◌, nat_eq, bytes_eq, arith, All,
}
use poai.Prelude.Int.{ℤ, pos, negsuc, ◌-ℤ◌}
use poai.Encoding.RoundTrip.{parse_digits-decimal, decimal-ne-nil}
use poai.Encoding.{hex_digit, hex, parse_digits, decimal, decimal_ℤ}

infixl 5 ◌>>=◌
abbrev ◌>>=◌ : {A B : Type 0} → Option A → (A → Option B) → Option B
none >>= f = none
some a >>= f = f a

-- The value of a hexadecimal digit, in either case.
unfoldable pub hex_value : ℕ → Option ℕ
hex_value c =
    if leb b'0' c && leb c b'9'
    then some (c - b'0')
    else (if leb b'a' c && leb c b'f'
        then some (c - b'a' + 10)
        else (if leb b'A' c && leb c b'F' then some (c - b'A' + 10) else none))

-- An odd number of digits is an error too.
unfoldable pub unhex : Bytes → Option Bytes
unfolding hex_value
unhex [] = some []
unhex (c ∷ []) = none
unhex (c ∷ d ∷ cs) = do
  high ← hex_value c
  low ← hex_value d
  rest ← unhex cs
  some ((16 * high + low) ∷ rest)

-- At least one digit, and nothing but digits, however many.
unfoldable pub parse_nat : Bytes → Option ℕ
parse_nat [] = none
parse_nat (c ∷ cs) = parse_digits 0 (c ∷ cs)

abbrev negate : Option ℕ → Option ℤ
negate none = none
negate (some n) = some (pos 0 -ℤ pos n)

abbrev signless : Option ℕ → Option ℤ
signless none = none
signless (some n) = some (pos n)

-- A sign may stand before the digits.
unfoldable pub parse_ℤ : Bytes → Option ℤ
unfolding parse_nat
parse_ℤ [] = none
parse_ℤ (c ∷ cs) =
    if c == b'-'
    then negate (parse_nat cs)
    else (if c == b'+' then signless (parse_nat cs) else signless (parse_nat (c ∷ cs)))

hex_value-hex_digit : (d : ℕ) → d < 16 → hex_value (hex_digit d) ≡ some d
unfolding hex_value hex_digit
hex_value-hex_digit d h = ground arith

-- Bytes survive the hexadecimal form.
pub unhex-hex : (bs : Bytes) → All (λ b. b < 256) bs → unhex (hex bs) ≡ some bs
unfolding unhex hex
unhex-hex [] h = refl
unhex-hex (b ∷ bs) h =
    let joined : 16 * (b / 16) + b % 16 ≡ b = omega arith in
    rw
      (
        hex_value-hex_digit (b / 16) (omega (arith, h.0)),
        hex_value-hex_digit (b % 16) (omega arith),
        unhex-hex bs h.1,
      )
      (ap (λ k. some (k ∷ bs)) joined)

parse_nat_lem : (bs : Bytes) (n : ℕ) → bs ≢ [] → parse_digits 0 bs ≡ some n → parse_nat bs ≡ some n
unfolding parse_nat
parse_nat_lem [] n ne e = absurd (ne refl)
parse_nat_lem (c ∷ cs) n ne e = e

parse_nat-decimal : (n : ℕ) → parse_nat (decimal n) ≡ some n
parse_nat-decimal n = parse_nat_lem (decimal n) n (decimal-ne-nil n) (parse_digits-decimal n)

-- What begins with a digit has no sign.
parse_ℤ-parse_nat : (bs : Bytes) (n : ℕ) → parse_nat bs ≡ some n → parse_ℤ bs ≡ some (pos n)
unfolding parse_ℤ parse_nat parse_digits
parse_ℤ-parse_nat [] n e = absurd (cc)
parse_ℤ-parse_nat (c ∷ cs) n e = ground arith

negate_suc : (n : ℕ) → pos 0 -ℤ pos (suc n) ≡ negsuc n
unfolding ◌-ℤ◌
negate_suc n = ground arith

-- The decimal form of an integer, its sign included, is read back as that integer.
pub parse_ℤ-decimal_ℤ : (a : ℤ) → parse_ℤ (decimal_ℤ a) ≡ some a
unfolding parse_ℤ decimal_ℤ
parse_ℤ-decimal_ℤ (pos n) = parse_ℤ-parse_nat (decimal n) n (parse_nat-decimal n)
parse_ℤ-decimal_ℤ (negsuc n) = rw (parse_nat-decimal (suc n)) (ap some (negate_suc n))

pub decimal_ℤ-ne-nil : (a : ℤ) → decimal_ℤ a ≢ []
unfolding decimal_ℤ
decimal_ℤ-ne-nil (pos n) e = decimal-ne-nil n e
decimal_ℤ-ne-nil (negsuc n) e = cc

pub hex-ne-nil : (bs : Bytes) → bs ≢ [] → hex bs ≢ []
unfolding hex
hex-ne-nil [] ne e = ne refl
hex-ne-nil (b ∷ bs) ne e = cc
