-- ===== src/Encoding.antt =====
-- The encodings of the Go standard library that the node stores and hashes: ASCII text, decimal
-- (`strconv`, `%d`), big-endian (`big.Int.Bytes`) and little-endian (`binary.LittleEndian`, and the
-- shift loops of `poai/core/state.go`) numbers, base64 and hexadecimal.
pub mod RoundTrip
pub mod Text
use Prim.Native.Char.{code}
use Prim.Native.String.{String}
use Prim.Native.String
use poai.Prelude.{
  ℕ, zero, suc, ◌+◌, ◌-◌, ◌*◌, ◌/◌, ◌%◌, ◌^◌, Option, none, some, [], ◌∷◌, Bytes, ltb, leb, ◌==◌,
  if◌then◌else◌, ◌&&◌, nat_eq, bytes_eq,
}
use poai.Prelude.Int.{ℤ, pos, negsuc}

-- The bytes of an ASCII text.
abbrev pub codes : String → Bytes
codes String.[] = []
codes (String.◌∷◌ c s) = code c ∷ codes s

-- The digits of `n` before `acc`, most significant first. `none` of the fuel is left over: it is
-- above the number, and each digit divides the number by ten.
unfoldable pub push_decimal : ℕ → ℕ → Bytes → Bytes
push_decimal zero n acc = acc
push_decimal (suc fuel) n acc =
    let rest = push_decimal fuel (n / 10) ((b'0' + n % 10) ∷ acc) in
    if n / 10 == 0 then (b'0' + n % 10) ∷ acc else rest

-- `strconv.FormatUint(n, 10)`
unfoldable pub decimal : ℕ → Bytes
unfolding push_decimal
decimal n = push_decimal (suc n) n []

-- `big.Int.String`
unfoldable pub decimal_ℤ : ℤ → Bytes
unfolding decimal
decimal_ℤ (pos n) = decimal n
decimal_ℤ (negsuc n) = b'-' ∷ decimal (suc n)

unfoldable pub parse_digits : ℕ → Bytes → Option ℕ
parse_digits acc [] = some acc
parse_digits acc (c ∷ cs) =
    let rest = parse_digits (acc * 10 + (c - b'0')) cs in
    if leb b'0' c && leb c b'9' then rest else none

-- `strconv.ParseUint(s, 10, 64)`: no digit, another character, and a value past 64 bits are errors.
unfoldable pub parse_uint : Bytes → Option ℕ
unfolding parse_digits
parse_uint [] = none
parse_uint (c ∷ cs) = elim (parse_digits 0 (c ∷ cs)) [
  | none ↦ none
  | some n ↦ if ltb n (2 ^ 64) then some n else none
]

-- `big.Int.Bytes`: big-endian with no leading zero, and empty for zero.
unfoldable pub push_be : ℕ → ℕ → Bytes → Bytes
push_be zero n acc = acc
push_be (suc fuel) n acc =
    let rest = push_be fuel (n / 256) ((n % 256) ∷ acc) in if n == 0 then acc else rest

unfoldable pub be_bytes : ℕ → Bytes
unfolding push_be
be_bytes n = push_be (suc n) n []

-- `big.Int.SetBytes`
unfoldable pub of_be_from : ℕ → Bytes → ℕ
of_be_from acc [] = acc
of_be_from acc (b ∷ bs) = of_be_from (acc * 256 + b) bs

unfoldable pub of_be : Bytes → ℕ
unfolding of_be_from
of_be = of_be_from 0

-- The first `k` bytes of `n`, least significant first: `val[i] = byte(n >> (i * 8))`.
unfoldable pub le_bytes : ℕ → ℕ → Bytes
le_bytes zero n = []
le_bytes (suc k) n = (n % 256) ∷ le_bytes k (n / 256)

-- `n |= uint64(b) << (i * 8)` over the first `k` bytes, which do not overlap.
unfoldable pub of_le : ℕ → Bytes → ℕ
of_le zero bs = 0
of_le (suc k) [] = 0
of_le (suc k) (b ∷ bs) = b + 256 * of_le k bs

-- A hexadecimal digit, and `hex.EncodeToString`.
unfoldable pub hex_digit : ℕ → ℕ
hex_digit d = if ltb d 10 then b'0' + d else b'a' + (d - 10)

unfoldable pub hex : Bytes → Bytes
unfolding hex_digit
hex [] = []
hex (b ∷ bs) = hex_digit (b / 16) ∷ hex_digit (b % 16) ∷ hex bs

-- The alphabet of `base64.StdEncoding`, in which `encoding/json` writes a `[]byte`.
unfoldable pub base64_digit : ℕ → ℕ
base64_digit d =
    if ltb d 26
    then b'A' + d
    else (if ltb d 52
        then b'a' + (d - 26)
        else (if ltb d 62 then b'0' + (d - 52) else (if d == 62 then b'+' else b'/')))

unfoldable pub base64 : Bytes → Bytes
unfolding base64_digit
base64 [] = []
base64 (a ∷ []) = base64_digit (a / 4) ∷ base64_digit (a % 4 * 16) ∷ b'=' ∷ b'=' ∷ []
base64 (a ∷ b ∷ []) =
    base64_digit (a / 4)
    ∷ base64_digit (a % 4 * 16 + b / 16)
    ∷ base64_digit (b % 16 * 4)
    ∷ b'='
    ∷ []
base64 (a ∷ b ∷ c ∷ bs) =
    base64_digit (a / 4)
    ∷ base64_digit (a % 4 * 16 + b / 16)
    ∷ base64_digit (b % 16 * 4 + c / 64)
    ∷ base64_digit (c % 64)
    ∷ base64 bs
