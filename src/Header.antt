-- ===== src/Header.antt =====
-- Block headers and their hash (poai/core/header/header.go).
pub mod Preimage
use poai.Prelude.{ℕ, Option, none, some, [], ◌∷◌, ◌++◌, Bytes, nat_eq, bytes_eq}
use poai.Prelude.Int.{ℤ}
use poai.Encoding.{le_bytes}
use poai.Crypto.{Crypto}

-- Times are nanoseconds; `Bits` may be nil.
pub record Header : Type 0 where
  pub height : ℕ
  pub parent_hash : Bytes
  pub lhat : ℤ
  pub bits : Option ℤ
  pub timestamp : ℤ
  pub state_root : Bytes
  pub nonce : ℕ

-- A `[32]byte` that was never set.
abbrev pub zero_hash : Bytes
zero_hash =
    0 ∷ 0 ∷ 0 ∷ 0 ∷ 0 ∷ 0 ∷ 0 ∷ 0 ∷ 0 ∷ 0 ∷ 0 ∷ 0 ∷ 0 ∷ 0 ∷ 0 ∷ 0 ∷ 0 ∷ 0 ∷ 0 ∷ 0 ∷ 0 ∷ 0 ∷ 0 ∷ 0
    ∷ 0 ∷ 0 ∷ 0 ∷ 0 ∷ 0 ∷ 0 ∷ 0 ∷ 0 ∷ []

-- The 48 bytes that are hashed: height, parent hash and nonce.
unfoldable pub preimage : Header → Bytes
preimage h = le_bytes 8 h.height ++ (h.parent_hash ++ le_bytes 8 h.nonce)

unfoldable pub header_hash : Crypto → Header → Bytes
header_hash crypto h = crypto.sha3_256 (preimage h)

-- `Hash` on a pointer, which may be nil.
unfoldable pub hash : Crypto → Option Header → Bytes
unfolding header_hash
hash crypto none = zero_hash
hash crypto (some h) = header_hash crypto h
