-- ===== src/Store.antt =====
-- The block store (poai/core/badgerstore.go).
pub mod Blocks
pub mod Prune
use poai.Prelude.{
  ℕ, zero, suc, ◌+◌, ◌-◌, ◌%◌, ◌^◌, ◌≡◌, Option, none, some, List, [], ◌∷◌, ◌++◌, Bytes, leb,
  if◌then◌else◌, nat_eq, bytes_eq,
}
use poai.Prelude.Int.{ℤ, pos}
use poai.Encoding.{codes, decimal, parse_uint}
use poai.Result.{Result, ok, err, Action, encode_failed, decode_failed, key_not_found, bad_number}
use poai.Badger.{Badger, Write, put, del}
use poai.Block.{Block}
use poai.State.{commit}

-- `MarshalJSON` writes a nil `Bits` as "0", so a block comes back with its target or with zero.
abbrev pub bits_or_zero : Option ℤ → ℤ
bits_or_zero none = pos 0
bits_or_zero (some bits) = bits

abbrev pub stored : Block → Block
stored b = record b { header = record b.header { bits = some (bits_or_zero b.header.bits) } }

-- `Encode` and `DecodeBlock`: the JSON form of a block by `encoding/json`, which fails on a time that
-- it cannot write.
pub record Codec : Type 0 where
  pub encode : Block → Option Bytes
  pub decode : Bytes → Option Block
  pub decode-encode : (b : Block) (val : Bytes) → encode b ≡ some val → decode val ≡ some (stored b)

abbrev pub block_key : ℕ → Bytes
block_key height = codes "block:" ++ decimal height

abbrev pub tip_key : Bytes
tip_key = codes "chain:tip"

-- The deletions of `for h := 0; h < minKeep; h++`.
unfoldable pub deletions : ℕ → List Write
deletions zero = []
deletions (suc h) = deletions h ++ (del (block_key h) ∷ [])

unfoldable pub min_keep : ℕ → ℕ → ℕ
min_keep keep_n tip = if leb keep_n tip then (tip - keep_n + 1) % 2 ^ 64 else 0

module _ {Db : Type 0} (store : Badger Db) where
  unfoldable pub delete_block : ℕ → Action Db (Unit {0})
  unfolding commit
  delete_block height = commit store (del (block_key height) ∷ [])

  unfoldable pub get_tip_height : Db → Result ℕ
  get_tip_height db = elim (store.get tip_key db) [
    | none ↦ err key_not_found
    | some val ↦ elim (parse_uint val) [ none ↦ err bad_number | some height ↦ ok height ]
  ]

  unfoldable pub prune_blocks : ℕ → ℕ → Action Db (Unit {0})
  unfolding commit deletions min_keep
  prune_blocks keep_n tip = commit store (deletions (min_keep keep_n tip))

  module _ (codec : Codec) where
    -- A block and the tip are written together.
    unfoldable pub put_block : ℕ → Block → Action Db (Unit {0})
    unfolding commit
    put_block height block db = elim (codec.encode block) [
      | none ↦ (err encode_failed, db)
      | some val ↦ commit store (put (block_key height) val ∷ put tip_key (decimal height) ∷ []) db
    ]

    unfoldable pub get_block : ℕ → Db → Result Block
    get_block height db = elim (store.get (block_key height) db) [
      | none ↦ err key_not_found
      | some val ↦ elim (codec.decode val) [ none ↦ err decode_failed | some b ↦ ok b ]
    ]
