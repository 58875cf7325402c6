-- ===== src/Chain/Mirror.antt =====
-- After loading, the blocks in memory are those of the store.
use poai.Prelude.{
  ℕ, zero, suc, ◌+◌, ◌-◌, ◌%◌, ◌^◌, ◌<◌, leb, true, false, ◌≡◌, refl, ap, ◌∙◌, inl, inr, Option,
  none, some, [], ◌==◌, nat_eq, bytes_eq, if◌then◌else◌, ltb, arith,
}
use poai.Prelude.Assoc.{lookup, lookup-insert}
use poai.Result.{Result, Result-cases, ok, err}
use poai.Block.{Block}
use poai.Store.{get_block, get_tip_height}
use poai.Chain.{Env, Chain}
use poai.Chain.Load.{load_height, load_loop, load_below, reindex_from_db}

-- A block that the store can read.
abbrev pub read_of : Result Block → Option Block
read_of (ok b) = some b
read_of (err e) = none

-- A newer reading before an older one.
abbrev or_else : Option Block → Option Block → Option Block
or_else none o = o
or_else (some b) o = some b

module _ {Db : Type 0} (env : Env Db) where
  load_height-db : (h : ℕ) (c : Chain Db) → (load_height env h c).db ≡ c.db
  unfolding load_height
  load_height-db h c = ground arith

  pub load_below-db : (n : ℕ) (c : Chain Db) → (load_below env n c).db ≡ c.db
  unfolding load_below
  load_below-db zero c = refl
  load_below-db (suc n) c = load_height-db n (load_below env n c) ∙ load_below-db n c

  load_height-lookup :
      (h k : ℕ) (c : Chain Db)
      → lookup k (load_height env h c).blocks ≡ (
          if h == k
          then or_else (read_of (get_block env.store env.codec h c.db)) (lookup k c.blocks)
          else lookup k c.blocks)
  unfolding load_height
  load_height-lookup h k c = elim (Result-cases (get_block env.store env.codec h c.db)) [
    | inl (b, found) ↦ ground (arith, found, lookup-insert k h b c.blocks)
    | inr (e, missing) ↦ ground arith
  ]

  pub load_below-lookup :
      (n k : ℕ) (c : Chain Db)
      → lookup k (load_below env n c).blocks ≡ (
          if ltb k n
          then or_else (read_of (get_block env.store env.codec k c.db)) (lookup k c.blocks)
          else lookup k c.blocks)
  unfolding load_below
  load_below-lookup zero k c = ground arith
  load_below-lookup (suc n) k c =
      let below = load_below env n c in
      load_height-lookup n k below ∙ ground (arith, load_below-db n c, load_below-lookup n k c)

  load_loop-below :
      (k fuel h tip : ℕ) (c : Chain Db)
      → h + k ≡ suc tip
      → suc tip < 2 ^ 64
      → k < fuel
      → load_loop env fuel h tip (load_below env h c) ≡ some (load_below env (suc tip) c)
  unfolding load_loop load_below
  load_loop-below k zero h tip c total fits enough = absurd (omega (arith, enough))
  load_loop-below zero (suc fuel) h tip c total fits enough =
      let past : h ≡ suc tip = omega (arith, total) in
      let over : leb h tip ≡ false = ground arith in
      rw (over, load_loop) (ap (λ j. some (load_below env j c)) past)
  load_loop-below (suc k) (suc fuel) h tip c total fits enough =
      let within : leb h tip ≡ true = ground arith in
      let up : (h + 1) % 2 ^ 64 ≡ suc h = omega (arith, total, fits) in
      rw (within, up, load_loop)
        (load_loop-below k fuel (suc h) tip c (omega (arith, total)) fits (omega (arith, enough)))

  -- The loop ends, with the blocks up to the tip loaded.
  pub load_loop-ends :
      (fuel tip : ℕ) (c : Chain Db)
      → suc tip < 2 ^ 64
      → suc tip < fuel
      → load_loop env fuel 0 tip c ≡ some (load_below env (suc tip) c)
  unfolding load_below
  load_loop-ends fuel tip c fits enough =
      load_loop-below (suc tip) fuel 0 tip c (omega arith) fits enough

  -- At the last tip there is it goes on for ever.
  pub load_loop_forever :
      (fuel h : ℕ) (c : Chain Db) → h < 2 ^ 64 → load_loop env fuel h (2 ^ 64 - 1) c ≡ none
  unfolding load_loop
  load_loop_forever zero h c fits = refl
  load_loop_forever (suc fuel) h c fits =
      let within : leb h (2 ^ 64 - 1) ≡ true = ground arith in
      rw (within, load_loop)
        (load_loop_forever fuel ((h + 1) % 2 ^ 64) (load_height env h c) (omega arith))

  pub reindex_shape :
      (c : Chain Db) (tip : ℕ)
      → get_tip_height env.store c.db ≡ ok tip
      → reindex_from_db env c
        ≡ (ok tt, load_below env (suc tip) (record c { blocks = []; block_hash_index = [] }))
  unfolding reindex_from_db
  reindex_shape c tip e = rw (e, reindex_from_db) refl

  -- After a reindex of a store that has a tip, the blocks in memory are the readable blocks of the store
  -- up to the tip, and no others; the store is not touched.
  pub reindex_from_db_mirror :
      (c : Chain Db) (tip : ℕ)
      → get_tip_height env.store c.db ≡ ok tip
      → let (r, c') = reindex_from_db env c in
        (r ≡ ok tt)
        × (c'.db ≡ c.db)
        × ((k : ℕ)
            → lookup k c'.blocks
              ≡ (if ltb k (suc tip) then read_of (get_block env.store env.codec k c.db) else none))
  reindex_from_db_mirror c tip e =
      let cleared : Chain Db = record c { blocks = []; block_hash_index = [] } in
      rw (reindex_shape c tip e) (
        refl,
        load_below-db (suc tip) cleared,
        λ k. load_below-lookup (suc tip) k cleared ∙ or_else_none k,
      )
    where
      or_else_none :
          (k : ℕ)
          → (if ltb k (suc tip)
              then or_else (read_of (get_block env.store env.codec k c.db)) none
              else none)
            ≡ (if ltb k (suc tip) then read_of (get_block env.store env.codec k c.db) else none)
      or_else_none k = ground arith
