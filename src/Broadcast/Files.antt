-- ===== src/Broadcast/Files.antt =====
-- One file of the directory: it is looked at once.
use poai.Prelude.{
  ◌≡◌, refl, ◌⊎◌, inl, inr, Option, none, some, true, false, [], ◌∷◌, Bytes, ◌==◌, nat_eq, bytes_eq,
  if◌then◌else◌, arith, All, Bool-cases, Option-cases, ==_refl,
}
use poai.Prelude.Assoc.{Assoc, lookup, erase, lookup-insert}
use poai.Result.{Result-cases}
use poai.Block.{Block}
use poai.Chain.{Env, Chain}
use poai.Chain.Import.{import_block}
use poai.Broadcast.{
  Disk, Broadcaster, is_json, is_processed, mark, names_of, remove_file, process_block,
  process_file,
}

-- The loop has nothing to do for a name.
abbrev pub Settled : {Db : Type 0} → Bytes → Broadcaster Db → Type 0
Settled name b = (is_json name ≡ false) ⊎ (is_processed name b ≡ true)

names_of-erase :
    (P : Bytes → Type 0) (k : Bytes) (files : Assoc Bytes Bytes)
    → All P (names_of files)
    → All P (names_of (erase k files))
names_of-erase P k [] h = h
names_of-erase P k ((j, val) ∷ files) h = elim (Bool-cases (j == k)) [
  | inl gone ↦ rw (gone, erase) (names_of-erase P k files h.1)
  | inr kept ↦ rw (kept, erase) (h.0, names_of-erase P k files h.1)
]

module _ {Db : Type 0} where
  mark-processed :
      (name m : Bytes) (b : Broadcaster Db)
      → is_processed m (mark name b) ≡ (if name == m then true else is_processed m b)
  unfolding is_processed
  mark-processed name m b = ground (arith, lookup-insert m name true b.processed)

  mark-Settled : (name m : Bytes) (b : Broadcaster Db) → Settled m b → Settled m (mark name b)
  mark-Settled name m b h = ground (arith, mark-processed name m b)

  mark-Settled_self : (name : Bytes) (b : Broadcaster Db) → Settled name (mark name b)
  mark-Settled_self name b = inr (ground (arith, mark-processed name name b, ==_refl name))

  -- What follows the mark reads and writes no mark, and only removes files.
  record Removes (b b' : Broadcaster Db) : Type 1 where
    same_marks : b'.processed ≡ b.processed
    names : (P : Bytes → Type 0) → All P (names_of b.files) → All P (names_of b'.files)

  Removes-refl : (b : Broadcaster Db) → Removes b b
  Removes-refl b = record { same_marks = refl; names = λ P h. h }

  Settled-marks :
      (m : Bytes) (b b' : Broadcaster Db) → b'.processed ≡ b.processed → Settled m b → Settled m b'
  unfolding is_processed
  Settled-marks m b b' same h = ground (arith, same)

  module _ (disk : Disk) where
    remove_file-Removes : (name : Bytes) (b : Broadcaster Db) → Removes b (remove_file disk name b)
    unfolding remove_file
    remove_file-Removes name b = elim (Bool-cases (disk.removable name)) [
      | inl removed ↦
          rw (removed, remove_file)
            (record { same_marks = refl; names = λ P h. names_of-erase P name b.files h })
      | inr kept ↦ rw (kept, remove_file) (record { same_marks = refl; names = λ P h. h })
    ]

    module _ (env : Env Db) (gap : Chain Db → Chain Db) where
      process_block-Removes :
          (name : Bytes) (decoded : Option Block) (b : Broadcaster Db)
          → Removes b (process_block disk env gap name decoded b)
      unfolding process_block
      process_block-Removes name none b = remove_file-Removes name b
      process_block-Removes name (some block) b =
          let done = import_block env gap block b.chain in
          let b' : Broadcaster Db = record b { chain = done.1 } in
          let removes = remove_file-Removes name b' in
          elim (Result-cases done.0) [
            | inl (outcome, fine) ↦
                rw (fine, process_block)
                  (record { same_marks = removes.same_marks; names = λ P h. removes.names P h })
            | inr (e, failed) ↦
                rw (failed, process_block) (record { same_marks = refl; names = λ P h. h })
          ]

      process_file-cases :
          (name : Bytes) (b : Broadcaster Db)
          → (Settled name b × (process_file disk env gap name b ≡ b))
            ⊎ Removes (mark name b) (process_file disk env gap name b)
      unfolding process_file
      process_file-cases name b = elim (Bool-cases (is_json name)) [
        | inr other ↦ inl (inl other, rw (other, process_file) refl)
        | inl json ↦ elim (Bool-cases (is_processed name b)) [
          | inl seen ↦ inl (inr seen, rw (json, process_file, seen) refl)
          | inr fresh ↦ inr (elim (Bool-cases (disk.readable name)) [
            | inr unread ↦ rw (json, process_file, fresh, unread) (Removes-refl (mark name b))
            | inl read ↦ elim (Option-cases (lookup name b.files)) [
              | inl gone ↦ rw (json, process_file, fresh, read, gone) (Removes-refl (mark name b))
              | inr (val, found) ↦
                  rw (json, process_file, fresh, read, found)
                    (process_block-Removes name (env.codec.decode val) (mark name b))
            ]
          ])
        ]
      ]

      -- A name is settled by its round, and stays so.
      pub process_file-Settled :
          (name : Bytes) (b : Broadcaster Db) → Settled name (process_file disk env gap name b)
      process_file-Settled name b = elim (process_file-cases name b) [
        | inl (settled, same) ↦ rw same settled
        | inr removes ↦
            Settled-marks name (mark name b) (process_file disk env gap name b) removes.same_marks
              (mark-Settled_self name b)
      ]

      pub process_file-keeps :
          (name m : Bytes) (b : Broadcaster Db)
          → Settled m b
          → Settled m (process_file disk env gap name b)
      process_file-keeps name m b h = elim (process_file-cases name b) [
        | inl (settled, same) ↦ rw same h
        | inr removes ↦
            Settled-marks m (mark name b) (process_file disk env gap name b) removes.same_marks
              (mark-Settled name m b h)
      ]

      -- No file appears.
      pub process_file-names :
          (P : Bytes → Type 0) (name : Bytes) (b : Broadcaster Db)
          → All P (names_of b.files)
          → All P (names_of (process_file disk env gap name b).files)
      process_file-names P name b h = elim (process_file-cases name b) [
        | inl (settled, same) ↦ rw same h
        | inr removes ↦ removes.names P h
      ]

      pub process_file_again :
          (name : Bytes) (b : Broadcaster Db)
          → Settled name b
          → process_file disk env gap name b ≡ b
      unfolding process_file
      process_file_again name b (inl other) = rw (other, process_file) refl
      process_file_again name b (inr seen) = elim (Bool-cases (is_json name)) [
        | inl json ↦ rw (json, process_file, seen) refl
        | inr other ↦ rw (other, process_file) refl
      ]
