-- ===== src/Broadcast/Deliver.antt =====
-- A block that is broadcast reaches the chain.
use poai.Prelude.{
  ℕ, ◌≡◌, refl, ap, ◌∙◌, ◌⊎◌, inl, inr, Option, none, some, Bool, true, false, ◌||◌, List, [], ◌∷◌,
  ◌++◌, Bytes, ◌==◌, nat_eq, bytes_eq, if◌then◌else◌, arith, All, Bool-cases, ==→eq, ==_refl,
}
use poai.Prelude.Int.{ℤ}
use poai.Prelude.Assoc.{Assoc, lookup, insert, lookup-insert_self, lookup-erase_self}
use poai.Result.{Result, ok, err, Result-cases}
use poai.Block.{Block}
use poai.Store.{stored}
use poai.Chain.{Env, Chain}
use poai.Chain.Import.{Outcome, import_block}
use poai.Encoding.{codes, decimal, decimal_ℤ}
use poai.Broadcast.{
  ext, Disk, Broadcaster, is_json, is_processed, names_of, insert_name, sort_names, read_dir,
  remove_file, block_file_name, broadcast_block, process_block, process_file, process_files,
  process_blocks,
}
use poai.Broadcast.Files.{Settled, process_file-Settled, process_file-keeps, process_file_again}
use poai.Broadcast.Ticks.{All-sort_names, process_files_again, All-map}

abbrev listed : Bytes → List Bytes → Bool
listed n [] = false
listed n (m ∷ ns) = (m == n) || listed n ns

listed-insert_name :
    (n m : Bytes) (ns : List Bytes) → listed n (insert_name m ns) ≡ ((m == n) || listed n ns)
listed-insert_name n m [] = refl
listed-insert_name n m (k ∷ ns) = ground (arith, listed-insert_name n m ns)

listed-sort_names :
    (n : Bytes) (ns : List Bytes) → listed n ns ≡ true → listed n (sort_names ns) ≡ true
listed-sort_names n [] h = h
listed-sort_names n (m ∷ ns) h =
    ground (arith, listed-insert_name n m (sort_names ns), listed-sort_names n ns)

-- The name of a file that was written, among the others.
listed-insert :
    (n val : Bytes) (files : Assoc Bytes Bytes) → listed n (names_of (insert n val files)) ≡ true
listed-insert n val [] = ground (arith, ==_refl n)
listed-insert n val ((j, old) ∷ files) = ground (arith, ==_refl n, listed-insert n val files)

All-insert :
    (P : Bytes → Type 0) (n val : Bytes) (files : Assoc Bytes Bytes)
    → P n
    → All P (names_of files)
    → All P (names_of (insert n val files))
All-insert P n val [] h hs = (h, tt)
All-insert P n val ((j, old) ∷ files) h hs = elim (Bool-cases (j == n)) [
  | inl same ↦ rw (same, insert) (h, hs.1)
  | inr other ↦ rw (other, insert) (hs.0, All-insert P n val files h hs.1)
]

module _ {Db : Type 0} (disk : Disk) (env : Env Db) (gap : Chain Db → Chain Db) (name : Bytes) where
  -- The loop has work on one file only.
  process_files_one :
      (names : List Bytes) (b : Broadcaster Db)
      → All (λ n. (n ≡ name) ⊎ Settled n b) names
      → listed name names ≡ true
      → process_files disk env gap names b ≡ process_file disk env gap name b
  unfolding process_files
  process_files_one [] b h found = absurd (ground arith)
  process_files_one (n ∷ names) b h found = elim (Bool-cases (n == name)) [
    | inl same ↦
        let b' = process_file disk env gap name b in
        ap (λ m. process_files disk env gap names (process_file disk env gap m b))
          (==→eq n name same)
        ∙ process_files_again disk env gap names b'
            (All-map (λ m. (m ≡ name) ⊎ Settled m b) (λ m. Settled m b') later names h.1)
    | inr other ↦
        let settled : Settled n b = elim h.0 [
          | inl same ↦ absurd (ground (arith, ==_refl name))
          | inr settled ↦ settled
        ] in
        ap (process_files disk env gap names) (process_file_again disk env gap n b settled)
        ∙ process_files_one names b h.1 (ground arith)
  ]
    where
      later : (m : Bytes) → (m ≡ name) ⊎ Settled m b → Settled m (process_file disk env gap name b)
      later m (inl same) = rw same (process_file-Settled disk env gap name b)
      later m (inr settled) = process_file-keeps disk env gap name m b settled

ext-append : (xs ys : Bytes) → ext ys ≡ codes ".json" → ext (xs ++ ys) ≡ codes ".json"
unfolding ext
ext-append [] ys h = h
ext-append (x ∷ xs) ys h = rw (ext-append xs ys h, ext) refl

ext_json : ext (codes ".json") ≡ codes ".json"
unfolding ext
ext_json = refl

is_json-block_file_name : (h : ℕ) (t : ℤ) → is_json (block_file_name h t) ≡ true
unfolding is_json block_file_name
is_json-block_file_name h t =
    ap (λ e. e == codes ".json")
      (ext-append (codes "block_") (decimal h ++ (codes "_" ++ (decimal_ℤ t ++ codes ".json"))) (
        ext-append (decimal h) (codes "_" ++ (decimal_ℤ t ++ codes ".json")) (
          ext-append (codes "_") (decimal_ℤ t ++ codes ".json")
            (ext-append (decimal_ℤ t) (codes ".json") ext_json))))

-- What is left of a file after the import of its block.
abbrev pub left_of : Disk → Bytes → Bytes → Result Outcome → Option Bytes
left_of disk name val (ok _) = if disk.removable name then none else some val
left_of disk name val (err e) = some val

module _ {Db : Type 0} (disk : Disk) (env : Env Db) (gap : Chain Db → Chain Db) where
  -- The file of a block, once it is there, on a disk that reads it.
  process_file_fresh :
      (name val : Bytes) (block : Block) (b : Broadcaster Db)
      → is_json name ≡ true
      → is_processed name b ≡ false
      → disk.readable name ≡ true
      → lookup name b.files ≡ some val
      → env.codec.decode val ≡ some block
      → ((process_file disk env gap name b).chain ≡ (import_block env gap block b.chain).1)
        × (lookup name (process_file disk env gap name b).files
            ≡ left_of disk name val (import_block env gap block b.chain).0)
  unfolding process_file process_block remove_file
  process_file_fresh name val block b json fresh readable found decoded =
      elim (Result-cases (import_block env gap block b.chain).0) [
        | inr (e, refused) ↦
            rw (json, fresh, readable, found, decoded, refused, process_block) (refl, found)
        | inl (outcome, fine) ↦
            rw (json, fresh, readable, found, decoded, fine, process_block)
              (elim (Bool-cases (disk.removable name)) [
                | inl gone ↦ rw (gone, remove_file) (refl, lookup-erase_self name b.files)
                | inr kept ↦ rw (kept, remove_file) (refl, found)
              ])
      ]

  -- A block that is broadcast at a time for which its file has not been processed, while the directory
  -- holds nothing else to do, is imported by the next tick, with a nil target as zero. Its file is
  -- removed if the import has no error, and stays if it is refused.
  pub broadcast_block_imported :
      (timestamp : ℤ) (block : Block) (val : Bytes) (b : Broadcaster Db)
      → let name = block_file_name block.header.height timestamp in
        env.codec.encode block ≡ some val
        → disk.writable name ≡ true
        → disk.readable name ≡ true
        → is_processed name b ≡ false
        → All (λ n. Settled n b) (names_of b.files)
        → let (r, b') = broadcast_block disk env.codec timestamp block b in
          let b2 = process_blocks disk env gap true b' in
          (r ≡ ok tt)
          × (b2.chain ≡ (import_block env gap (stored block) b.chain).1)
          × (lookup name b2.files
              ≡ left_of disk name val (import_block env gap (stored block) b.chain).0)
  unfolding broadcast_block process_blocks read_dir
  broadcast_block_imported timestamp block val b encoded writable readable fresh settled =
      let name = block_file_name block.header.height timestamp in
      let b1 : Broadcaster Db = record b { files = insert name val b.files } in
      let P : Bytes → Type 0 = λ n. (n ≡ name) ⊎ Settled n b1 in
      let others =
        All-insert P name val b.files (inl refl)
          (All-map (λ n. Settled n b) P (λ n h. inr h) (names_of b.files) settled) in
      let one =
        process_files_one disk env gap name (sort_names (names_of b1.files)) b1
          (All-sort_names P (names_of b1.files) others)
          (listed-sort_names name (names_of b1.files) (listed-insert name val b.files)) in
      let done =
        process_file_fresh name val (stored block) b1
          (is_json-block_file_name block.header.height timestamp) fresh readable
          (lookup-insert_self name val b.files) (env.codec.decode-encode block val encoded) in
      let written : broadcast_block disk env.codec timestamp block b ≡ (ok tt, b1) =
        rw (encoded, broadcast_block, writable) refl in
      (
        ap (λ (p : Result (Unit {0}) × Broadcaster Db). p.0) written,
        ap
              (λ (p : Result (Unit {0}) × Broadcaster Db).
                (process_blocks disk env gap true p.1).chain)
              written
            ∙ ap (λ (d : Broadcaster Db). d.chain) one
            ∙ done.0,
        ap
              (λ (p : Result (Unit {0}) × Broadcaster Db).
                lookup name (process_blocks disk env gap true p.1).files)
              written
            ∙ ap (λ (d : Broadcaster Db). lookup name d.files) one
            ∙ done.1,
      )
