-- ===== src/Broadcast/Ticks.antt =====
-- The ticks of `ProcessBlocks`.
use poai.Prelude.{
  ◌≡◌, refl, inl, inr, Bool, true, List, [], ◌∷◌, Bytes, nat_eq, bytes_eq, All, Bool-cases,
}
use poai.Chain.{Env, Chain}
use poai.Broadcast.{
  Disk, Broadcaster, names_of, name_leb, insert_name, sort_names, read_dir, process_file,
  process_files, process_blocks,
}
use poai.Broadcast.Files.{
  Settled, process_file-Settled, process_file-keeps, process_file-names, process_file_again,
}

pub All-map :
    (P Q : Bytes → Type 0) (f : (n : Bytes) → P n → Q n) (ns : List Bytes) → All P ns → All Q ns
All-map P Q f [] h = tt
All-map P Q f (n ∷ ns) h = (f n h.0, All-map P Q f ns h.1)

-- Sorting keeps the names.
module _ (P : Bytes → Type 0) where
  All-insert_name : (n : Bytes) (ns : List Bytes) → P n → All P ns → All P (insert_name n ns)
  All-insert_name n [] h hs = (h, tt)
  All-insert_name n (m ∷ ns) h hs = elim (Bool-cases (name_leb n m)) [
    | inl first ↦ rw (first, insert_name) (h, hs)
    | inr later ↦ rw (later, insert_name) (hs.0, All-insert_name n ns h hs.1)
  ]

  pub All-sort_names : (ns : List Bytes) → All P ns → All P (sort_names ns)
  All-sort_names [] h = tt
  All-sort_names (n ∷ ns) h = All-insert_name n (sort_names ns) h.0 (All-sort_names ns h.1)

  All-of_insert_name : (n : Bytes) (ns : List Bytes) → All P (insert_name n ns) → P n × All P ns
  All-of_insert_name n [] h = h
  All-of_insert_name n (m ∷ ns) h = elim (Bool-cases (name_leb n m)) [
    | inl first ↦ rw (first, insert_name) at h
    | inr later ↦
        let (at_m, rest) : P m × All P (insert_name n ns) = rw (later, insert_name) at h in
        let (at_n, others) = All-of_insert_name n ns rest in (at_n, (at_m, others))
  ]

  pub All-of_sort_names : (ns : List Bytes) → All P (sort_names ns) → All P ns
  All-of_sort_names [] h = tt
  All-of_sort_names (n ∷ ns) h =
      let (at_n, rest) = All-of_insert_name n (sort_names ns) h in (at_n, All-of_sort_names ns rest)

module _ {Db : Type 0} (disk : Disk) (env : Env Db) (gap : Chain Db → Chain Db) where
  pub process_files_again :
      (names : List Bytes) (b : Broadcaster Db)
      → All (λ n. Settled n b) names
      → process_files disk env gap names b ≡ b
  unfolding process_files
  process_files_again [] b h = refl
  process_files_again (n ∷ names) b h =
      rw (process_file_again disk env gap n b h.0) (process_files_again names b h.1)

  process_files-keeps :
      (names : List Bytes) (m : Bytes) (b : Broadcaster Db)
      → Settled m b
      → Settled m (process_files disk env gap names b)
  unfolding process_files
  process_files-keeps [] m b h = h
  process_files-keeps (n ∷ names) m b h =
      process_files-keeps names m (process_file disk env gap n b)
        (process_file-keeps disk env gap n m b h)

  process_files-Settled :
      (names : List Bytes) (b : Broadcaster Db)
      → All (λ n. Settled n (process_files disk env gap names b)) names
  unfolding process_files
  process_files-Settled [] b = tt
  process_files-Settled (n ∷ names) b = (
    process_files-keeps names n (process_file disk env gap n b)
        (process_file-Settled disk env gap n b),
    process_files-Settled names (process_file disk env gap n b),
  )

  process_files-names :
      (P : Bytes → Type 0) (names : List Bytes) (b : Broadcaster Db)
      → All P (names_of b.files)
      → All P (names_of (process_files disk env gap names b).files)
  unfolding process_files
  process_files-names P [] b h = h
  process_files-names P (n ∷ names) b h =
      process_files-names P names (process_file disk env gap n b)
        (process_file-names disk env gap P n b h)

  -- A tick looks at every file of the directory, and a file is looked at in one tick only: until a file
  -- is added, the next tick changes nothing, whatever became of the blocks. A block that was refused,
  -- or that could not be read, is not tried again.
  pub process_blocks_twice :
      (listed : Bool) (b : Broadcaster Db)
      → let b' = process_blocks disk env gap true b in
        All (λ n. Settled n b') (read_dir b.files) × (process_blocks disk env gap listed b' ≡ b')
  unfolding process_blocks read_dir
  process_blocks_twice listed b =
      let names = sort_names (names_of b.files) in
      let b' = process_files disk env gap names b in
      let P : Bytes → Type 0 = λ n. Settled n b' in
      let settled = process_files-Settled names b in
      let left =
        All-sort_names P (names_of b'.files)
          (process_files-names P names b (All-of_sort_names P (names_of b.files) settled)) in
      (
        settled,
        elim (Bool-cases listed) [
          | inl found ↦ rw (found, process_blocks) (process_files_again _ b' left)
          | inr failed ↦ rw (failed, process_blocks) refl
        ],
      )
