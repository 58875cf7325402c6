-- ===== src/Broadcast.antt =====
-- The local broadcaster (poai/core/broadcast.go): blocks as files of a directory, from which the node
-- imports them.
pub mod Files
pub mod Ticks
pub mod Deliver
use poai.Prelude.{
  ℕ, ◌<◌, Option, none, some, Bool, true, false, not, ◌&&◌, ◌||◌, List, [], ◌∷◌, ◌++◌, Bytes, ltb,
  ◌==◌, nat_eq, bytes_eq, if◌then◌else◌, map,
}
use poai.Prelude.Assoc.{Assoc, lookup, insert, erase}
use poai.Prelude.Int.{ℤ}
use poai.Encoding.{codes, decimal, decimal_ℤ}
use poai.Result.{Result, ok, err, encode_failed, write_failed}
use poai.Block.{Block}
use poai.Store.{Codec}
use poai.Chain.{Env, Chain}
use poai.Chain.Import.{import_block}

-- Which calls of the operating system succeed, by the name of the file. A file that is not written
-- does not appear.
pub record Disk : Type 0 where
  pub writable : Bytes → Bool
  pub readable : Bytes → Bool
  pub removable : Bytes → Bool

-- `LocalBroadcaster`, with the files of its directory.
pub record Broadcaster (Db : Type 0) : Type 0 where
  pub files : Assoc Bytes Bytes
  pub chain : Chain Db
  pub processed : Assoc Bytes Bool

-- `filepath.Ext` of a name without a separator: from the last dot on.
unfoldable pub ext : Bytes → Bytes
ext [] = []
ext (c ∷ cs) =
    let rest = ext cs in elim rest [ [] ↦ if c == b'.' then c ∷ cs else [] | d ∷ ds ↦ d ∷ ds ]

unfoldable pub is_json : Bytes → Bool
unfolding ext
is_json name = ext name == codes ".json"

unfoldable pub block_file_name : ℕ → ℤ → Bytes
block_file_name height timestamp =
    codes "block_" ++ (decimal height ++ (codes "_" ++ (decimal_ℤ timestamp ++ codes ".json")))

-- The order of names, by which `os.ReadDir` sorts them.
abbrev pub name_leb : Bytes → Bytes → Bool
name_leb [] ys = true
name_leb (x ∷ xs) [] = false
name_leb (x ∷ xs) (y ∷ ys) = ltb x y || ((x == y) && name_leb xs ys)

abbrev pub insert_name : Bytes → List Bytes → List Bytes
insert_name x [] = x ∷ []
insert_name x (y ∷ ys) = if name_leb x y then x ∷ y ∷ ys else y ∷ insert_name x ys

abbrev pub sort_names : List Bytes → List Bytes
sort_names [] = []
sort_names (x ∷ xs) = insert_name x (sort_names xs)

abbrev pub names_of : Assoc Bytes Bytes → List Bytes
names_of [] = []
names_of ((name, _) ∷ files) = name ∷ names_of files

-- The names that `os.ReadDir` returns.
unfoldable pub read_dir : Assoc Bytes Bytes → List Bytes
read_dir files = sort_names (names_of files)

module _ {Db : Type 0} where
  unfoldable pub new_local_broadcaster : Assoc Bytes Bytes → Chain Db → Broadcaster Db
  new_local_broadcaster files chain = record { files = files; chain = chain; processed = [] }

  -- `b.processed[name]`
  unfoldable pub is_processed : Bytes → Broadcaster Db → Bool
  is_processed name b = elim (lookup name b.processed) [ none ↦ false | some seen ↦ seen ]

  abbrev pub mark : Bytes → Broadcaster Db → Broadcaster Db
  mark name b = record b { processed = insert name true b.processed }

  module _ (disk : Disk) where
    -- `os.Remove`, whose error is ignored.
    unfoldable pub remove_file : Bytes → Broadcaster Db → Broadcaster Db
    remove_file name b = if disk.removable name then record b { files = erase name b.files } else b

    unfoldable pub broadcast_block :
        Codec → ℤ → Block → Broadcaster Db → Result (Unit {0}) × Broadcaster Db
    unfolding block_file_name
    broadcast_block codec timestamp block b =
        let name = block_file_name block.header.height timestamp in
        elim (codec.encode block) [
          | none ↦ (err encode_failed, b)
          | some val ↦
              if disk.writable name
              then (ok tt, record b { files = insert name val b.files })
              else (err write_failed, b)
        ]

    module _ (env : Env Db) (gap : Chain Db → Chain Db) where
      -- A file that has been read: it is removed if it does not decode and if its block is imported.
      -- Both branches on the error of the import do nothing.
      unfoldable pub process_block : Bytes → Option Block → Broadcaster Db → Broadcaster Db
      unfolding import_block remove_file
      process_block name none b = remove_file name b
      process_block name (some block) b =
          let (r, chain') = import_block env gap block b.chain in
          let b' : Broadcaster Db = record b { chain = chain' } in
          elim r [ err e ↦ b' | ok _ ↦ remove_file name b' ]

      -- One round of the loop over the files.
      unfoldable pub process_file : Bytes → Broadcaster Db → Broadcaster Db
      unfolding is_json is_processed process_block
      process_file name b =
          if not (is_json name)
          then b
          else (if is_processed name b
              then b
              else (if not (disk.readable name) then mark name b else elim (lookup name b.files) [
                | none ↦ mark name b
                | some val ↦ process_block name (env.codec.decode val) (mark name b)
              ]))

      unfoldable pub process_files : List Bytes → Broadcaster Db → Broadcaster Db
      unfolding process_file
      process_files [] b = b
      process_files (name ∷ names) b = process_files names (process_file name b)

      -- One tick of `ProcessBlocks`; `listed` is whether `os.ReadDir` succeeds.
      unfoldable pub process_blocks : Bool → Broadcaster Db → Broadcaster Db
      unfolding process_files read_dir
      process_blocks listed b = if listed then process_files (read_dir b.files) b else b
