-- ===== src/Badger.antt =====
-- BadgerDB (`github.com/dgraph-io/badger/v4`), which is not part of the repository, as the node uses
-- it: one key-value database that the block store and the account state share.
use mathlib.Core.Option.{some-injective}
use poai.Prelude.{
  ap, sym, ◌≡◌, refl, Option, none, some, List, [], ◌∷◌, if◌then◌else◌, Bytes, ◌==◌, bytes_eq,
  nat_eq,
}

-- What a `db.Update` closure asks of its transaction: `txn.Set` and `txn.Delete`.
pub data Write : Type 0 where
  put : Bytes → Bytes → Write
  del : Bytes → Write

-- The value of a key after the writes of one transaction, in their order.
abbrev pub written : List Write → Bytes → Option Bytes → Option Bytes
written [] k v = v
written (put j w ∷ ws) k v = written ws k (if j == k then some w else v)
written (del j ∷ ws) k v = written ws k (if j == k then none else v)

-- `get` is `txn.Get` in a `View`; `none` is `ErrKeyNotFound`. `update` is `db.Update`; `none` is any
-- failure, after which the database is as before. A committed transaction has all its writes.
pub record Badger (Db : Type 0) : Type 0 where
  pub get : Bytes → Db → Option Bytes
  pub update : List Write → Db → Option Db
  pub get-update :
      (ws : List Write) (k : Bytes) (db db' : Db)
      → update ws db ≡ some db'
      → get k db' ≡ written ws k (get k db)

-- Every transaction commits.
abbrev pub Reliable : {Db : Type 0} → Badger Db → Type 0
Reliable {Db} store = (ws : List Write) (db : Db) → (db' : Db) × (store.update ws db ≡ some db')

-- A database in memory, which never fails.
abbrev pub MemDb : Type 0
MemDb = Bytes → Option Bytes

abbrev pub mem_badger : Badger MemDb
mem_badger = record {
  get = λ k db. db k;
  update = λ ws db. some (λ k. written ws k (db k));
  get-update = λ ws k db db' e. mem_get-update ws k db db' e;
}
  where
    mem_get-update :
        (ws : List Write) (k : Bytes) (db db' : MemDb)
        → some (λ j. written ws j (db j)) ≡ some db'
        → db' k ≡ written ws k (db k)
    mem_get-update ws k db db' e = ap (λ (f : MemDb). f k) (sym (some-injective _ _ e))

abbrev pub mem_badger-Reliable : Reliable mem_badger
mem_badger-Reliable ws db = ((λ k. written ws k (db k)), refl)

abbrev pub empty_db : MemDb
empty_db k = none
