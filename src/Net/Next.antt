-- ===== src/Net/Next.antt =====
-- The import of a block that comes next.
use poai.Prelude.{
  ℕ, ◌+◌, ◌%◌, ◌^◌, ◌<◌, ◌≡◌, refl, sym, ap, subst, ◌∙◌, inl, inr, ◌&&◌, Option, none, some, true,
  false, [], ◌∷◌, Bytes, ◌==◌, nat_eq, bytes_eq, if◌then◌else◌, arith, ltb, Bool-cases, ==_refl,
}
use mathlib.Core.Option.{some-injective}
use poai.Prelude.Int.{ℤ}
use poai.Prelude.Assoc.{Assoc, lookup, insert}
use poai.Result.{Result, ok}
use poai.Badger.{Reliable}
use poai.Header.{header_hash, preimage}
use poai.Block.{Block, block_hash}
use poai.Crypto.{Crypto}
use poai.Difficulty.{retarget_interval}
use poai.State.Ledger.{Ledger, apply_all, view}
use poai.Chain.{Env, Chain}
use poai.Chain.Agree.{execute_transactions_refines}
use poai.Chain.Extend.{inheriting, import_core-Extends, import_core_accepts}
use poai.Chain.Import.{
  extended, find_by_hash, import_core, import_with, import_block, try_import_orphans, take_orphans,
}

pub find_by_hash-insert :
    (hash_of : Block → Bytes) (h : Bytes) (k : ℕ) (b : Block) (blocks : Assoc ℕ Block)
    → lookup k blocks ≡ none
    → find_by_hash hash_of h blocks ≡ none
    → find_by_hash hash_of h (insert k b blocks) ≡ (if hash_of b == h then some b else none)
unfolding find_by_hash
find_by_hash-insert hash_of h k b [] free absent = refl
find_by_hash-insert hash_of h k b ((j, x) ∷ blocks) free absent =
    elim (Bool-cases (hash_of x == h)) [
      | inl hit ↦ absurd (ground arith)
      | inr miss ↦ elim (Bool-cases (j == k)) [
        | inl taken ↦ absurd (ground arith)
        | inr other ↦
            let rest = find_by_hash-insert hash_of h k b blocks (ground arith) (ground arith) in
            rw (other, insert, miss, find_by_hash) rest
      ]
    ]

-- A chain on which nothing waits, with the block `tip` as its head.
pub record Ready {Db : Type 0} (crypto : Crypto) (tip : Block) (c : Chain Db) : Type 0 where
  pub at_head : c.head ≡ tip.header.height
  pub parent : Block
  pub found : find_by_hash (block_hash crypto) (block_hash crypto tip) c.blocks ≡ some parent
  pub parent_height : parent.header.height ≡ tip.header.height
  pub above_free : (k : ℕ) → c.head < k → lookup k c.blocks ≡ none
  pub no_branches : c.side_branches ≡ []
  pub no_orphans : c.orphan_pool ≡ []
  pub idle : c.orphan_import_in_progress ≡ false

-- A block on top of `tip`, away from a retarget height, whose hash is new among the known blocks and
-- whose transactions run on the ledger.
pub record Next (crypto : Crypto) (known : Assoc ℕ Block) (tip : Block) (l : Ledger) (b : Block)
    : Type 0 where
  pub linked : b.header.parent_hash ≡ block_hash crypto tip
  pub height : b.header.height ≡ tip.header.height + 1
  pub fits : b.header.height < 2 ^ 64
  pub plain : ((b.header.height % retarget_interval == 0) && ltb 0 b.header.height) ≡ false
  pub fresh : find_by_hash (block_hash crypto) (block_hash crypto b) known ≡ none
  pub runs : (apply_all crypto b.transactions l).0 ≡ ok tt

-- A block with another target.
abbrev pub with_bits : Option ℤ → Block → Block
with_bits bits b = record b { header = record b.header { bits = bits } }

module _ {Db : Type 0} (env : Env Db) (gap : Chain Db → Chain Db) where
  take_orphans_empty :
      (h : Bytes) (c : Chain Db) → c.orphan_pool ≡ [] → take_orphans env gap h c ≡ c
  unfolding take_orphans
  take_orphans_empty h c empty =
      rw (empty, take_orphans) (ap (λ p. record c { orphan_pool = p }) empty)

  -- With no orphan waiting there is nothing to do after an import.
  try_import_orphans_idle :
      (h : Bytes) (c : Chain Db)
      → c.orphan_pool ≡ []
      → c.orphan_import_in_progress ≡ false
      → try_import_orphans env gap h c ≡ c
  unfolding try_import_orphans
  try_import_orphans_idle h c empty idle =
      let c1 : Chain Db = record c { orphan_import_in_progress = true } in
      let c2 : Chain Db = record (take_orphans env gap h c1) {
        orphan_import_in_progress = false;
      } in
      ap (λ f. if f then c else c2) idle
      ∙ (ap (λ (d : Chain Db). record d { orphan_import_in_progress = false })
            (take_orphans_empty h c1 empty)
          ∙ ap (λ f. record c { orphan_import_in_progress = f }) (sym idle))

  -- What the import of the next block leaves: the block is stored with the target of its parent.
  pub record Took (bits : Option ℤ) (b : Block) (c c' : Chain Db) : Type 0 where
    pub ready : Ready env.crypto b c'
    pub target : ready.parent.header.bits ≡ bits
    pub entered : c'.blocks ≡ insert b.header.height (with_bits bits b) c.blocks
    pub accounts :
        view env.store c'.db ≡ (apply_all env.crypto b.transactions (view env.store c.db)).1

  pub same_hash :
      (bits : Option ℤ) (b : Block)
      → block_hash env.crypto (with_bits bits b) ≡ block_hash env.crypto b
  unfolding block_hash header_hash preimage
  same_hash bits b = refl

  import_core-Took :
      (reliable : Reliable env.store)
      → (tip b : Block) (c c' : Chain Db) → (ready : Ready env.crypto tip c)
      → Next env.crypto c.blocks tip (view env.store c.db) b
      → import_core env gap b c ≡ (ok extended, c')
      → Took ready.parent.header.bits b c c'
  import_core-Took reliable tip b c c' ready next e =
      let (free, (parent, found, _, ext)) =
        import_core-Extends env gap b c c' next.plain ready.no_branches e in
      let b' = inheriting parent b in
      let ledger = execute_transactions_refines env reliable b.transactions c in
      let known =
        ap (λ h. find_by_hash (block_hash env.crypto) h c.blocks) next.linked ∙ ready.found in
      let same_parent : parent ≡ ready.parent = some-injective _ _ (sym found ∙ known) in
      let bits : parent.header.bits ≡ ready.parent.header.bits =
        ap (λ (x : Block). x.header.bits) same_parent in
      record {
        ready = record {
          at_head = ext.head;
          parent = b';
          found =
              ap (find_by_hash (block_hash env.crypto) (block_hash env.crypto b)) ext.entered
              ∙ find_by_hash-insert (block_hash env.crypto) (block_hash env.crypto b)
                  b.header.height b' c.blocks free next.fresh
              ∙ rw (same_hash parent.header.bits b, ==_refl (block_hash env.crypto b)) refl;
          parent_height = refl;
          above_free = λ k above.
              (let higher : c.head < k = omega (arith, ext.head, ready.at_head, next.height) in
                let other : (b.header.height == k) ≡ false = ground (arith, ext.head) in
                ext.blocks k ∙ rw other (ready.above_free k higher));
          no_branches = ext.branches ∙ ready.no_branches;
          no_orphans = ext.orphans ∙ ready.no_orphans;
          idle = ext.importing ∙ ready.idle;
        };
        target = bits;
        entered = ext.entered ∙ ap (λ t. insert b.header.height (with_bits t b) c.blocks) bits;
        accounts = ext.accounts ∙ ap (λ (p : Result (Unit {0}) × Ledger). p.1) ledger;
      }

  import_core-extended :
      (reliable : Reliable env.store)
      → (tip b : Block) (c : Chain Db) → Ready env.crypto tip c
      → Next env.crypto c.blocks tip (view env.store c.db) b
      → (import_core env gap b c).0 ≡ ok extended
  import_core-extended reliable tip b c ready next =
      import_core_accepts env gap ready.parent b c next.plain
        (ready.above_free b.header.height (omega (arith, ready.at_head, next.height)))
        (ap (λ h. find_by_hash (block_hash env.crypto) h c.blocks) next.linked ∙ ready.found)
        (ready.parent_height ∙ omega (arith, next.height, next.fits))
        (ap (λ (p : Result (Unit {0}) × Ledger). p.0)
            (execute_transactions_refines env reliable b.transactions c)
          ∙ next.runs)

  import_block-extended :
      (b : Block) (c : Chain Db)
      → (import_core env gap b c).0 ≡ ok extended
      → (import_block env gap b c).1
        ≡ try_import_orphans env gap (block_hash env.crypto b) (import_core env gap b c).1
  unfolding import_block import_with
  import_block-extended b c done = rw (done, import_with) refl

  -- A block that comes next is imported.
  pub import_block-Took :
      (reliable : Reliable env.store)
      → (tip b : Block) (c : Chain Db) → (ready : Ready env.crypto tip c)
      → Next env.crypto c.blocks tip (view env.store c.db) b
      → Took ready.parent.header.bits b c (import_block env gap b c).1
  import_block-Took reliable tip b c ready next =
      let c' = (import_core env gap b c).1 in
      let done = import_core-extended reliable tip b c ready next in
      let took = import_core-Took reliable tip b c c' ready next (ap (λ r. (r, c')) done) in
      let idle =
        try_import_orphans_idle (block_hash env.crypto b) c' took.ready.no_orphans
          took.ready.idle in
      subst (Took ready.parent.header.bits b c) (sym (import_block-extended b c done ∙ idle)) took
