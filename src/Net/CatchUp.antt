-- ===== src/Net/CatchUp.antt =====
-- A node that is behind catches up with its peer.
use Prim.Native.Nat.{min}
use poai.Prelude.{
  ℕ, suc, ◌+◌, ◌-◌, ◌^◌, ◌<◌, ◌≤◌, ◌≡◌, refl, sym, ap, subst, ◌∙◌, ◌≢◌, Option, none, some, List,
  [], ◌∷◌, nat_eq, bytes_eq, arith, All, length, map, ne→==_false,
}
use poai.Prelude.Assoc.{Assoc, lookup, insert, lookup-insert_self, lookup-insert_ne}
use poai.Prelude.Int.{ℤ}
use poai.Badger.{Reliable}
use poai.Block.{Block, block_hash}
use poai.Crypto.{Crypto}
use poai.State.Ledger.{Ledger, apply_all, view}
use poai.Store.{stored}
use poai.Chain.{Env, Chain}
use poai.Chain.Import.{import_block}
use poai.Net.{NewHeadMsg, Node, handle_new_head, handle_block_resp}
use poai.Net.Serve.{blocks_from}
use poai.Net.Request.{answer, handle_new_head_served}
use poai.Net.Next.{Ready, Next, find_by_hash-insert, with_bits, same_hash, import_block-Took}

-- The ledger after the transactions of some blocks.
abbrev pub ledger_after : Crypto → List Block → Ledger → Ledger
ledger_after crypto [] l = l
ledger_after crypto (b ∷ bs) l = ledger_after crypto bs (apply_all crypto b.transactions l).1

-- Blocks that follow one another from `tip` on, each of which comes next in its turn, with hashes that
-- differ.
abbrev pub Segment : Crypto → Assoc ℕ Block → Block → Ledger → List Block → Type 0
Segment crypto known tip l [] = Unit
Segment crypto known tip l (b ∷ bs) =
    Next crypto known tip l b
    × All (λ d. block_hash crypto b ≢ block_hash crypto d) bs
    × Segment crypto known b (apply_all crypto b.transactions l).1 bs

abbrev pub last_block : Block → List Block → Block
last_block tip [] = tip
last_block tip (b ∷ bs) = last_block b bs

last_block-height :
    (crypto : Crypto) (known : Assoc ℕ Block) (tip : Block) (l : Ledger) (bs : List Block)
    → Segment crypto known tip l bs
    → (last_block tip bs).header.height ≡ tip.header.height + length bs
last_block-height crypto known tip l [] seg = omega arith
last_block-height crypto known tip l (b ∷ bs) (next, _, rest) = omega (
  arith,
  last_block-height crypto known b (apply_all crypto b.transactions l).1 bs rest,
  next.height,
)

length-map : (f : Block → Block) (bs : List Block) → length (map f bs) ≡ length bs
length-map f [] = refl
length-map f (b ∷ bs) = ap suc (length-map f bs)

module _ {Db : Type 0} (env : Env Db) (gap : Chain Db → Chain Db)
    (reliable : Reliable env.store) where
  -- What an import leaves fresh.
  Segment-insert :
      (h : ℕ) (x : Block) (known : Assoc ℕ Block) (tip : Block) (l : Ledger) (bs : List Block)
      → lookup h known ≡ none
      → All (λ d. block_hash env.crypto x ≢ block_hash env.crypto d) bs
      → Segment env.crypto known tip l bs
      → Segment env.crypto (insert h x known) tip l bs
  Segment-insert h x known tip l [] free distinct seg = tt
  Segment-insert h x known tip l (b ∷ bs) free distinct (next, others, rest) = (
    record {
      linked = next.linked;
      height = next.height;
      fits = next.fits;
      plain = next.plain;
      runs = next.runs;
      fresh =
          find_by_hash-insert (block_hash env.crypto) (block_hash env.crypto b) h x known free
            next.fresh
          ∙ rw (ne→==_false (block_hash env.crypto x) (block_hash env.crypto b) distinct.0) refl;
    },
    others,
    Segment-insert h x known b (apply_all env.crypto b.transactions l).1 bs free distinct.1 rest,
  )

  -- The block is at its height, with a target.
  abbrev pub InChain : Option ℤ → Chain Db → Block → Type 0
  InChain bits c b = lookup b.header.height c.blocks ≡ some (with_bits bits b)

  record CaughtUp (bits : Option ℤ) (tip : Block) (bs : List Block) (c c' : Chain Db) : Type 0 where
    ready : Ready env.crypto (last_block tip bs) c'
    accounts : view env.store c'.db ≡ ledger_after env.crypto bs (view env.store c.db)
    kept : (k : ℕ) → k ≤ c.head → lookup k c'.blocks ≡ lookup k c.blocks
    entered : All (InChain bits c') bs

  handle_block_resp-CaughtUp :
      (bs : List Block) (tip : Block) (c : Chain Db)
      → (ready : Ready env.crypto tip c) → Segment env.crypto c.blocks tip (view env.store c.db) bs
      → CaughtUp ready.parent.header.bits tip bs c (handle_block_resp env gap bs c)
  unfolding handle_block_resp
  handle_block_resp-CaughtUp [] tip c ready seg = record {
    ready = ready;
    accounts = refl;
    kept = λ k h. refl;
    entered = tt;
  }
  handle_block_resp-CaughtUp (b ∷ bs) tip c ready (next, others, rest) =
      let took = import_block-Took env gap reliable tip b c ready next in
      let c1 = (import_block env gap b c).1 in
      let bits = ready.parent.header.bits in
      let stored_b = with_bits bits b in
      let free = ready.above_free b.header.height (omega (arith, ready.at_head, next.height)) in
      let others' : All (λ d. block_hash env.crypto stored_b ≢ block_hash env.crypto d) bs =
        subst (λ h. All (λ d. h ≢ block_hash env.crypto d) bs) (sym (same_hash env gap bits b))
          others in
      let seg1 : Segment env.crypto c1.blocks b (view env.store c1.db) bs =
        subst (λ l. Segment env.crypto c1.blocks b l bs) (sym took.accounts)
          (subst
            (λ m.
              Segment env.crypto m b (apply_all env.crypto b.transactions (view env.store c.db)).1
                bs)
            (sym took.entered)
            (Segment-insert b.header.height stored_b c.blocks b _ bs free others' rest)) in
      let done = handle_block_resp-CaughtUp bs b c1 took.ready seg1 in
      let at_b : lookup b.header.height c1.blocks ≡ some stored_b =
        ap (lookup b.header.height) took.entered
        ∙ lookup-insert_self b.header.height stored_b c.blocks in
      record {
        ready = done.ready;
        accounts = done.accounts ∙ ap (ledger_after env.crypto bs) took.accounts;
        kept = λ k h.
            done.kept k (omega (arith, took.ready.at_head, ready.at_head, next.height))
            ∙ ap (lookup k) took.entered
            ∙ lookup-insert_ne k b.header.height stored_b c.blocks
                (λ e. omega (arith, e, ready.at_head, next.height));
        entered = (
          done.kept b.header.height (omega (arith, took.ready.at_head)) ∙ at_b,
          subst (λ t. All (InChain t (handle_block_resp env gap bs c1)) bs) took.target
              done.entered,
        );
      }

  -- A node hears of a head that is at most 513 blocks above its own, on a chain where nothing waits,
  -- and its peer has all the blocks up to that head. They follow on from the node's head: each is linked
  -- to the one before and one above it, away from the retarget heights, with a hash that is new, and its
  -- transactions run on the ledger that the blocks before it leave. Then the node asks for exactly these
  -- blocks, the peer serves them, and after their import, each with a nil target read as zero, the node
  -- is at the announced height. It has each block at its height, with the target of the block that it had
  -- at its old head, whatever targets the peer sent; the blocks up to that head are as before, and its
  -- accounts are those of the ledger after all the transactions.
  pub catch_up :
      (peer : Chain Db) (msg : NewHeadMsg) (n : Node Db) (tip : Block) (fuel : ℕ)
      → 514 ≤ fuel
      → n.chain.head < msg.height
      → msg.height ≤ n.chain.head + 513
      → msg.height + 1 < 2 ^ 64
      → let served = blocks_from peer (n.chain.head + 1) (msg.height - n.chain.head) in
        length served ≡ msg.height - n.chain.head
        → (ready : Ready env.crypto tip n.chain)
        → Segment env.crypto n.chain.blocks tip (view env.store n.chain.db) (map stored served)
        → let (req, n') = handle_new_head msg n in
          let c' = handle_block_resp env gap (map stored served) n'.chain in
          (answer fuel req peer ≡ some served)
          × (c'.head ≡ msg.height)
          × All (InChain ready.parent.header.bits c') (map stored served)
          × ((k : ℕ) → k ≤ n.chain.head → lookup k c'.blocks ≡ lookup k n.chain.blocks)
          × (view env.store c'.db
              ≡ ledger_after env.crypto (map stored served) (view env.store n.chain.db))
  catch_up peer msg n tip fuel enough above near fits full ready seg =
      let served = blocks_from peer (n.chain.head + 1) (msg.height - n.chain.head) in
      let (asked, _, _, same_chain) = handle_new_head_served peer msg n fuel enough above fits in
      let all_of_it : min 513 (msg.height - n.chain.head) ≡ msg.height - n.chain.head =
        omega arith in
      let done = handle_block_resp-CaughtUp (map stored served) tip n.chain ready seg in
      rw same_chain (
        asked ∙ ap (λ k. some (blocks_from peer (n.chain.head + 1) k)) all_of_it,
        done.ready.at_head
            ∙ omega (
              arith,
              last_block-height env.crypto n.chain.blocks tip (view env.store n.chain.db)
                  (map stored served) seg,
              length-map stored served,
              full,
              ready.at_head,
            ),
        done.entered,
        done.kept,
        done.accounts,
      )
