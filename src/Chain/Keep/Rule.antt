-- ===== src/Chain/Keep/Rule.antt =====
-- A proof rule for `ImportBlock`: what every change of the chain on its way keeps, the import keeps.
use poai.Chain.Reorg.{check_reorg}
use poai.Prelude.{
  Bool, false, if◌then◌else◌, ℕ, ◌+◌, ◌-◌, ◌%◌, ltb, not, ◌&&◌, sym, subst, inl, inr, true, some,
  List, [], ◌∷◌, Bytes, ◌==◌, nat_eq, bytes_eq, Bool-cases, Option-cases,
}
use poai.Prelude.Assoc.{lookup, erase}
use poai.Result.{Result, Result-cases, ok, err}
use poai.Header.{Header, header_hash}
use poai.Block.{Block, block_hash}
use poai.Difficulty.{adjust, adjust_bits, retarget_interval}
use poai.Mempool.{remove_transactions}
use poai.Chain.{
  Env, Chain, pred_u64, add_to_side_branch, add_to_orphan_pool, notify_head_change,
  header_by_height,
}
use poai.Chain.Reject.{execute_transactions-frame}
use poai.Chain.Import.{
  Outcome, extended, queued, find_by_hash, import_taken, execute_transactions, set_bits,
  accept_block, finish_import, import_on, import_core, import_with, import_nested, import_all,
  side_branch_all, sort_orphans, take_orphans, try_import_orphans, import_block,
}

module _ {Db : Type 0} (env : Env Db) (P : Chain Db → Type 0) where
  -- A change of the chain that keeps `P`.
  abbrev pub Keeps : (Chain Db → Chain Db) → Type 0
  Keeps f = (c : Chain Db) → P c → P (f c)

  pub record ImportRule : Type 0 where
    pub header : (h : ℕ) → Keeps (λ c. (header_by_height env h c).1)
    pub executed : (db : Db) → Keeps (λ c. record c { db = db })
    pub accepted :
        (b : Block)
        → Keeps (λ c.
          accept_block env b (record c { mempool = remove_transactions b.transactions c.mempool }))
    pub notified : Keeps notify_head_change
    pub reorganised : Keeps (check_reorg env)
    pub side : (b : Block) → Keeps (add_to_side_branch b)
    pub orphaned : (b : Block) → Keeps (add_to_orphan_pool b)
    pub released : (h : Bytes) → Keeps (λ c. record c { orphan_pool = erase h c.orphan_pool })
    pub flagged : (busy : Bool) → Keeps (λ c. record c { orphan_import_in_progress = busy })

module _ {Db : Type 0} (env : Env Db) (P : Chain Db → Type 0) (rule : ImportRule env P) where
  adjust-Keeps : (tip : Header) → Keeps env P (λ c. (adjust (header_by_height env) (some tip) c).1)
  unfolding adjust adjust_bits
  adjust-Keeps tip c v = elim (Option-cases tip.bits) [
    | inl missing ↦ rw (missing, adjust_bits) v
    | inr (bits, found) ↦ elim (Bool-cases (ltb tip.height retarget_interval)) [
      | inl young ↦ rw (found, adjust_bits, young) v
      | inr old ↦
          rw (found, adjust_bits, old) (rule.header (tip.height - retarget_interval + 1) c v)
    ]
  ]

  finish_import-Keeps : (b : Block) → Keeps env P (λ c. (finish_import env b c).1)
  unfolding finish_import
  finish_import-Keeps b c v =
      let c1 = (execute_transactions env b.transactions c).1 in
      let frame = execute_transactions-frame env b.transactions c in
      let ran : P c1 = subst P (sym frame) (rule.executed c1.db c v) in
      let c2 : Chain Db = record c1 { mempool = remove_transactions b.transactions c1.mempool } in
      elim (Result-cases (execute_transactions env b.transactions c).0) [
        | inr (e, failed) ↦ rw (failed, finish_import) ran
        | inl (_, done) ↦
            rw (done, finish_import)
              (rule.reorganised (notify_head_change (accept_block env b c2))
                (rule.notified (accept_block env b c2) (rule.accepted b c1 ran)))
      ]

  import_taken-Keeps : (existing b : Block) → Keeps env P (λ c. (import_taken env existing b c).1)
  unfolding import_taken
  import_taken-Keeps existing b c v =
      elim (Bool-cases (block_hash env.crypto existing == block_hash env.crypto b)) [
        | inl same ↦ rw (same, import_taken) v
        | inr other ↦ elim (Option-cases (lookup c.head c.blocks)) [
          | inl gone ↦ rw (other, import_taken, gone) v
          | inr (tip, found) ↦
              elim (Bool-cases (b.header.parent_hash == block_hash env.crypto tip)) [
                | inl on_tip ↦ rw (other, import_taken, found, on_tip) v
                | inr off_tip ↦
                    rw (other, import_taken, found, off_tip)
                      (rule.reorganised (add_to_side_branch b c) (rule.side b c v))
              ]
        ]
      ]

  module _ (gap : Chain Db → Chain Db) (gap-Keeps : Keeps env P gap) where
    set_bits-Keeps : (parent b : Block) → Keeps env P (λ c. (set_bits env gap parent b c).1)
    unfolding set_bits
    set_bits-Keeps parent b c v =
        let kept = adjust-Keeps b.header (gap c) (gap-Keeps c v) in
        elim (Bool-cases ((b.header.height % retarget_interval == 0) && ltb 0 b.header.height)) [
          | inr plain ↦ rw (plain, set_bits) v
          | inl retarget ↦
              elim (Option-cases (adjust (header_by_height env) (some b.header) (gap c)).0.1) [
                | inl fine ↦ rw (retarget, set_bits, fine) kept
                | inr (e, failed) ↦ rw (retarget, set_bits, failed) kept
              ]
        ]

    import_on-Keeps : (parent b : Block) → Keeps env P (λ c. (import_on env gap parent b c).1)
    unfolding import_on
    import_on-Keeps parent b c v =
        elim (Bool-cases (not (parent.header.height == pred_u64 b.header.height))) [
          | inl gap_in ↦ rw (gap_in, import_on) (rule.side b c v)
          | inr follows ↦
              elim (Bool-cases (not (b.header.parent_hash == block_hash env.crypto parent))) [
                | inl stray ↦ rw (follows, import_on, stray) (rule.side b c v)
                | inr child ↦
                    elim (Bool-cases
                      (not (header_hash env.crypto b.header == block_hash env.crypto b))) [
                        | inl wrong ↦ rw (follows, import_on, child, wrong) v
                        | inr right ↦
                            rw (follows, import_on, child, right)
                              (import_checked-Keeps parent b c v)
                      ]
              ]
        ]
      where
        import_checked-Keeps :
            (parent b : Block)
            → Keeps env P (λ c.
              (let (r, c') = set_bits env gap parent b c in
                elim r as (λ x. Result Outcome × Chain Db) [
                  | err e ↦ (err e, c')
                  | ok block' ↦ finish_import env block' c'
                ]).1)
        import_checked-Keeps parent b c v = elim (Result-cases (set_bits env gap parent b c).0) [
          | inr (e, failed) ↦ rw failed (set_bits-Keeps parent b c v)
          | inl (b', fine) ↦
              rw fine (
                finish_import-Keeps b' (set_bits env gap parent b c).1
                  (set_bits-Keeps parent b c v))
        ]

    import_core-Keeps : (b : Block) → Keeps env P (λ c. (import_core env gap b c).1)
    unfolding import_core
    import_core-Keeps b c v = elim (Option-cases (lookup b.header.height c.blocks)) [
      | inr (existing, taken) ↦ rw (taken, import_core) (import_taken-Keeps existing b c v)
      | inl free ↦
          elim (Option-cases (find_by_hash (block_hash env.crypto) b.header.parent_hash c.blocks)) [
            | inl orphan ↦ rw (free, import_core, orphan) (rule.orphaned b c v)
            | inr (parent, found) ↦ rw (free, import_core, found) (import_on-Keeps parent b c v)
          ]
    ]

    import_with-Keeps :
        (after : Bytes → Chain Db → Chain Db)
        → ((h : Bytes) → Keeps env P (after h))
        → (b : Block) → Keeps env P (λ c. (import_with env gap after b c).1)
    unfolding import_with
    import_with-Keeps after after-Keeps b c v =
        let kept = import_core-Keeps b c v in
        elim (Result-cases (import_core env gap b c).0) [
          | inr (e, failed) ↦ rw (failed, import_with) kept
          | inl (queued, done) ↦ rw (done, import_with) kept
          | inl (extended, done) ↦
              rw (done, import_with)
                (after-Keeps (block_hash env.crypto b) (import_core env gap b c).1 kept)
        ]

    import_all-Keeps : (bs : List Block) → Keeps env P (import_all env gap bs)
    unfolding import_all import_nested
    import_all-Keeps [] c v = v
    import_all-Keeps (b ∷ bs) c v =
        import_all-Keeps bs (import_nested env gap b c).1
          (import_with-Keeps (λ _ c'. c') (λ _ _ v'. v') b c v)

    side_branch_all-Keeps : (bs : List Block) → Keeps env P (side_branch_all env bs)
    unfolding side_branch_all
    side_branch_all-Keeps [] c v = v
    side_branch_all-Keeps (b ∷ bs) c v =
        side_branch_all-Keeps bs (add_to_side_branch b c) (rule.side b c v)

    take_orphans-Keeps : (h : Bytes) → Keeps env P (take_orphans env gap h)
    unfolding take_orphans
    take_orphans-Keeps h c v = elim (Option-cases (lookup h c.orphan_pool)) [
      | inl nobody ↦ rw (nobody, take_orphans) v
      | inr (orphans, waiting) ↦
          let c' : Chain Db = record c { orphan_pool = erase h c.orphan_pool } in
          let (to_import, to_side) = sort_orphans env orphans c' in
          rw (waiting, take_orphans)
            (side_branch_all-Keeps to_side (import_all env gap to_import c')
              (import_all-Keeps to_import c' (rule.released h c v)))
    ]

    take_flagged-Keeps :
        (h : Bytes)
        → Keeps env P (λ c.
          record (take_orphans env gap h (record c { orphan_import_in_progress = true })) {
            orphan_import_in_progress = false;
          })
    take_flagged-Keeps h c v =
        let c1 : Chain Db = record c { orphan_import_in_progress = true } in
        rule.flagged false (take_orphans env gap h c1)
          (take_orphans-Keeps h c1 (rule.flagged true c v))

    if-Keeps : (busy : Bool) (c c' : Chain Db) → P c → P c' → P (if busy then c else c')
    if-Keeps true c c' v w = v
    if-Keeps false c c' v w = w

    try_import_orphans-Keeps : (h : Bytes) → Keeps env P (try_import_orphans env gap h)
    unfolding try_import_orphans
    try_import_orphans-Keeps h c v =
        if-Keeps c.orphan_import_in_progress c _ v (take_flagged-Keeps h c v)

    -- Whatever the imports end with, the new block's and those of the orphans that it frees.
    pub import_block-Keeps : (b : Block) → Keeps env P (λ c. (import_block env gap b c).1)
    unfolding import_block
    import_block-Keeps b c v =
        import_with-Keeps (try_import_orphans env gap) try_import_orphans-Keeps b c v
