-- ===== src/Chain/Reach/Calls.antt =====
-- `ImportBlock` and `ScanOrphanPool` as sequences of changes.
use poai.Prelude.{
  Bool, false, inl, inr, List, [], ◌∷◌, Bytes, ◌==◌, nat_eq, bytes_eq, Bool-cases, Option-cases,
}
use poai.Prelude.Assoc.{Assoc}
use poai.Block.{Block}
use poai.Chain.{Env, Chain, pred_u64, get_block_by_hash, add_to_side_branch}
use poai.Chain.Import.{import_block}
use poai.Chain.Keep.Rule.{Keeps, ImportRule, import_block-Keeps}
use poai.Chain.Scan.{scan_orphans, scan_pool, scan_orphan_pool}
use poai.Chain.Reach.{
  queried, executed, unpooled, accepted, notified, reorganised, side, orphaned, released, emptied,
  flagged, Reach, here, next,
}

module _ {Db : Type 0} (env : Env Db) (start : Chain Db) where
  Reach-ImportRule : ImportRule env (Reach env start)
  Reach-ImportRule = record {
    header = λ h c r. next r (queried h);
    executed = λ db c r. next r (executed db);
    accepted = λ b c r. next (next r (unpooled b.transactions)) (accepted b);
    notified = λ c r. next r notified;
    reorganised = λ c r. next r reorganised;
    side = λ b c r. next r (side b);
    orphaned = λ b c r. next r (orphaned b);
    released = λ h c r. next r (released h);
    flagged = λ busy c r. next r (flagged busy);
  }

  Reach-append : {c d : Chain Db} → Reach env start c → Reach env c d → Reach env start d
  Reach-append r here = r
  Reach-append r (next q st) = next (Reach-append r q) st

  -- An import, whatever the others do around a retarget.
  pub import_block-Reach :
      (gap : Chain Db → Chain Db)
      → ((d : Chain Db) → Reach env d (gap d))
      → (b : Block) → Keeps env (Reach env start) (λ c. (import_block env gap b c).1)
  import_block-Reach gap others b c r =
      import_block-Keeps env (Reach env start) Reach-ImportRule gap
        (λ d q. Reach-append q (others d)) b c r

  scan_orphans-Reach :
      (waits : Block → Bool) (bs : List Block)
      → Keeps env (Reach env start) (λ c. (scan_orphans waits bs c).1)
  unfolding scan_orphans
  scan_orphans-Reach waits [] c r = r
  scan_orphans-Reach waits (b ∷ bs) c r = elim (Bool-cases (waits b)) [
    | inl writer ↦ rw (writer, scan_orphans) r
    | inr free ↦ elim (Option-cases (get_block_by_hash b.header.parent_hash c)) [
      | inl missing ↦ rw (free, missing, scan_orphans) (scan_orphans-Reach waits bs c r)
      | inr (parent, found) ↦ elim (Bool-cases (parent.header.height == pred_u64 b.header.height)) [
        | inl child ↦ rw (free, found, child, scan_orphans) r
        | inr apart ↦
            rw (free, found, apart, scan_orphans)
              (scan_orphans-Reach waits bs (add_to_side_branch b c) (next r (side b)))
      ]
    ]
  ]

  module _ (waits : Block → Bool) (gap : Assoc Bytes (List Block) → Chain Db → Chain Db)
      (others : (pool : Assoc Bytes (List Block)) (d : Chain Db) → Reach env d (gap pool d)) where
    scan_pool-Reach :
        (pool : Assoc Bytes (List Block))
        → Keeps env (Reach env start) (λ c. (scan_pool waits gap pool c).1)
    unfolding scan_pool
    scan_pool-Reach [] c r = r
    scan_pool-Reach ((h, orphans) ∷ pool) c r =
        let d = gap ((h, orphans) ∷ pool) c in
        let r1 =
          scan_orphans-Reach waits orphans d (Reach-append r (others ((h, orphans) ∷ pool) c)) in
        elim (Bool-cases (scan_orphans waits orphans d).0) [
          | inl stuck ↦ rw (stuck, scan_pool) r1
          | inr through ↦
              rw (through, scan_pool) (scan_pool-Reach pool (scan_orphans waits orphans d).1 r1)
        ]

    -- A scan, whatever the others do between its groups.
    pub scan_orphan_pool-Reach : Keeps env (Reach env start) (λ c. (scan_orphan_pool waits gap c).1)
    unfolding scan_orphan_pool
    scan_orphan_pool-Reach c r = either c.orphan_pool
      where
        either :
            (pool : Assoc Bytes (List Block))
            → Reach env start
                (elim pool as (λ x. Bool × Chain Db) [
                  | [] ↦ (false, c)
                  | orphans ∷ rest ↦
                      scan_pool waits gap (orphans ∷ rest) (record c { orphan_pool = [] })
                ]).1
        either [] = r
        either (orphans ∷ rest) =
            scan_pool-Reach (orphans ∷ rest) (record c { orphan_pool = [] }) (next r emptied)
