-- ===== src/Chain/Scan.antt =====
-- `ScanOrphanPool`, which `StartOrphanPoolScanner` calls every 30 seconds.
use poai.Prelude.{
  ◌≡◌, refl, sym, ap, subst, ◌||◌, ◌∙◌, ◌≢◌, ◌⊎◌, inl, inr, none, some, Bool, true, false, List, [],
  ◌∷◌, Bytes, ◌==◌, nat_eq, bytes_eq, arith, All, Bool-cases, Option-cases, map,
}
use poai.Prelude.Assoc.{Assoc}
use poai.Block.{Block}
use poai.Chain.{Chain, pred_u64, get_block_by_hash, add_to_side_branch}
use poai.Chain.Locks.{any, any_fits}

list_cases {ℓ} : {A : Type ℓ} (l : List A) → (l ≡ []) ⊎ ((x : A) × ((xs : List A) × (l ≡ x ∷ xs)))
list_cases [] = inl refl
list_cases (x ∷ xs) = inr (x, (xs, refl))

module _ {Db : Type 0} where
  -- The orphans of one parent, while the lock is held for reading. The lookup of an orphan's parent
  -- takes the lock for reading again: if a writer waits for it by then, which `waits` says, the
  -- goroutine gets no further, which is the result `true`. Nor does it where an orphan fits, since its
  -- import waits for the lock.
  unfoldable pub scan_orphans : (Block → Bool) → List Block → Chain Db → Bool × Chain Db
  scan_orphans waits [] c = (false, c)
  scan_orphans waits (b ∷ bs) c = elim (waits b) [
    | true ↦ (true, c)
    | false ↦ elim (get_block_by_hash b.header.parent_hash c) [
      | none ↦ scan_orphans waits bs c
      | some parent ↦ elim (parent.header.height == pred_u64 b.header.height) [
        | true ↦ (true, c)
        | false ↦ scan_orphans waits bs (add_to_side_branch b c)
      ]
    ]
  ]

  -- The lock is given up between the orphans of one parent and those of the next: `gap` is what other
  -- goroutines do to the chain before the lists that are left.
  unfoldable pub scan_pool :
      (Block → Bool)
      → (Assoc Bytes (List Block) → Chain Db → Chain Db)
      → Assoc Bytes (List Block)
      → Chain Db
      → Bool × Chain Db
  unfolding scan_orphans
  scan_pool waits gap [] c = (false, c)
  scan_pool waits gap ((h, orphans) ∷ pool) c =
      let (blocked, c') = scan_orphans waits orphans (gap ((h, orphans) ∷ pool) c) in
      elim blocked [ true ↦ (true, c') | false ↦ scan_pool waits gap pool c' ]

  -- The pool is emptied first. The scan's goroutine starts later.
  unfoldable pub scan_orphan_pool :
      (Block → Bool) → (Assoc Bytes (List Block) → Chain Db → Chain Db) → Chain Db → Bool × Chain Db
  unfolding scan_pool
  scan_orphan_pool waits gap c = elim c.orphan_pool [
    | [] ↦ (false, c)
    | orphans ∷ pool ↦ scan_pool waits gap (orphans ∷ pool) (record c { orphan_pool = [] })
  ]

  -- An orphan fits when its parent is in the hash index, one below it.
  abbrev pub fits : Chain Db → Block → Bool
  fits c b = elim (get_block_by_hash b.header.parent_hash c) [
    | none ↦ false
    | some parent ↦ parent.header.height == pred_u64 b.header.height
  ]

  -- The scan goes no further at an orphan that fits, or whose lookup meets a waiting writer.
  abbrev pub stops : (Block → Bool) → Chain Db → Block → Bool
  stops waits c b = waits b || fits c b

  abbrev pub pool_stops : (Block → Bool) → Chain Db → Assoc Bytes (List Block) → List (List Bool)
  pool_stops waits c [] = []
  pool_stops waits c ((_, orphans) ∷ pool) = map (stops waits c) orphans ∷ pool_stops waits c pool

  -- The other goroutines leave the chain alone meanwhile.
  abbrev pub no_gap : Assoc Bytes (List Block) → Chain Db → Chain Db
  no_gap pool c = c

  abbrev pub Unknown : Chain Db → Block → Type 0
  Unknown c b = get_block_by_hash b.header.parent_hash c ≡ none

  abbrev pub AllUnknown : Chain Db → Assoc Bytes (List Block) → Type 0
  AllUnknown c [] = Unit
  AllUnknown c ((_, orphans) ∷ pool) = All (Unknown c) orphans × AllUnknown c pool

  -- What a scan did to a chain: nothing but to its side branches.
  abbrev SideOnly : Chain Db → Chain Db → Type 0
  SideOnly c c' = c' ≡ record c { side_branches = c'.side_branches }

  fits-add_to_side_branch : (b : Block) (c : Chain Db) → fits (add_to_side_branch b c) ≡ fits c
  unfolding add_to_side_branch get_block_by_hash
  fits-add_to_side_branch b c = refl

  side_of : (b : Block) (c c' : Chain Db) → SideOnly (add_to_side_branch b c) c' → SideOnly c c'
  unfolding add_to_side_branch
  side_of b c c' h = h

  scan_orphans_lem :
      (waits : Block → Bool) (bs : List Block) (c : Chain Db)
      → let (blocked, c') = scan_orphans waits bs c in
        SideOnly c c' × (blocked ≡ any (map (stops waits c) bs))
  unfolding scan_orphans
  scan_orphans_lem waits [] c = (refl, refl)
  scan_orphans_lem waits (b ∷ bs) c = elim (Bool-cases (waits b)) [
    | inl writer ↦ rw (writer, scan_orphans) (refl, refl)
    | inr free ↦ elim (Option-cases (get_block_by_hash b.header.parent_hash c)) [
      | inl missing ↦
          let skip : (fits c b || any (map (stops waits c) bs)) ≡ any (map (stops waits c) bs) =
            ground arith in
          let (side, verdict) = scan_orphans_lem waits bs c in
          rw (free, missing, scan_orphans) (side, verdict ∙ sym skip)
      | inr (parent, found) ↦ elim (Bool-cases (parent.header.height == pred_u64 b.header.height)) [
        | inl child ↦
            let hit : (fits c b || any (map (stops waits c) bs)) ≡ true = ground arith in
            rw (free, found, child, scan_orphans) (refl, sym hit)
        | inr apart ↦
            let skip : (fits c b || any (map (stops waits c) bs)) ≡ any (map (stops waits c) bs) =
              ground arith in
            let c1 = add_to_side_branch b c in
            let (side, verdict) = scan_orphans_lem waits bs c1 in
            rw (free, found, apart, scan_orphans)
              (
                side_of b c (scan_orphans waits bs c1).1 side,
                verdict
                    ∙ ap (λ f. any (map (λ x. waits x || f x) bs)) (fits-add_to_side_branch b c)
                    ∙ sym skip,
              )
      ]
    ]
  ]

  side_trans : (c c1 c2 : Chain Db) → SideOnly c c1 → SideOnly c1 c2 → SideOnly c c2
  side_trans c c1 c2 h k =
      k ∙ ap (λ (d : Chain Db). record d { side_branches = c2.side_branches }) h

  pool_stops_side :
      (waits : Block → Bool) (pool : Assoc Bytes (List Block)) (c c' : Chain Db)
      → SideOnly c c'
      → pool_stops waits c' pool ≡ pool_stops waits c pool
  unfolding get_block_by_hash
  pool_stops_side waits pool c c' h = ap (λ (d : Chain Db). pool_stops waits d pool) h

  scan_pool_lem :
      (waits : Block → Bool) (pool : Assoc Bytes (List Block)) (c : Chain Db)
      → let (blocked, c') = scan_pool waits no_gap pool c in
        SideOnly c c' × (blocked ≡ any_fits (pool_stops waits c pool))
  unfolding scan_pool
  scan_pool_lem waits [] c = (refl, refl)
  scan_pool_lem waits ((h, orphans) ∷ pool) c =
      let (side, verdict) = scan_orphans_lem waits orphans c in
      let c1 = (scan_orphans waits orphans c).1 in
      elim (Bool-cases (scan_orphans waits orphans c).0) [
        | inl stuck ↦ rw (stuck, scan_pool) (side, rw (sym verdict ∙ stuck) refl)
        | inr through ↦
            let (side', verdict') = scan_pool_lem waits pool c1 in
            rw (through, scan_pool)
              (
                side_trans c c1 (scan_pool waits no_gap pool c1).1 side side',
                rw (sym verdict ∙ through)
                    (verdict' ∙ ap any_fits (pool_stops_side waits pool c c1 side)),
              )
      ]

  scan_orphans-Unknown :
      (waits : Block → Bool) (bs : List Block) (c : Chain Db)
      → All (Unknown c) bs
      → (scan_orphans waits bs c).1 ≡ c
  unfolding scan_orphans
  scan_orphans-Unknown waits [] c h = refl
  scan_orphans-Unknown waits (b ∷ bs) c h = elim (Bool-cases (waits b)) [
    | inl writer ↦ rw (writer, scan_orphans) refl
    | inr free ↦ rw (free, h.0, scan_orphans) (scan_orphans-Unknown waits bs c h.1)
  ]

  scan_pool-Unknown :
      (waits : Block → Bool) (pool : Assoc Bytes (List Block)) (c : Chain Db)
      → AllUnknown c pool
      → (scan_pool waits no_gap pool c).1 ≡ c
  unfolding scan_pool
  scan_pool-Unknown waits [] c h = refl
  scan_pool-Unknown waits ((_, orphans) ∷ pool) c h =
      let unchanged = scan_orphans-Unknown waits orphans c h.0 in
      elim (Bool-cases (scan_orphans waits orphans c).0) [
        | inl stuck ↦ rw (stuck, scan_pool) unchanged
        | inr through ↦
            rw (through, scan_pool)
              (ap (λ d. (scan_pool waits no_gap pool d).1) unchanged
                ∙ scan_pool-Unknown waits pool c h.1)
      ]

  scan_orphan_pool_lem :
      (waits : Block → Bool) (c : Chain Db)
      → c.orphan_pool ≢ []
      → scan_orphan_pool waits no_gap c
        ≡ scan_pool waits no_gap c.orphan_pool (record c { orphan_pool = [] })
  unfolding scan_orphan_pool
  scan_orphan_pool_lem waits c waiting = elim (list_cases c.orphan_pool) [
    | inl empty ↦ absurd (waiting empty)
    | inr (first, (rest, shape)) ↦ rw (shape, scan_orphan_pool) refl
  ]

  -- What a scan did to a chain, in a result `r` of the scan.
  abbrev pub Scanned : (Block → Bool) → Chain Db → Bool × Chain Db → Type 0
  Scanned waits c r =
      let c0 : Chain Db = record c { orphan_pool = [] } in
      (r.1 ≡ record c0 { side_branches = r.1.side_branches })
      × (r.0 ≡ any_fits (pool_stops waits c0 c.orphan_pool))
      × (AllUnknown c0 c.orphan_pool → r.1 ≡ c0)

  scan_alone :
      (waits : Block → Bool) (c : Chain Db)
      → c.orphan_pool ≢ []
      → Scanned waits c (scan_orphan_pool waits no_gap c)
  scan_alone waits c waiting =
      let c0 : Chain Db = record c { orphan_pool = [] } in
      let shape = scan_orphan_pool_lem waits c waiting in
      let (side, verdict) = scan_pool_lem waits c.orphan_pool c0 in
      rw shape (side, verdict, scan_pool-Unknown waits c.orphan_pool c0)

  -- A scan of a pool that is not empty, while the other goroutines leave the chain as it is, imports no
  -- block, whatever it finds: it empties the pool, and changes nothing else but the side branches. It
  -- stops half-way exactly when one of the orphans fits, which is when the orphan should be imported, or
  -- the lookup of one meets a writer that waits for the lock. Orphans whose parents are all still missing
  -- are lost: after the scan they are neither in the pool nor in a side branch.
  pub scan_orphan_pool_effect :
      (waits : Block → Bool) (gap : Assoc Bytes (List Block) → Chain Db → Chain Db) (c : Chain Db)
      → ((pool : Assoc Bytes (List Block)) (d : Chain Db) → gap pool d ≡ d)
      → c.orphan_pool ≢ []
      → let c0 : Chain Db = record c { orphan_pool = [] } in
        let (blocked, c') = scan_orphan_pool waits gap c in
        (c' ≡ record c0 { side_branches = c'.side_branches })
        × (blocked ≡ any_fits (pool_stops waits c0 c.orphan_pool))
        × (AllUnknown c0 c.orphan_pool → c' ≡ c0)
  scan_orphan_pool_effect waits gap c idle waiting =
      let same : gap ≡ no_gap = λ i pool d. idle pool d i in
      subst (λ g. Scanned waits c (scan_orphan_pool waits g c)) (sym same)
        (scan_alone waits c waiting)
