-- ===== src/Chain/Start.antt =====
-- The chain that `NewChain` brings up.
use poai.Prelude.{
  ℕ, zero, suc, ◌≤◌, ◌<◌, ltb, ◌≡◌, refl, ap, ◌≢◌, ◌⊎◌, inl, inr, none, some, ◌^◌, List, [], ◌∷◌,
  if◌then◌else◌, arith, Bool-cases, nat_eq, bytes_eq,
}
use poai.Prelude.Assoc.{lookup, lookup-insert, lookup-insert_self}
use poai.Prelude.Int.{ℤ}
use poai.Result.{Result-cases, ok}
use poai.Block.{Block}
use poai.Store.{get_block, get_tip_height}
use poai.Chain.{Env, Chain}
use poai.Chain.Heads.{HasHead}
use poai.Chain.Mirror.{read_of, load_below-db, load_below-lookup, load_loop-ends}
use poai.Chain.Load.{
  genesis_block, create_genesis, genesis_if_empty, empty_chain, load_height, load_loop, load_below,
  load_stored, new_chain,
}

pub nil-cases :
    {A : Type 0} (xs : List A) → (xs ≡ []) ⊎ ((x : A) × ((rest : List A) × (xs ≡ x ∷ rest)))
nil-cases [] = inl refl
nil-cases (x ∷ rest) = inr (x, (rest, refl))

module _ {Db : Type 0} (env : Env Db) where
  -- No block is loaded and the head is zero, or the head is loaded.
  abbrev IsLoading : Chain Db → Type 0
  IsLoading c = ((c.blocks ≡ []) × (c.head ≡ 0)) ⊎ HasHead env c

  load_height-IsLoading : (h : ℕ) (c : Chain Db) → IsLoading c → IsLoading (load_height env h c)
  unfolding load_height
  load_height-IsLoading h c v = elim (Result-cases (get_block env.store env.codec h c.db)) [
    | inr (e, missing) ↦ rw (missing, load_height) v
    | inl (b, found) ↦
        rw (found, load_height)
          (elim (Bool-cases (ltb c.head h)) [
            | inl above ↦
                rw above (inr (λ gone. ground (arith, gone, lookup-insert_self h b c.blocks)))
            | inr below ↦ rw below (
                inr (λ gone. elim v [
                  | inl (_, start) ↦ ground (arith, gone, lookup-insert c.head h b c.blocks)
                  | inr has ↦ ground (arith, gone, has, lookup-insert c.head h b c.blocks)
                ]))
          ])
  ]

  load_below-IsLoading : (n : ℕ) (c : Chain Db) → IsLoading c → IsLoading (load_below env n c)
  unfolding load_below
  load_below-IsLoading zero c v = v
  load_below-IsLoading (suc n) c v =
      load_height-IsLoading n (load_below env n c) (load_below-IsLoading n c v)

  load_height-head :
      (h : ℕ) (c : Chain Db)
      → (c.head ≤ (load_height env h c).head)
        × ((read_of (get_block env.store env.codec h c.db) ≡ none)
            ⊎ (h ≤ (load_height env h c).head))
  unfolding load_height
  load_height-head h c = elim (Result-cases (get_block env.store env.codec h c.db)) [
    | inr (e, missing) ↦ (rw (missing, load_height) (omega arith), inl (rw missing refl))
    | inl (b, found) ↦
        (rw (found, load_height) (ground arith), inr (rw (found, load_height) (ground arith)))
  ]

  -- Every height that is read is at most the head.
  pub load_below-head :
      (n k : ℕ) (c : Chain Db)
      → k < n
      → (read_of (get_block env.store env.codec k c.db) ≡ none) ⊎ (k ≤ (load_below env n c).head)
  unfolding load_below
  load_below-head zero k c h = absurd (omega arith)
  load_below-head (suc n) k c h =
      let below = load_below env n c in
      let (up, at_n) = load_height-head n below in
      elim (Bool-cases (ltb k n)) [
        | inl lower ↦ elim (load_below-head n k c (ground arith)) [
          | inl missing ↦ inl missing
          | inr le ↦ inr (omega (arith, le, up))
        ]
        | inr last ↦
            let same : k ≡ n = ground arith in
            rw same (elim at_n [
              | inl missing ↦ inl (rw (load_below-db env n c) at missing)
              | inr le ↦ inr le
            ])
      ]

  load_stored-IsLoading : (c : Chain Db) → IsLoading c → IsLoading (load_stored env c)
  unfolding load_stored
  load_stored-IsLoading c v = elim (Result-cases (get_tip_height env.store c.db)) [
    | inr (e, no_tip) ↦ rw (no_tip, load_stored) v
    | inl (tip, found) ↦ rw (found, load_stored) (load_below-IsLoading (suc tip) c v)
  ]

  genesis_if_empty-HasHead :
      (now : ℤ × ℤ) (c : Chain Db) → IsLoading c → HasHead env (genesis_if_empty env now c)
  unfolding genesis_if_empty create_genesis
  genesis_if_empty-HasHead now c v = elim (nil-cases c.blocks) [
    | inl empty ↦
        rw (empty, genesis_if_empty)
          (λ gone.
            ground
              (arith, gone, lookup-insert_self 0 (genesis_block now c.genesis_target) c.blocks))
    | inr (e, (rest, full)) ↦
        rw (full, genesis_if_empty)
          (elim v [ inl (empty, _) ↦ absurd (ground arith) | inr has ↦ has ])
  ]

  genesis_if_empty_full :
      (now : ℤ × ℤ) (k : ℕ) (c : Chain Db)
      → lookup k c.blocks ≢ none
      → genesis_if_empty env now c ≡ c
  unfolding genesis_if_empty
  genesis_if_empty_full now k c full = elim (nil-cases c.blocks) [
    | inl empty ↦ absurd (full (rw empty refl))
    | inr (e, (rest, shape)) ↦
        rw (shape, genesis_if_empty) (ap (λ bs. record c { blocks = bs }) shape)
  ]

  -- A chain that comes up has its head in memory, whatever the database holds.
  pub new_chain-HasHead :
      (now : ℤ × ℤ) (target : ℤ) (db : Db) → HasHead env (new_chain env now target db)
  unfolding new_chain
  new_chain-HasHead now target db =
      let c0 = empty_chain env target db in
      genesis_if_empty-HasHead now (load_stored env c0)
        (load_stored-IsLoading c0 (inl (refl, refl)))

  pub new_chain_shape :
      (now : ℤ × ℤ) (target : ℤ) (db : Db) (tip k : ℕ) (b : Block)
      → get_tip_height env.store db ≡ ok tip
      → k ≤ tip
      → get_block env.store env.codec k db ≡ ok b
      → new_chain env now target db ≡ load_below env (suc tip) (empty_chain env target db)
  unfolding new_chain load_stored
  new_chain_shape now target db tip k b has_tip le readable =
      let c0 = empty_chain env target db in
      let loaded = load_below-lookup env (suc tip) k c0 in
      rw (has_tip, load_stored)
        (genesis_if_empty_full now k (load_below env (suc tip) c0)
          (λ gone. ground (arith, gone, loaded)))

  -- A node that restarts on a database with a tip below 2 ^ 64 - 1, and a readable block at or below it,
  -- comes up: the loop over the heights ends after at most tip + 2 tests, with the chain that the node
  -- has. In memory are the readable blocks up to the tip and no others, the head is the highest of them,
  -- and nothing is written.
  pub new_chain_restart :
      (now : ℤ × ℤ) (target : ℤ) (db : Db) (fuel tip k : ℕ) (b : Block)
      → suc tip < 2 ^ 64
      → suc tip < fuel
      → get_tip_height env.store db ≡ ok tip
      → k ≤ tip
      → get_block env.store env.codec k db ≡ ok b
      → let c = new_chain env now target db in
        (load_loop env fuel 0 tip (empty_chain env target db) ≡ some c)
        × (c.db ≡ db)
        × ((j : ℕ)
            → lookup j c.blocks
              ≡ (if ltb j (suc tip) then read_of (get_block env.store env.codec j db) else none))
        × (lookup c.head c.blocks ≢ none)
        × ((j : ℕ) → (lookup j c.blocks ≡ none) ⊎ (j ≤ c.head))
  new_chain_restart now target db fuel tip k b fits enough has_tip le readable =
      let c0 = empty_chain env target db in
      let shape = new_chain_shape now target db tip k b has_tip le readable in
      let has_head = rw shape at (new_chain-HasHead now target db) in
      rw shape (
        load_loop-ends env fuel tip c0 fits enough,
        load_below-db env (suc tip) c0,
        λ j. mirrored j,
        has_head,
        λ j. elim (Bool-cases (ltb j (suc tip))) [
          | inr above ↦ inl (ground (arith, mirrored j))
          | inl within ↦ elim (load_below-head (suc tip) j c0 (ground arith)) [
            | inl missing ↦ inl (ground (arith, mirrored j))
            | inr le' ↦ inr le'
          ]
        ],
      )
    where
      mirrored :
          (j : ℕ)
          → lookup j (load_below env (suc tip) (empty_chain env target db)).blocks
            ≡ (if ltb j (suc tip) then read_of (get_block env.store env.codec j db) else none)
      mirrored j =
          let loaded = load_below-lookup env (suc tip) j (empty_chain env target db) in
          ground (arith, loaded)
