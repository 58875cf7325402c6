-- ===== src/Daemon/Restart.antt =====
-- A daemon that comes up again.
use poai.Prelude.{
  zero, suc, ◌≤◌, ◌<◌, ◌≡◌, ◌⊎◌, none, some, ◌^◌, Bool, List, ℕ, refl, sym, ap, subst, ◌∙◌, inl,
  inr, true, false, [], Bytes, arith, if◌then◌else◌, ltb, nat_eq, bytes_eq,
}
use poai.Prelude.Assoc.{Assoc, insert}
use poai.Prelude.Int.{ℤ}
use poai.Result.{Result, ok, err, Result-cases}
use poai.Block.{Block, block_hash}
use poai.Store.{get_block, get_tip_height}
use poai.Chain.{Env, Chain, subscribe_to_head_changes}
use poai.Chain.Load.{empty_chain, new_chain, load_height, load_loop, load_below, reindex_from_db}
use poai.Chain.Mirror.{read_of, load_below-db, load_loop-ends, reindex_shape}
use poai.Chain.Start.{new_chain_shape, load_below-head}
use poai.Broadcast.{Broadcaster, new_local_broadcaster}
use poai.Daemon.{scan_if_waiting, start_node}

module _ {Db : Type 0} (env : Env Db) (target : ℤ) (db : Db) where
  abbrev loaded : ℕ → Chain Db
  loaded n = load_below env n (empty_chain env target db)

  -- Loading leaves all but the blocks, the index and the head.
  abbrev framed : Chain Db → Chain Db
  framed c = record (empty_chain env target db) {
    blocks = c.blocks;
    block_hash_index = c.block_hash_index;
    head = c.head;
  }

  loaded-framed : (n : ℕ) → loaded n ≡ framed (loaded n)
  unfolding load_below load_height
  loaded-framed zero = refl
  loaded-framed (suc n) =
      let before = loaded-framed n in
      elim (Result-cases (get_block env.store env.codec n (loaded n).db)) [
        | inr (e, missing) ↦ rw (missing, load_height) before
        | inl (b, found) ↦
            rw (found, load_height)
              (ap
                (λ (d : Chain Db). record d {
                  blocks = insert n b d.blocks;
                  block_hash_index = insert (block_hash env.crypto b) b d.block_hash_index;
                  head = if ltb d.head n then n else d.head;
                })
                before)
      ]

  -- No readable block below `n` is above the head.
  abbrev Bounded : ℕ → ℕ → Type 0
  Bounded n head =
      (k : ℕ) → k < n → (read_of (get_block env.store env.codec k db) ≡ none) ⊎ (k ≤ head)

  load_height_again :
      (n head : ℕ)
      → (read_of (get_block env.store env.codec n db) ≡ none) ⊎ (n ≤ head)
      → load_height env n (record (loaded n) { head = head })
        ≡ record (load_height env n (loaded n)) { head = head }
  unfolding load_height
  load_height_again n head within =
      elim (Result-cases (get_block env.store env.codec n (loaded n).db)) [
        | inr (e, missing) ↦ rw (missing, load_height) refl
        | inl (b, found) ↦
            let readable = rw (load_below-db env n (empty_chain env target db)) at found in
            let low : ltb head n ≡ false = elim within [
              | inl gone ↦ absurd (ground arith)
              | inr le ↦ ground arith
            ] in
            rw (found, load_height, low) refl
      ]

  -- Loading again from a head that no readable block is above.
  loaded_again :
      (n head : ℕ)
      → Bounded n head
      → load_below env n (record (empty_chain env target db) { head = head })
        ≡ record (loaded n) { head = head }
  unfolding load_below
  loaded_again zero head bounded = refl
  loaded_again (suc n) head bounded =
      ap (load_height env n) (loaded_again n head (λ k h. bounded k (omega (arith, h))))
      ∙ load_height_again n head (bounded n (omega arith))

  -- Loading again what was loaded changes nothing.
  cleared_again :
      (n : ℕ)
      → load_below env n (record (loaded n) { blocks = []; block_hash_index = [] }) ≡ loaded n
  cleared_again n =
      ap (λ (c : Chain Db). load_below env n (record c { blocks = []; block_hash_index = [] }))
        (loaded-framed n)
      ∙ loaded_again n (loaded n).head
          (λ k h. load_below-head env n k (empty_chain env target db) h)

  reindex_loaded :
      (tip : ℕ)
      → get_tip_height env.store db ≡ ok tip
      → reindex_from_db env (loaded (suc tip)) ≡ (ok tt, loaded (suc tip))
  reindex_loaded tip has_tip =
      let n = suc tip in
      let still : get_tip_height env.store (loaded n).db ≡ ok tip =
        ap (get_tip_height env.store) (load_below-db env n (empty_chain env target db)) ∙ has_tip in
      reindex_shape env (loaded n) tip still ∙ ap (λ c. (ok tt, c)) (cleared_again n)

  -- A reindex after `NewChain` gives the same chain again.
  pub reindex_again :
      (now : ℤ × ℤ) (tip k : ℕ) (b : Block)
      → get_tip_height env.store db ≡ ok tip
      → k ≤ tip
      → get_block env.store env.codec k db ≡ ok b
      → reindex_from_db env (new_chain env now target db) ≡ (ok tt, new_chain env now target db)
  reindex_again now tip k b has_tip le readable =
      let shape = new_chain_shape env now target db tip k b has_tip le readable in
      ap (reindex_from_db env) shape ∙ reindex_loaded tip has_tip ∙ ap (λ c. (ok tt, c)) (sym shape)

  scan_if_waiting_empty :
      (waits : Block → Bool) (gap : Assoc Bytes (List Block) → Chain Db → Chain Db) (c : Chain Db)
      → c.orphan_pool ≡ []
      → scan_if_waiting env waits gap c ≡ c
  unfolding scan_if_waiting
  scan_if_waiting_empty waits gap c empty = rw empty refl

  start_node_up :
      (waits : Block → Bool) (gap : Assoc Bytes (List Block) → Chain Db → Chain Db) (now : ℤ × ℤ)
      (files : Assoc Bytes Bytes) (tip : ℕ)
      → get_tip_height env.store db ≡ ok tip
      → new_chain env now target db ≡ loaded (suc tip)
      → let c : Chain Db = record (new_chain env now target db) { has_callback = true } in
        start_node env waits gap now target files db
        ≡ ok (new_local_broadcaster files (subscribe_to_head_changes c))
  unfolding start_node
  start_node_up waits gap now files tip has_tip shape =
      let c = loaded (suc tip) in
      let scanned =
        scan_if_waiting_empty waits gap c
          (ap (λ (d : Chain Db). d.orphan_pool) (loaded-framed (suc tip))) in
      let up : Chain Db → Result (Broadcaster Db) = λ d. ok (
        new_local_broadcaster files
          (subscribe_to_head_changes (record d { has_callback = true }))) in
      ap
        (λ (p : Result (Unit {0}) × Chain Db). elim p.0 as (λ x. Result (Broadcaster Db)) [
          | err e ↦ err e
          | ok _ ↦ up (scan_if_waiting env waits gap p.1)
        ])
        (ap (reindex_from_db env) shape ∙ reindex_loaded tip has_tip)
      ∙ ap up (scanned ∙ sym shape)

  -- On a database that has a tip below 2 ^ 64 - 1 and a readable block at or below it, the daemon comes
  -- up: the loop of `NewChain` and that of the reindex after it both end, after at most tip + 2 tests,
  -- with the same chain; no orphan waits, and the files are all to be looked at.
  pub start_node_restart :
      (waits : Block → Bool) (gap : Assoc Bytes (List Block) → Chain Db → Chain Db) (now : ℤ × ℤ)
      (files : Assoc Bytes Bytes) (fuel tip k : ℕ) (b : Block)
      → suc tip < 2 ^ 64
      → suc tip < fuel
      → get_tip_height env.store db ≡ ok tip
      → k ≤ tip
      → get_block env.store env.codec k db ≡ ok b
      → let c = new_chain env now target db in
        (load_loop env fuel 0 tip (empty_chain env target db) ≡ some c)
        × (load_loop env fuel 0 tip (record c { blocks = []; block_hash_index = [] }) ≡ some c)
        × (start_node env waits gap now target files db
            ≡ ok (
                new_local_broadcaster files
                  (subscribe_to_head_changes (record c { has_callback = true }))))
  start_node_restart waits gap now files fuel tip k b fits enough has_tip le readable =
      let shape = new_chain_shape env now target db tip k b has_tip le readable in
      let n = suc tip in
      let cleared : Chain Db = record (loaded n) { blocks = []; block_hash_index = [] } in
      let again : load_loop env fuel 0 tip cleared ≡ some (loaded n) =
        load_loop-ends env fuel tip cleared fits enough ∙ ap some (cleared_again n) in
      (
        load_loop-ends env fuel tip (empty_chain env target db) fits enough ∙ ap some (sym shape),
        subst
            (λ (c : Chain Db).
              load_loop env fuel 0 tip (record c { blocks = []; block_hash_index = [] }) ≡ some c)
            (sym shape) again,
        start_node_up waits gap now files tip has_tip shape,
      )
