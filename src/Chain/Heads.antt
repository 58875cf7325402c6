-- ===== src/Chain/Heads.antt =====
-- The head of the chain: it is a block in memory, and how imports and reorganisations move it.
use poai.Prelude.{
  ℕ, false, ◌<◌, ◌≤◌, ◌≡◌, refl, ap, subst, sym, inl, inr, ◌≢◌, none, some, true, List, [], ◌∷◌,
  Bytes, ◌==◌, nat_eq, bytes_eq, if◌then◌else◌, ltb, arith, Bool-cases, last_or,
}
use poai.Prelude.Assoc.{Assoc, lookup, lookup-insert, lookup-insert_self}
use poai.Result.{Result, err, side_branch}
use poai.Block.{Block, block_hash}
use poai.Chain.{Env, Chain, pred_u64, add_to_side_branch, append_at}
use poai.Chain.Import.{Outcome, find_by_hash, import_on, import_core, import_with, import_block}
use poai.Chain.Reorg.{
  apply_block, apply_blocks, reorg_to_branch, consider_branch, consider_branches, check_reorg,
}

module _ {Db : Type 0} (env : Env Db) where
  -- The head is in memory.
  abbrev pub HasHead : Chain Db → Type 0
  HasHead c = lookup c.head c.blocks ≢ none

  -- The head of the chain after the blocks of a branch were applied is the last of them.
  apply_blocks-last :
      (b : Block) (bs : List Block) (c : Chain Db)
      → let c' = apply_blocks env (b ∷ bs) c in
        (c'.head ≡ (last_or b bs).header.height) × (lookup c'.head c'.blocks ≡ some (last_or b bs))
  unfolding apply_blocks apply_block
  apply_blocks-last b [] c = (refl, lookup-insert_self b.header.height b c.blocks)
  apply_blocks-last b (x ∷ bs) c = apply_blocks-last x bs (apply_block env b c)

  consider_branch-head :
      (h : Bytes) (branch : List Block) (c : Chain Db)
      → HasHead c
      → (c.head ≤ (consider_branch env h branch c).head) × HasHead (consider_branch env h branch c)
  unfolding consider_branch reorg_to_branch
  consider_branch-head h [] c v = (omega arith, v)
  consider_branch-head h (b ∷ bs) c v =
      let (new_head, tip) = apply_blocks-last b bs (record c { head = pred_u64 b.header.height }) in
      elim (Bool-cases (ltb c.head (last_or b bs).header.height)) [
        | inl taller ↦ rw taller (ground (arith, new_head), λ gone. ground (arith, tip))
        | inr not_taller ↦ rw not_taller (omega arith, v)
      ]

  consider_branches-head :
      (branches : Assoc Bytes (List Block)) (c : Chain Db)
      → HasHead c
      → (c.head ≤ (consider_branches env branches c).head)
        × HasHead (consider_branches env branches c)
  unfolding consider_branches
  consider_branches-head [] c v = (omega arith, v)
  consider_branches-head ((h, branch) ∷ rest) c v =
      let (up, v') = consider_branch-head h branch c v in
      let (up', v'') = consider_branches-head rest (consider_branch env h branch c) v' in
      (omega (arith, up, up'), v'')

  -- A reorganisation never lowers the head, and its new head is a block in memory.
  pub check_reorg-head :
      (c : Chain Db) → HasHead c → (c.head ≤ (check_reorg env c).head) × HasHead (check_reorg env c)
  unfolding check_reorg
  check_reorg-head c v = consider_branches-head c.side_branches c v

  -- The block is the head, and the other heights are as they were.
  abbrev pub IsOvertaken : Block → Chain Db → Chain Db → Type 0
  IsOvertaken b c c' =
      (c'.head ≡ b.header.height)
      × ((k : ℕ)
          → lookup k c'.blocks ≡ (if b.header.height == k then some b else lookup k c.blocks))

  stray_branch :
      (p : Bytes) (b : Block) (c : Chain Db)
      → c.head < b.header.height
      → IsOvertaken b c (consider_branches env ((p, b ∷ []) ∷ []) c)
  unfolding consider_branches consider_branch reorg_to_branch apply_blocks apply_block
  stray_branch p b c tall =
      let taller : ltb c.head b.header.height ≡ true = ground arith in
      rw taller (refl, λ k. lookup-insert k b.header.height b c.blocks)

  -- A block with a parent in the chain that is not one height below it, at a free height.
  record IsStray (b parent : Block) (c : Chain Db) : Type 0 where
    pub free : lookup b.header.height c.blocks ≡ none
    pub found : find_by_hash (block_hash env.crypto) b.header.parent_hash c.blocks ≡ some parent
    pub apart : (parent.header.height == pred_u64 b.header.height) ≡ false

  stray_core :
      (gap : Chain Db → Chain Db) (b parent : Block) (c : Chain Db)
      → IsStray b parent c
      → import_core env gap b c ≡ (err side_branch, add_to_side_branch b c)
  unfolding import_core import_on
  stray_core gap b parent c h = rw (h.free, import_core, h.found, h.apart, import_on) refl

  stray_import :
      (gap : Chain Db → Chain Db) (b parent : Block) (c : Chain Db)
      → IsStray b parent c
      → import_block env gap b c ≡ (err side_branch, add_to_side_branch b c)
  unfolding import_block import_with
  stray_import gap b parent c h =
      let refused = stray_core gap b parent c h in
      rw (ap (λ (p : Result Outcome × Chain Db). p.0) refused, import_block, import_with)
        (ap (λ (p : Result Outcome × Chain Db). (err side_branch, p.1)) refused)

  stray_check :
      (b : Block) (c : Chain Db)
      → c.side_branches ≡ []
      → c.head < b.header.height
      → IsOvertaken b c (check_reorg env (add_to_side_branch b c))
  unfolding check_reorg add_to_side_branch
  stray_check b c none_yet tall =
      let c1 = add_to_side_branch b c in
      subst (λ m. IsOvertaken b c (consider_branches env m c1))
        (ap (λ m. append_at b.header.parent_hash b m) (sym none_yet))
        (stray_branch b.header.parent_hash b c1 tall)

  -- The import of a block at a free height, whose parent is in the chain but not one height below it, is
  -- refused with an error, but the block is kept: where no side branch waits and the block claims a
  -- height above the head, the next check makes it the head of the chain, whatever lies between.
  pub stray_block_head :
      (gap : Chain Db → Chain Db) (b parent : Block) (c : Chain Db)
      → lookup b.header.height c.blocks ≡ none
      → find_by_hash (block_hash env.crypto) b.header.parent_hash c.blocks ≡ some parent
      → (parent.header.height == pred_u64 b.header.height) ≡ false
      → c.side_branches ≡ []
      → c.head < b.header.height
      → let (r, c') = import_block env gap b c in
        (r ≡ err side_branch) × IsOvertaken b c (check_reorg env c')
  stray_block_head gap b parent c free found apart none_yet tall =
      let refused =
        stray_import gap b parent c (record { free = free; found = found; apart = apart }) in
      rw refused (refl, stray_check b c none_yet tall)
