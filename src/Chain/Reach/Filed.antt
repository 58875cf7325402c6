-- ===== src/Chain/Reach/Filed.antt =====
-- Where waiting blocks are filed: under the hash of their parent.
use poai.Prelude.{
  ◌≡◌, refl, sym, ◌∙◌, inl, inr, some, List, [], ◌∷◌, ◌++◌, Bytes, ◌==◌, nat_eq, bytes_eq, arith,
  All, Bool-cases, Option-cases, ==→eq, ltb, last_or,
}
use poai.Prelude.Assoc.{Assoc, lookup, erase, lookup-insert, lookup-erase}
use poai.Block.{Block}
use poai.Chain.{Env, Chain, pred_u64, slice_at, append_at}
use mathlib.Core.Option.{some-injective}
use poai.Chain.Reorg.{
  apply_block, apply_blocks, reorg_to_branch, consider_branch, consider_branches, check_reorg,
}

-- Every block of a map of lists has the hash of its list as parent hash.
abbrev pub FiledIn : Assoc Bytes (List Block) → Type 0
FiledIn m =
    (h : Bytes) (bs : List Block) → lookup h m ≡ some bs → All (λ b. b.header.parent_hash ≡ h) bs

All-append {κ} :
    {A : Type 0} (P : A → Type κ) (xs ys : List A) → All P xs → All P ys → All P (xs ++ ys)
All-append P [] ys hx hy = hy
All-append P (x ∷ xs) ys hx hy = (hx.0, All-append P xs ys hx.1 hy)

slice_at-Filed :
    (h : Bytes) (m : Assoc Bytes (List Block))
    → FiledIn m
    → All (λ b. b.header.parent_hash ≡ h) (slice_at h m)
slice_at-Filed h m v = elim (Option-cases (lookup h m)) [
  | inl absent ↦ rw (absent, slice_at) tt
  | inr (bs, found) ↦ rw (found, slice_at) (v h bs found)
]

pub append_at-FiledIn :
    (b : Block) (m : Assoc Bytes (List Block))
    → FiledIn m
    → FiledIn (append_at b.header.parent_hash b m)
append_at-FiledIn b m v h bs e =
    let k = b.header.parent_hash in
    let read = sym (lookup-insert h k (slice_at k m ++ (b ∷ [])) m) ∙ e in
    elim (Bool-cases (k == h)) [
      | inl same ↦
          let shape : slice_at k m ++ (b ∷ []) ≡ bs = some-injective _ _ (rw same at read) in
          rw (← ==→eq k h same) (
            rw (← shape) (
              All-append (λ x. x.header.parent_hash ≡ k) (slice_at k m) (b ∷ [])
                (slice_at-Filed k m v) (refl, tt)))
      | inr other ↦ v h bs (rw other at read)
    ]

pub erase-FiledIn : (k : Bytes) (m : Assoc Bytes (List Block)) → FiledIn m → FiledIn (erase k m)
erase-FiledIn k m v h bs e =
    let read = sym (lookup-erase h k m) ∙ e in
    elim (Bool-cases (k == h)) [
      | inl same ↦ absurd (ground arith)
      | inr other ↦ v h bs (rw other at read)
    ]

module _ {Db : Type 0} (env : Env Db) where
  apply_blocks-branches :
      (bs : List Block) (c : Chain Db) → (apply_blocks env bs c).side_branches ≡ c.side_branches
  unfolding apply_blocks apply_block
  apply_blocks-branches [] c = refl
  apply_blocks-branches (b ∷ bs) c = apply_blocks-branches bs (apply_block env b c)

  consider_branch-FiledIn :
      (h : Bytes) (branch : List Block) (c : Chain Db)
      → FiledIn c.side_branches
      → FiledIn (consider_branch env h branch c).side_branches
  unfolding consider_branch reorg_to_branch
  consider_branch-FiledIn h [] c v = v
  consider_branch-FiledIn h (b ∷ bs) c v =
      elim (Bool-cases (ltb c.head (last_or b bs).header.height)) [
        | inl taller ↦
            rw
              (
                taller,
                apply_blocks-branches (b ∷ bs) (record c { head = pred_u64 b.header.height }),
              )
              (erase-FiledIn h c.side_branches v)
        | inr not_taller ↦ rw not_taller v
      ]

  consider_branches-FiledIn :
      (branches : Assoc Bytes (List Block)) (c : Chain Db)
      → FiledIn c.side_branches
      → FiledIn (consider_branches env branches c).side_branches
  unfolding consider_branches
  consider_branches-FiledIn [] c v = v
  consider_branches-FiledIn ((h, branch) ∷ rest) c v =
      consider_branches-FiledIn rest (consider_branch env h branch c)
        (consider_branch-FiledIn h branch c v)

  pub check_reorg-FiledIn :
      (c : Chain Db) → FiledIn c.side_branches → FiledIn (check_reorg env c).side_branches
  unfolding check_reorg
  check_reorg-FiledIn c v = consider_branches-FiledIn c.side_branches c v
