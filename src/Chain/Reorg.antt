-- ===== src/Chain/Reorg.antt =====
-- Side branches that overtake the chain: `checkReorg` and `reorgToBranch`.
use poai.Prelude.{List, [], ◌∷◌, Bytes, if◌then◌else◌, ltb, last_or, nat_eq, bytes_eq}
use poai.Prelude.Assoc.{Assoc, insert, erase}
use poai.Block.{Block}
use poai.Store.{put_block}
use poai.Chain.{Env, Chain, pred_u64}

module _ {Db : Type 0} (env : Env Db) where
  -- A write that fails is logged; the head moves all the same.
  unfoldable pub apply_block : Block → Chain Db → Chain Db
  apply_block blk c = record c {
    blocks = insert blk.header.height blk c.blocks;
    head = blk.header.height;
    db = (put_block env.store env.codec blk.header.height blk c.db).1;
  }

  unfoldable pub apply_blocks : List Block → Chain Db → Chain Db
  unfolding apply_block
  apply_blocks [] c = c
  apply_blocks (blk ∷ blks) c = apply_blocks blks (apply_block blk c)

  -- `reorgToBranch` on the branch `first ∷ blks`.
  unfoldable pub reorg_to_branch : Block → List Block → Chain Db → Chain Db
  unfolding apply_blocks
  reorg_to_branch first blks c =
      apply_blocks (first ∷ blks) (record c { head = pred_u64 first.header.height })

  -- One round of the loop of `checkReorg`.
  unfoldable pub consider_branch : Bytes → List Block → Chain Db → Chain Db
  unfolding reorg_to_branch
  consider_branch parent_hash [] c = c
  consider_branch parent_hash (first ∷ blks) c =
      if ltb c.head (last_or first blks).header.height
      then (let c' = reorg_to_branch first blks c in
          record c' { side_branches = erase parent_hash c'.side_branches })
      else c

  unfoldable pub consider_branches : Assoc Bytes (List Block) → Chain Db → Chain Db
  unfolding consider_branch
  consider_branches [] c = c
  consider_branches ((parent_hash, branch) ∷ rest) c =
      consider_branches rest (consider_branch parent_hash branch c)

  unfoldable pub check_reorg : Chain Db → Chain Db
  unfolding consider_branches
  check_reorg c = consider_branches c.side_branches c
