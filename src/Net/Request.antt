-- ===== src/Net/Request.antt =====
-- What a node that misses blocks asks for, and what its peer then serves.
use Prim.Native.Nat.{min}
use poai.Prelude.{
  ℕ, zero, suc, ◌+◌, ◌-◌, ◌^◌, ◌≤◌, ◌<◌, ◌≡◌, refl, ap, ◌∙◌, ◌≢◌, ◌⊎◌, inl, inr, Option, none, some,
  List, Bytes, ◌==◌, nat_eq, bytes_eq, true, false, if◌then◌else◌, ltb, leb, arith, Bool-cases,
  Option-cases, ==→eq, ==_refl,
}
use poai.Crypto.{Crypto}
use poai.Block.{Block, block_hash}
use poai.Chain.{Chain, block_by_height, current_height}
use poai.Net.{
  BlockRequest, NewHeadMsg, Node, succ_u64, clamp_request, handle_block_req, handle_new_head,
  has_hash_below, waiting, request_block_by_hash,
}
use poai.Net.Serve.{blocks_from, handle_block_req_serves, span_of}

-- What a peer answers to what a node has asked.
abbrev pub answer : {Db : Type 0} → ℕ → Option BlockRequest → Chain Db → Option (List Block)
answer fuel none peer = none
answer fuel (some req) peer = handle_block_req fuel req peer

module _ {Db : Type 0} (peer : Chain Db) where
  -- What is served of a range that is not empty.
  ranged :
      (req : BlockRequest) (fuel : ℕ)
      → 514 ≤ fuel
      → req.from_height ≤ req.to_height
      → req.to_height + 1 < 2 ^ 64
      → handle_block_req fuel req peer
        ≡ some (blocks_from peer req.from_height (min 513 (req.to_height + 1 - req.from_height)))
  unfolding clamp_request
  ranged req fuel enough up fits =
      let span : span_of peer req ≡ min 513 (req.to_height + 1 - req.from_height) = ground arith in
      (handle_block_req_serves peer req fuel enough (omega arith) (omega arith) (ground arith)).0
      ∙ ap (λ n. some (blocks_from peer req.from_height n)) span

  -- A node that hears of a head above its own remembers the greatest height that it has heard of, and
  -- the peer that answers its request sends the blocks that it has from the node's next height up to
  -- the announced one, as far as 513 heights go.
  pub handle_new_head_served :
      (msg : NewHeadMsg) (n : Node Db) (fuel : ℕ)
      → 514 ≤ fuel
      → n.chain.head < msg.height
      → msg.height + 1 < 2 ^ 64
      → let (req, n') = handle_new_head msg n in
        (answer fuel req peer
          ≡ some (blocks_from peer (n.chain.head + 1) (min 513 (msg.height - n.chain.head))))
        × (n.best_known_height ≤ n'.best_known_height)
        × (msg.height ≤ n'.best_known_height)
        × (n'.chain ≡ n.chain)
  unfolding handle_new_head current_height
  handle_new_head_served msg n fuel enough above fits =
      let nonzero : (msg.height == 0) ≡ false = ground arith in
      let ahead : leb msg.height n.chain.head ≡ false = ground arith in
      let req : BlockRequest = record { from_height = n.chain.head + 1; to_height = msg.height } in
      let next : succ_u64 n.chain.head ≡ n.chain.head + 1 = omega arith in
      let left : msg.height + 1 - (n.chain.head + 1) ≡ msg.height - n.chain.head = omega arith in
      rw (nonzero, ahead, next)
        (
          ranged req fuel enough (omega arith) fits
              ∙ ap (λ k. some (blocks_from peer (n.chain.head + 1) (min 513 k))) left,
          ground arith,
          ground arith,
          refl,
        )

module _ {Db : Type 0} (crypto : Crypto) (parent_hash : Bytes) (c : Chain Db) where
  -- The hash of the block in memory at a height.
  abbrev pub hash_at : ℕ → Option Bytes
  hash_at h = elim (block_by_height h c) [ none ↦ none | some b ↦ some (block_hash crypto b) ]

  has_hash_below_found :
      (n : ℕ)
      → has_hash_below crypto parent_hash n c ≡ true
      → (h : ℕ) × ((h < n) × (hash_at h ≡ some parent_hash))
  unfolding has_hash_below
  has_hash_below_found zero e = absurd (ground arith)
  has_hash_below_found (suc n) e = elim (Option-cases (block_by_height n c)) [
    | inl missing ↦
        let (h, (lt, at_h)) = has_hash_below_found n (ground arith) in (h, (omega arith, at_h))
    | inr (b, found) ↦ elim (Bool-cases (block_hash crypto b == parent_hash)) [
      | inl same ↦ (
        n,
        (omega arith, rw (found, hash_at) (ap some (==→eq (block_hash crypto b) parent_hash same))),
      )
      | inr other ↦
          let (h, (lt, at_h)) = has_hash_below_found n (ground arith) in (h, (omega arith, at_h))
    ]
  ]

  has_hash_below_present :
      (n h : ℕ)
      → h < n
      → hash_at h ≡ some parent_hash
      → has_hash_below crypto parent_hash n c ≡ true
  unfolding has_hash_below
  has_hash_below_present zero h lt at_h = absurd (omega arith)
  has_hash_below_present (suc n) h lt at_h = elim (Bool-cases (ltb h n)) [
    | inl lower ↦ let rest = has_hash_below_present n h (ground arith) at_h in ground (arith, rest)
    | inr last ↦
        let same : h ≡ n = ground arith in
        let at_n : hash_at n ≡ some parent_hash = rw same at at_h in
        elim (Option-cases (block_by_height n c)) [
          | inl missing ↦ absurd (ground arith)
          | inr (b, found) ↦
              let hashed : block_hash crypto b ≡ parent_hash = ground arith in
              rw (found, has_hash_below, hashed, ==_refl parent_hash) refl
        ]
  ]

  -- No request is made exactly when a block up to the head has the wanted hash. Otherwise one request
  -- for a range that is not empty is made.
  pub request_block_by_hash_cases :
      ((request_block_by_hash crypto parent_hash c ≡ none)
        × ((h : ℕ) × ((h ≤ c.head) × (hash_at h ≡ some parent_hash))))
      ⊎ ((req : BlockRequest) × ((request_block_by_hash crypto parent_hash c ≡ some req)
            × ((req.from_height ≤ req.to_height)
                × ((h : ℕ) → (c.head < h) ⊎ (hash_at h ≢ some parent_hash)))))
  unfolding request_block_by_hash current_height
  request_block_by_hash_cases =
      elim (Bool-cases (has_hash_below crypto parent_hash (suc c.head) c)) [
        | inl known ↦
            let (h, (lt, at_h)) = has_hash_below_found (suc c.head) known in
            inl (rw (known, request_block_by_hash) refl, (h, (omega arith, at_h)))
        | inr unknown ↦ inr (elim (Option-cases (waiting parent_hash c.orphan_pool)) [
          | inl nobody ↦ (
            fallback,
            (
              rw (unknown, nobody, request_block_by_hash) refl,
              (fallback_up, λ h. absent unknown h),
            ),
          )
          | inr (orphan, waits) ↦ elim (Bool-cases (ltb 1 orphan.header.height)) [
            | inr low ↦ (
              fallback,
              (
                rw (unknown, waits, low, request_block_by_hash) refl,
                (fallback_up, λ h. absent unknown h),
              ),
            )
            | inl high ↦ (
              record { from_height = 1; to_height = orphan.header.height },
              (
                rw (unknown, waits, high, request_block_by_hash) refl,
                (ground arith, λ h. absent unknown h),
              ),
            )
          ]
        ])
      ]
    where
      fallback : BlockRequest
      fallback = record {
        from_height = if ltb 100 c.head then c.head - 100 else 0;
        to_height = c.head;
      }

      fallback_up : fallback.from_height ≤ fallback.to_height
      fallback_up = ground arith

      absent :
          (unknown : has_hash_below crypto parent_hash (suc c.head) c ≡ false)
          → (h : ℕ) → (c.head < h) ⊎ (hash_at h ≢ some parent_hash)
      absent unknown h = elim (Bool-cases (ltb c.head h)) [
        | inl above ↦ inl (ground arith)
        | inr within ↦ inr (λ at_h.
            (let present = has_hash_below_present (suc c.head) h (ground arith) at_h in
              ground arith))
      ]

  -- A node that waits for the parent of an orphan far ahead, above height 513, asks for every block from
  -- height 1, and its peer sends the blocks of the heights 1 to 513: the missing parent is not among
  -- them unless it is that low.
  pub far_orphan_served :
      (orphan : Block) (peer : Chain Db) (fuel : ℕ)
      → 514 ≤ fuel
      → has_hash_below crypto parent_hash (suc c.head) c ≡ false
      → waiting parent_hash c.orphan_pool ≡ some orphan
      → 513 < orphan.header.height
      → orphan.header.height + 1 < 2 ^ 64
      → answer fuel (request_block_by_hash crypto parent_hash c) peer
        ≡ some (blocks_from peer 1 513)
  unfolding request_block_by_hash current_height
  far_orphan_served orphan peer fuel enough unknown waits far fits =
      let high : ltb 1 orphan.header.height ≡ true = ground arith in
      let req : BlockRequest = record { from_height = 1; to_height = orphan.header.height } in
      let count : min 513 (orphan.header.height + 1 - 1) ≡ 513 = omega arith in
      rw (unknown, waits, request_block_by_hash, high)
        (ranged peer req fuel enough (omega arith) fits
          ∙ ap (λ n. some (blocks_from peer 1 n)) count)
