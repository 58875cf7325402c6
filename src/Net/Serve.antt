-- ===== src/Net/Serve.antt =====
-- What a node serves to a block request.
use poai.Prelude.{
  ℕ, zero, suc, ◌+◌, ◌-◌, ◌%◌, ◌^◌, ◌≤◌, ◌<◌, ◌≡◌, refl, ap, ◌∙◌, inl, inr, none, some, List, [],
  false, ltb, leb, arith, length, Bool-cases, nat_eq, bytes_eq,
}
use poai.Block.{Block}
use poai.Chain.{Chain, block_by_height}
use poai.Net.{BlockRequest, succ_u64, with_block, clamp_request, serve, handle_block_req}

module _ {Db : Type 0} (c : Chain Db) where
  -- The blocks in memory of `n` heights from `h` up.
  abbrev pub blocks_from : ℕ → ℕ → List Block
  blocks_from h zero = []
  blocks_from h (suc n) = with_block (block_by_height h c) (blocks_from (suc h) n)

  length-blocks_from : (h n : ℕ) → length (blocks_from h n) ≤ n
  length-blocks_from h zero = omega arith
  length-blocks_from h (suc n) = ground (arith, length-blocks_from (suc h) n)

  serve_forever : (fuel h : ℕ) → h < 2 ^ 64 → serve fuel h (2 ^ 64 - 1) c ≡ none
  unfolding serve
  serve_forever zero h fits = refl
  serve_forever (suc fuel) h fits =
      let rest = serve_forever fuel (succ_u64 h) (omega arith) in ground (arith, rest)

  -- A request, both heights of which are 64-bit numbers, asks for `n` heights after the clamp.
  abbrev pub span_of : BlockRequest → ℕ
  span_of req = (clamp_request req).to_height + 1 - req.from_height

  clamp_request_bounds :
      (req : BlockRequest)
      → req.from_height < 2 ^ 64
      → req.to_height < 2 ^ 64
      → ((clamp_request req).from_height ≡ req.from_height)
        × ((clamp_request req).to_height < 2 ^ 64)
        × (span_of req ≤ 513)
  unfolding clamp_request
  clamp_request_bounds req hf ht = ground arith

  serve_ends :
      (fuel h n to : ℕ)
      → n < fuel
      → to + 1 ≡ h + n
      → to + 1 < 2 ^ 64
      → serve fuel h to c ≡ some (blocks_from h n)
  unfolding serve
  serve_ends zero h n to le e fits = absurd (omega arith)
  serve_ends (suc fuel) h zero to le e fits = ground arith
  serve_ends (suc fuel) h (suc n) to le e fits =
      let rest = serve_ends fuel (suc h) n to (omega arith) (omega arith) fits in
      let next : succ_u64 h ≡ suc h = omega arith in ground (arith, rest, next)

  serve_empty : (fuel h to : ℕ) → 0 < fuel → to < h → serve fuel h to c ≡ some []
  unfolding serve
  serve_empty zero h to le above = absurd (omega arith)
  serve_empty (suc fuel) h to le above = ground arith

  serve_range :
      (fuel h to : ℕ)
      → to + 1 - h < fuel
      → to + 1 < 2 ^ 64
      → serve fuel h to c ≡ some (blocks_from h (to + 1 - h))
  serve_range fuel h to enough fits = elim (Bool-cases (leb h to)) [
    | inl up ↦ serve_ends fuel h (to + 1 - h) to enough (ground arith) fits
    | inr down ↦
        let none_left : to + 1 - h ≡ 0 = ground arith in
        rw none_left (serve_empty fuel h to (omega arith) (ground arith))
  ]

  -- A request whose clamped end is not the last 64-bit height is answered, within 514 rounds of the
  -- loop, with the blocks in memory of the heights from its start to that end: 513 at most, and none if
  -- the end is below the start.
  pub handle_block_req_serves :
      (req : BlockRequest) (fuel : ℕ)
      → 514 ≤ fuel
      → req.from_height < 2 ^ 64
      → req.to_height < 2 ^ 64
      → (clamp_request req).to_height + 1 < 2 ^ 64
      → let blocks = blocks_from req.from_height (span_of req) in
        (handle_block_req fuel req c ≡ some blocks) × (length blocks ≤ 513)
  unfolding handle_block_req
  handle_block_req_serves req fuel enough hf ht fits =
      let (same, _, short) = clamp_request_bounds req hf ht in
      let bounded = length-blocks_from req.from_height (span_of req) in
      (
        ap (λ h. serve fuel h (clamp_request req).to_height c) same
            ∙ serve_range fuel req.from_height (clamp_request req).to_height (omega (arith, short))
                fits,
        omega (arith, bounded, short),
      )

  -- A request that ends at the last 64-bit height, and starts at most 512 below it, is never answered:
  -- the loop runs on past every bound, because its counter wraps.
  pub handle_block_req_forever :
      (req : BlockRequest) (fuel : ℕ)
      → req.to_height ≡ 2 ^ 64 - 1
      → 2 ^ 64 - 513 ≤ req.from_height
      → req.from_height < 2 ^ 64
      → handle_block_req fuel req c ≡ none
  unfolding handle_block_req clamp_request
  handle_block_req_forever req fuel last near hf =
      let endless = serve_forever fuel req.from_height hf in
      let kept : ltb 512 ((req.to_height + 2 ^ 64 - req.from_height) % 2 ^ 64) ≡ false =
        ground arith in
      rw (kept, clamp_request, last) endless
