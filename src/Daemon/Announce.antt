-- ===== src/Daemon/Announce.antt =====
-- Which heads are announced.
use poai.Prelude.{
  ℕ, ◌≡◌, refl, ap, ◌∙◌, inl, inr, Option, none, some, true, false, List, [], ◌∷◌, All, ◌==◌,
  nat_eq, bytes_eq, if◌then◌else◌, arith, Bool-cases, map,
}
use poai.Prelude.Assoc.{lookup}
use poai.Crypto.{Crypto}
use poai.Block.{Block}
use poai.Chain.{Chain, current_height, block_by_height}
use poai.Net.{NewHeadMsg, announce_head}
use poai.Daemon.{announce_tick, announce_ticks}

-- The numbers that differ from the one before, the first one from `last`.
abbrev pub changes : ℕ → List ℕ → List ℕ
changes last [] = []
changes last (n ∷ ns) = let rest = changes n ns in if n == last then rest else n ∷ rest

module _ {Db : Type 0} (crypto : Crypto) where
  -- The head is in memory, at its own height.
  abbrev pub IsHeaded : Chain Db → Type 0
  IsHeaded c = (b : Block) × ((lookup c.head c.blocks ≡ some b) × (b.header.height ≡ c.head))

  tick_same :
      (c : Chain Db) (last_height : ℕ)
      → (c.head == last_height) ≡ true
      → announce_tick crypto c last_height ≡ (none, last_height)
  unfolding announce_tick current_height
  tick_same c last_height same = rw same refl

  tick_moved :
      (c : Chain Db) (last_height : ℕ) (b : Block)
      → (c.head == last_height) ≡ false
      → lookup c.head c.blocks ≡ some b
      → announce_tick crypto c last_height ≡ (some (announce_head crypto b), c.head)
  unfolding announce_tick current_height block_by_height
  tick_moved c last_height b moved found = rw (moved, found) refl

  announce_ticks_next :
      (c : Chain Db) (cs : List (Chain Db)) (last_height : ℕ) (tick : Option NewHeadMsg × ℕ)
      → announce_tick crypto c last_height ≡ tick
      → announce_ticks crypto (c ∷ cs) last_height ≡ elim tick.0 [
        | none ↦ announce_ticks crypto cs tick.1
        | some m ↦ m ∷ announce_ticks crypto cs tick.1
      ]
  unfolding announce_ticks
  announce_ticks_next c cs last_height tick e =
      ap
        (λ (t : Option NewHeadMsg × ℕ). elim t.0 as (λ x. List NewHeadMsg) [
          | none ↦ announce_ticks crypto cs t.1
          | some m ↦ m ∷ announce_ticks crypto cs t.1
        ])
        e

  -- Over any rounds of a loop that announces, the heights announced are those of the heads that it sees,
  -- each one once until the head has another height: a head that stays is not announced again, and a
  -- head that another of the same height replaces is not announced at all.
  pub announce_ticks_heights :
      (cs : List (Chain Db)) (last_height : ℕ)
      → All IsHeaded cs
      → map (λ (m : NewHeadMsg). m.height) (announce_ticks crypto cs last_height)
        ≡ changes last_height (map (λ (c : Chain Db). c.head) cs)
  unfolding announce_head announce_ticks
  announce_ticks_heights [] last_height h = refl
  announce_ticks_heights (c ∷ cs) last_height ((b, (found, at_head)), rest) =
      let later = announce_ticks_heights cs c.head rest in
      elim (Bool-cases (c.head == last_height)) [
        | inl same ↦
            let last : last_height ≡ c.head = ground arith in
            let tick = tick_same c last_height same in
            rw (announce_ticks_next c cs last_height (none, last_height) tick, same)
              (ap (λ h. map (λ (m : NewHeadMsg). m.height) (announce_ticks crypto cs h)) last
                ∙ later)
        | inr moved ↦
            let msg = announce_head crypto b in
            let tick = tick_moved c last_height b moved found in
            rw (announce_ticks_next c cs last_height (some msg, c.head) tick, moved)
              (ap (λ h. h ∷ map (λ (m : NewHeadMsg). m.height) (announce_ticks crypto cs c.head))
                  at_head
                ∙ ap (λ hs. c.head ∷ hs) later)
      ]
