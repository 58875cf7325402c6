-- ===== src/Chain/Locks/Frozen.antt =====
-- The orphan scanner waits for itself.
use poai.Prelude.{
  ℕ, zero, suc, ◌<◌, ◌≡◌, refl, sym, ap, subst, ◌∙◌, ◌≢◌, ◌⊎◌, inl, inr, Option, none, some, Bool,
  true, false, ◌||◌, List, [], ◌∷◌, ◌==◌, nat_eq, bytes_eq, arith, Bool-cases, Option-cases,
  ==_refl, ==→eq,
}
use mathlib.Core.Option.{some-injective}
use poai.Chain.Locks.{
  Op, r_lock, r_unlock, announce, acquire, w_unlock, Mutex, held_by, release_by, free, owns,
  no_readers, operate, System, Step, run, Reach, here, next, import_ops, get_block_by_hash_ops,
  scan_orphans_ops, scan_orphan_pool_ops, any, any_fits,
}

-- A goroutine that holds the lock for reading so many times, and whose `Lock` has been announced or
-- not, comes to wait in a `Lock` of its own while it holds it.
abbrev pub doomed : Bool → ℕ → List Op → Bool
doomed false held (r_lock ∷ ops) = doomed false (suc held) ops
doomed false (suc held) (r_unlock ∷ ops) = doomed false held ops
doomed false held (announce ∷ ops) = doomed true held ops
doomed true (suc held) (acquire ∷ ops) = true
doomed _ _ _ = false

held_by-release_by_self :
    (i n : ℕ) (js : List ℕ) → held_by i js ≡ suc n → held_by i (release_by i js) ≡ n
held_by-release_by_self i n [] h = absurd (omega arith)
held_by-release_by_self i n (j ∷ js) h = ground (arith, held_by-release_by_self i n js)

held_by-release_by_ne :
    (i j : ℕ) (js : List ℕ) → (i == j) ≡ false → held_by i (release_by j js) ≡ held_by i js
held_by-release_by_ne i j [] ne = refl
held_by-release_by_ne i j (k ∷ js) ne = ground (arith, held_by-release_by_ne i j js ne)

module _ (i j : ℕ) (ne : (i == j) ≡ false) (m m' : Mutex) where
  -- Another goroutine's operation leaves this one's share of the lock.
  operate-held_by :
      (op : Op) → operate j op m ≡ some m' → held_by i m'.readers ≡ held_by i m.readers
  unfolding operate
  operate-held_by r_lock e = ground arith
  operate-held_by r_unlock e = ground (arith, held_by-release_by_ne i j m.readers ne)
  operate-held_by announce e = ground arith
  operate-held_by acquire e = ground arith
  operate-held_by w_unlock e = ground arith

  operate-owns : (op : Op) → operate j op m ≡ some m' → owns i m'.writer ≡ owns i m.writer
  unfolding operate
  operate-owns r_lock e = ground arith
  operate-owns r_unlock e = ground arith
  operate-owns announce e = elim (Option-cases m.writer) [
    | inl none_yet ↦ ground arith
    | inr (k, taken) ↦ absurd (ground arith)
  ]
  operate-owns acquire e = ground arith
  operate-owns w_unlock e = elim (Option-cases m.writer) [
    | inl none_yet ↦ absurd (ground arith)
    | inr (k, taken) ↦ ground (arith, ==→eq j k, ==→eq i k, ==_refl k)
  ]

held_by-no_readers : (i n : ℕ) (js : List ℕ) → held_by i js ≡ suc n → no_readers js ≡ false
held_by-no_readers i n [] h = absurd (omega arith)
held_by-no_readers i n (j ∷ js) h = refl

-- A reader keeps every writer out.
acquire_kept_out :
    (i j n : ℕ) (m : Mutex) → held_by i m.readers ≡ suc n → operate j acquire m ≡ none
unfolding operate
acquire_kept_out i j n m h = ground (arith, held_by-no_readers i n m.readers h)

zero_or_suc : (n : ℕ) → (n ≡ 0) ⊎ ((k : ℕ) × (n ≡ suc k))
zero_or_suc zero = inl refl
zero_or_suc (suc k) = inr (k, refl)

doomed-r_unlock :
    (i : ℕ) (js : List ℕ) (ops : List Op)
    → doomed false (held_by i js) (r_unlock ∷ ops) ≡ true
    → doomed false (held_by i (release_by i js)) ops ≡ true
doomed-r_unlock i js ops h = elim (zero_or_suc (held_by i js)) [
  | inl zero_held ↦ absurd (ground arith)
  | inr (k, held) ↦ rw (held_by-release_by_self i k js held) (rw held at h)
]

-- The goroutine's own operation brings it closer to its end.
operate-doomed :
    (i : ℕ) (m m' : Mutex) (op : Op) (ops : List Op)
    → operate i op m ≡ some m'
    → doomed (owns i m.writer) (held_by i m.readers) (op ∷ ops) ≡ true
    → doomed (owns i m'.writer) (held_by i m'.readers) ops ≡ true
unfolding operate
operate-doomed i m m' r_lock ops e h = elim (Option-cases m.writer) [
  | inl none_yet ↦ ground (arith, ==_refl i)
  | inr (k, taken) ↦ absurd (ground arith)
]
operate-doomed i m m' r_unlock ops e h = elim (Bool-cases (owns i m.writer)) [
  | inl mine ↦ absurd (ground arith)
  | inr other ↦
      let left = doomed-r_unlock i m.readers ops (rw other at h) in
      elim (zero_or_suc (held_by i m.readers)) [
        | inl zero_held ↦ absurd (ground arith)
        | inr (k, held) ↦
            let shape : record m { readers = release_by i m.readers } ≡ m' =
              some-injective _ _ (rw (held, operate) at e) in
            rw (← shape, other) left
      ]
]
operate-doomed i m m' announce ops e h = elim (Option-cases m.writer) [
  | inl none_yet ↦ ground (arith, ==_refl i)
  | inr (k, taken) ↦ absurd (ground arith)
]
operate-doomed i m m' acquire ops e h = elim (zero_or_suc (held_by i m.readers)) [
  | inl zero_held ↦ absurd (ground arith)
  | inr (k, held) ↦ absurd (ground (arith, acquire_kept_out i i k m held))
]
operate-doomed i m m' w_unlock ops e h = absurd (ground arith)

-- The goroutine `i` of a system.
abbrev pub Doomed : ℕ → System → Type 0
Doomed i s = doomed (owns i s.mutex.writer) (held_by i s.mutex.readers) (s.todo i) ≡ true

Step-Doomed : (i : ℕ) {s t : System} → Step s t → Doomed i s → Doomed i t
Step-Doomed i {s} (run j op ops m at_j moved) h = elim (Bool-cases (j == i)) [
  | inl same ↦
      let j_is_i = ==→eq j i same in
      rw same (
        operate-doomed i s.mutex m op ops (subst (λ k. operate k op s.mutex ≡ some m) j_is_i moved)
          (subst (λ l. doomed (owns i s.mutex.writer) (held_by i s.mutex.readers) l ≡ true)
            (sym (ap s.todo j_is_i) ∙ at_j) h))
  | inr other ↦
      let ne : (i == j) ≡ false = ground arith in
      rw other
        (rw (operate-owns i j ne s.mutex m op moved, operate-held_by i j ne s.mutex m op moved) h)
]

Reach-Doomed : (i : ℕ) {s t : System} → Reach s t → Doomed i s → Doomed i t
Reach-Doomed i here h = h
Reach-Doomed i (next r st) h = Step-Doomed i st (Reach-Doomed i r h)

-- The scanner's program comes to such a wait as soon as one orphan fits.
scan_orphans_ops-doomed :
    (held : ℕ) (orphans : List Bool) (ops : List Op)
    → doomed false (suc held) (scan_orphans_ops orphans ops)
      ≡ (any orphans || doomed false (suc held) ops)
unfolding scan_orphans_ops get_block_by_hash_ops import_ops
scan_orphans_ops-doomed held [] ops = refl
scan_orphans_ops-doomed held (true ∷ orphans) ops = refl
scan_orphans_ops-doomed held (false ∷ orphans) ops = scan_orphans_ops-doomed held orphans ops

pub scan_orphan_pool_ops-doomed :
    (pool : List (List Bool)) → doomed false 0 (scan_orphan_pool_ops pool) ≡ any_fits pool
unfolding scan_orphan_pool_ops
scan_orphan_pool_ops-doomed [] = refl
scan_orphan_pool_ops-doomed (orphans ∷ pool) =
    scan_orphans_ops-doomed 0 orphans (r_unlock ∷ scan_orphan_pool_ops pool)
    ∙ ap (λ b. any orphans || b) (scan_orphan_pool_ops-doomed pool)

doomed_nil : (announced : Bool) (held : ℕ) → doomed announced held [] ≢ true
doomed_nil true zero e = cc
doomed_nil true (suc held) e = cc
doomed_nil false zero e = cc
doomed_nil false (suc held) e = cc

doomed_acquire :
    (announced : Bool) (held : ℕ) (ops : List Op)
    → doomed announced held (acquire ∷ ops) ≡ true
    → (announced ≡ true) × ((k : ℕ) × (held ≡ suc k))
doomed_acquire true zero ops e = absurd (ground arith)
doomed_acquire true (suc k) ops e = (refl, (k, refl))
doomed_acquire false zero ops e = absurd (ground arith)
doomed_acquire false (suc k) ops e = absurd (ground arith)

owned_not_free : (i : ℕ) (writer : Option ℕ) → owns i writer ≡ true → free writer ≡ false
owned_not_free i none e = absurd (ground arith)
owned_not_free i (some j) e = refl

-- A goroutine that starts on the orphan scanner's program, holding nothing, while one of the orphans
-- fits on a parent that is found. However the goroutines of the node are interleaved from there on:
-- it never ends; while it holds the lock for reading no goroutine gets it for writing; and when it
-- waits inside its `ImportBlock`, no goroutine gets it for reading or writing or may even announce
-- a writer, so that the chain can neither be read nor changed any more.
pub scan_orphan_pool-freezes :
    (i : ℕ) (pool : List (List Bool)) (s t : System)
    → any_fits pool ≡ true
    → s.todo i ≡ scan_orphan_pool_ops pool
    → held_by i s.mutex.readers ≡ 0
    → owns i s.mutex.writer ≡ false
    → Reach s t
    → (t.todo i ≢ [])
      × ((j : ℕ) → 0 < held_by i t.mutex.readers → operate j acquire t.mutex ≡ none)
      × ((ops : List Op)
          → t.todo i ≡ acquire ∷ ops
          → (j : ℕ)
          → (operate j acquire t.mutex ≡ none)
            × (operate j r_lock t.mutex ≡ none)
            × (operate j announce t.mutex ≡ none))
unfolding operate
scan_orphan_pool-freezes i pool s t fits start held not_owner r =
    let begun : Doomed i s =
      rw (start, held, not_owner) (scan_orphan_pool_ops-doomed pool ∙ fits) in
    let now = Reach-Doomed i r begun in
    (
      λ ended. doomed_nil _ _ (rw ended at now),
      λ j holds. elim (zero_or_suc (held_by i t.mutex.readers)) [
        | inl zero_held ↦ absurd (omega arith)
        | inr (k, some_held) ↦ acquire_kept_out i j k t.mutex some_held
      ],
      λ ops waiting j.
          let (announced, (k, some_held)) = doomed_acquire _ _ ops (rw waiting at now) in
          let taken = owned_not_free i t.mutex.writer announced in
          (acquire_kept_out i j k t.mutex some_held, ground arith, ground arith),
    )
