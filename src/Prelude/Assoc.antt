-- ===== src/Prelude/Assoc.antt =====
-- Go maps as association lists. The order of a list stands for the order in which `range` visits
-- the map, which Go leaves open: what is proved for every list holds for every order.
use package.poai.Prelude.{
  ◌≡◌, refl, ◌≢◌, Bool, true, false, Option, none, some, List, [], ◌∷◌, arith, if◌then◌else◌, HasEq,
  ◌==◌, ==_refl, ==→eq, ne→==_false, Bool-cases, inl, inr, ◌≤◌, ◌+◌, length,
}

abbrev pub Assoc {ℓ κ} : Type ℓ → Type κ → Type (ℓ ⊔ κ)
Assoc K V = List (K × V)

module _ {ℓ κ} {K : Type ℓ} {V : Type κ} ⦃e : HasEq K⦄ where
  -- `v, ok := m[k]`
  abbrev pub lookup : K → Assoc K V → Option V
  lookup k [] = none
  lookup k ((j, v) ∷ m) = if j == k then some v else lookup k m

  -- `_, ok := m[k]`
  abbrev pub contains : K → Assoc K V → Bool
  contains k m = elim (lookup k m) [ none ↦ false | some _ ↦ true ]

  -- `m[k] = v`
  abbrev pub insert : K → V → Assoc K V → Assoc K V
  insert k v [] = (k, v) ∷ []
  insert k v ((j, w) ∷ m) = if j == k then (k, v) ∷ m else (j, w) ∷ insert k v m

  -- `delete(m, k)`
  abbrev pub erase : K → Assoc K V → Assoc K V
  erase k [] = []
  erase k ((j, w) ∷ m) = if j == k then erase k m else (j, w) ∷ erase k m

  pub lookup-insert_self : (k : K) (v : V) (m : Assoc K V) → lookup k (insert k v m) ≡ some v
  lookup-insert_self k v [] = rw ==_refl refl
  lookup-insert_self k v ((j, w) ∷ m) = elim (Bool-cases (j == k)) [
    | inl t ↦ rw t (rw ==_refl refl)
    | inr f ↦ rw f (rw f (lookup-insert_self k v m))
  ]

  pub lookup-insert_ne :
      (j k : K) (v : V) (m : Assoc K V) → k ≢ j → lookup j (insert k v m) ≡ lookup j m
  lookup-insert_ne j k v [] h = rw (ne→==_false k j h) refl
  lookup-insert_ne j k v ((i, w) ∷ m) h =
      ground (arith, ne→==_false k j h, ==→eq i k, lookup-insert_ne j k v m h)

  pub lookup-insert :
      (j k : K) (v : V) (m : Assoc K V)
      → lookup j (insert k v m) ≡ (if k == j then some v else lookup j m)
  lookup-insert j k v m = elim (Bool-cases (k == j)) [
    | inl t ↦ rw (t, ==→eq k j t) (lookup-insert_self j v m)
    | inr f ↦ rw f (lookup-insert_ne j k v m (λ p. ground (arith, ==_refl k)))
  ]

  pub lookup-erase_self : (k : K) (m : Assoc K V) → lookup k (erase k m) ≡ none
  lookup-erase_self k [] = refl
  lookup-erase_self k ((j, w) ∷ m) = ground (arith, lookup-erase_self k m)

  pub lookup-erase_ne : (j k : K) (m : Assoc K V) → k ≢ j → lookup j (erase k m) ≡ lookup j m
  lookup-erase_ne j k [] h = refl
  lookup-erase_ne j k ((i, w) ∷ m) h =
      ground (arith, ne→==_false k j h, ==→eq i k, lookup-erase_ne j k m h)

  -- A write to a new key adds one entry.
  pub length-insert_new :
      (k : K) (v : V) (m : Assoc K V) → lookup k m ≡ none → length (insert k v m) ≡ length m + 1
  length-insert_new k v [] h = omega arith
  length-insert_new k v ((j, w) ∷ m) h = ground (arith, length-insert_new k v m)

  pub length-erase-le : (k : K) (m : Assoc K V) → length (erase k m) ≤ length m
  length-erase-le k [] = omega arith
  length-erase-le k ((j, w) ∷ m) = ground (arith, length-erase-le k m)

  -- No key occurs twice, as in every Go map.
  abbrev pub IsMap : Assoc K V → Type κ
  IsMap [] = Unit
  IsMap ((j, v) ∷ m) = (lookup j m ≡ none) × IsMap m

  pub lookup-erase :
      (j k : K) (m : Assoc K V) → lookup j (erase k m) ≡ (if k == j then none else lookup j m)
  lookup-erase j k m = elim (Bool-cases (k == j)) [
    | inl t ↦ rw (t, ==→eq k j t) (lookup-erase_self j m)
    | inr f ↦ rw f (lookup-erase_ne j k m (λ p. ground (arith, ==_refl k)))
  ]

  pub IsMap-insert : (k : K) (v : V) (m : Assoc K V) → IsMap m → IsMap (insert k v m)
  IsMap-insert k v [] h = (refl, tt)
  IsMap-insert k v ((j, w) ∷ m) h = ground (
    arith,
    IsMap-insert k v m h.1,
    lookup-insert_ne j k v m,
    ==→eq j k,
    ne→==_false j k,
    ==_refl j,
  )

  pub IsMap-erase : (k : K) (m : Assoc K V) → IsMap m → IsMap (erase k m)
  IsMap-erase k [] h = tt
  IsMap-erase k ((j, w) ∷ m) h = ground (arith, IsMap-erase k m h.1, lookup-erase j k m)
