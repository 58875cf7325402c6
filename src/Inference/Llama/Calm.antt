-- ===== src/Inference/Llama/Calm.antt =====
-- Texts that have no marker: no colon follows an `s`, and there is one line.
use poai.Prelude.{
  ℕ, zero, suc, ◌+◌, ◌/◌, ◌%◌, ◌≤◌, ◌≡◌, refl, inl, inr, Bool, true, false, not, ◌&&◌, [], ◌∷◌,
  ◌++◌, Bytes, All, map, last_or, ◌==◌, nat_eq, bytes_eq, arith, Bool-cases,
}
use poai.Encoding.{codes, decimal, push_decimal}
use poai.Tx.{is_empty}
use poai.Inference.Llama.{
  break_line, is_space, trim_left, trim_right, trim_space, lower, has_prefix, contains, is_marker,
}
use poai.Inference.Llama.Prompts.{NoMarker}

-- A text without a line feed in which no colon follows an `s`; the first argument is the character
-- before it.
abbrev ends_marker : ℕ → ℕ → Bool
ends_marker before c = (c == 58) && (lower before == 115)

abbrev pub calm : ℕ → Bytes → Bool
calm before [] = true
calm before (c ∷ cs) = not (c == 10) && (not (ends_marker before c) && calm c cs)

calm-append :
    (p : ℕ) (xs ys : Bytes)
    → calm p xs ≡ true
    → calm (last_or p xs) ys ≡ true
    → calm p (xs ++ ys) ≡ true
calm-append p [] ys h k = k
calm-append p (x ∷ xs) ys h k = ground (arith, calm-append x xs ys)

-- Only an `s` before a text matters.
calm_before :
    (p q : ℕ) (xs : Bytes) → (lower p == 115) ≡ false → calm q xs ≡ true → calm p xs ≡ true
calm_before p q [] other h = refl
calm_before p q (x ∷ xs) other h = ground arith

-- A calm text that does not end in an `s`.
pub record Fine (xs : Bytes) : Type 0 where
  pub is_calm : calm 0 xs ≡ true
  pub end : (lower (last_or 0 xs) == 115) ≡ false

last_or-append : (p : ℕ) (xs ys : Bytes) → last_or p (xs ++ ys) ≡ last_or (last_or p xs) ys
last_or-append p [] ys = refl
last_or-append p (x ∷ xs) ys = last_or-append x xs ys

last_or-other :
    (p q : ℕ) (ys : Bytes)
    → (lower p == 115) ≡ false
    → (lower (last_or q ys) == 115) ≡ false
    → (lower (last_or p ys) == 115) ≡ false
last_or-other p q [] h k = h
last_or-other p q (y ∷ ys) h k = k

infixl 5 ◌then◌
pub ◌then◌ : {xs ys : Bytes} → Fine xs → Fine ys → Fine (xs ++ ys)
◌then◌ {xs} {ys} f g = record {
  is_calm = calm-append 0 xs ys f.is_calm (calm_before (last_or 0 xs) 0 ys f.end g.is_calm);
  end = rw (last_or-append 0 xs ys) (last_or-other (last_or 0 xs) 0 ys f.end g.end);
}

pub literal : (xs : Bytes) → calm 0 xs ≡ true → (lower (last_or 0 xs) == 115) ≡ false → Fine xs
literal xs h k = record { is_calm = h; end = k }

abbrev IsDigit : ℕ → Type 0
IsDigit c = (48 ≤ c) × (c ≤ 57)

push_decimal-All :
    (fuel n : ℕ) (acc : Bytes) → All IsDigit acc → All IsDigit (push_decimal fuel n acc)
unfolding push_decimal
push_decimal-All zero n acc h = h
push_decimal-All (suc fuel) n acc h = elim (Bool-cases (n / 10 == 0)) [
  | inl last ↦ rw last ((omega arith, omega arith), h)
  | inr more ↦
      rw more
        (push_decimal-All fuel (n / 10) ((b'0' + n % 10) ∷ acc) ((omega arith, omega arith), h))
]

digits_calm : (p : ℕ) (ds : Bytes) → All IsDigit ds → calm p ds ≡ true
digits_calm p [] h = refl
digits_calm p (d ∷ ds) ((low, high), h) = let rest = digits_calm d ds h in ground arith

digits_end :
    (p : ℕ) (ds : Bytes)
    → (lower p == 115) ≡ false
    → All IsDigit ds
    → (lower (last_or p ds) == 115) ≡ false
digits_end p [] h k = h
digits_end p (d ∷ ds) h ((low, high), k) = digits_end d ds (ground arith) k

pub decimal-Fine : (n : ℕ) → Fine (decimal n)
unfolding decimal
decimal-Fine n =
    let digits = push_decimal-All (suc n) n [] tt in
    record {
      is_calm = digits_calm 0 (push_decimal (suc n) n []) digits;
      end = digits_end 0 (push_decimal (suc n) n []) refl digits;
    }

-- A fine text has no marker: it is one line, and trimming keeps it calm.
break_line-calm : (p : ℕ) (xs : Bytes) → calm p xs ≡ true → break_line xs ≡ (xs, [])
break_line-calm p [] h = refl
break_line-calm p (x ∷ xs) h =
    let other : (x == 10) ≡ false = ground arith in
    rw (other, break_line-calm x xs (ground arith)) refl

trim_left-calm : (xs : Bytes) → calm 0 xs ≡ true → calm 0 (trim_left xs) ≡ true
trim_left-calm [] h = refl
trim_left-calm (x ∷ xs) h = elim (Bool-cases (is_space x)) [
  | inr word ↦ rw word h
  | inl blank ↦
      let other : (lower x == 115) ≡ false = ground arith in
      rw blank (trim_left-calm xs (calm_before 0 x xs refl (ground arith)))
]

trim_right-calm : (p : ℕ) (xs : Bytes) → calm p xs ≡ true → calm p (trim_right xs) ≡ true
trim_right-calm p [] h = refl
trim_right-calm p (x ∷ xs) h = elim (Bool-cases (is_space x && is_empty (trim_right xs))) [
  | inl blank ↦ rw blank refl
  | inr word ↦ let rest = trim_right-calm x xs (ground arith) in rw word (ground arith)
]

-- A word that ends in `s:` begins no calm text.
has_prefix-calm :
    (p : ℕ) (word text : Bytes)
    → calm p text ≡ true
    → has_prefix (word ++ (115 ∷ 58 ∷ [])) (map lower text) ≡ false
has_prefix-calm p [] [] h = refl
has_prefix-calm p [] (c ∷ []) h = ground arith
has_prefix-calm p [] (c ∷ d ∷ text) h = ground arith
has_prefix-calm p (w ∷ word) [] h = refl
has_prefix-calm p (w ∷ word) (c ∷ text) h =
    let rest = has_prefix-calm c word text (ground arith) in ground arith

contains-calm :
    (p : ℕ) (text : Bytes)
    → calm p text ≡ true
    → contains (codes "answers:") (map lower text) ≡ false
contains-calm p [] h = refl
contains-calm p (c ∷ text) h =
    let here = has_prefix-calm p (codes "answer") (c ∷ text) h in
    let later = contains-calm c text (ground arith) in ground arith

pub calm-NoMarker : (text : Bytes) → calm 0 text ≡ true → NoMarker text
unfolding is_marker
calm-NoMarker text h = rw (break_line-calm 0 text h) (
  contains-calm 0 (trim_space text) (trim_right-calm 0 (trim_left text) (trim_left-calm text h)),
  tt,
)
