-- ===== src/Header/Preimage.antt =====
-- What the hashed bytes of a header determine.
use poai.Prelude.{
  ℕ, ◌^◌, ◌<◌, ◌≡◌, refl, sym, ap, ◌∙◌, [], ◌∷◌, ◌++◌, Bytes, length, arith, nat_eq, bytes_eq,
}
use poai.Encoding.{le_bytes, of_le}
use poai.Encoding.RoundTrip.{of_le-le_bytes, length-le_bytes}
use poai.Header.{Header, preimage}

-- The ranges of the Go types: `uint64` and `[32]byte`.
pub record IsSized (h : Header) : Type 0 where
  pub height_fits : h.height < 2 ^ 64
  pub nonce_fits : h.nonce < 2 ^ 64
  pub hash_fits : length h.parent_hash ≡ 32

pub append_inj :
    (xs ys us vs : Bytes) → length xs ≡ length ys → xs ++ us ≡ ys ++ vs → (xs ≡ ys) × (us ≡ vs)
append_inj [] [] us vs h e = (refl, e)
append_inj [] (y ∷ ys) us vs h e = absurd (omega arith)
append_inj (x ∷ xs) [] us vs h e = absurd (omega arith)
append_inj (x ∷ xs) (y ∷ ys) us vs h e = ground (arith, append_inj xs ys us vs)

pub le_bytes_inj : (n m : ℕ) → n < 2 ^ 64 → m < 2 ^ 64 → le_bytes 8 n ≡ le_bytes 8 m → n ≡ m
le_bytes_inj n m hn hm e = sym (of_le-le_bytes n hn) ∙ ap (of_le 8) e ∙ of_le-le_bytes m hm

-- Headers with the same hashed bytes have the same height, parent hash and nonce.
pub preimage_inj :
    (h k : Header)
    → IsSized h
    → IsSized k
    → preimage h ≡ preimage k
    → (h.height ≡ k.height) × (h.parent_hash ≡ k.parent_hash) × (h.nonce ≡ k.nonce)
unfolding preimage
preimage_inj h k hs ks e =
    let (heights, rest) =
      append_inj (le_bytes 8 h.height) (le_bytes 8 k.height) _ _
        (length-le_bytes 8 h.height ∙ sym (length-le_bytes 8 k.height)) e in
    let (parents, nonces) =
      append_inj h.parent_hash k.parent_hash _ _ (hs.hash_fits ∙ sym ks.hash_fits) rest in
    (
      le_bytes_inj h.height k.height hs.height_fits ks.height_fits heights,
      parents,
      le_bytes_inj h.nonce k.nonce hs.nonce_fits ks.nonce_fits nonces,
    )
