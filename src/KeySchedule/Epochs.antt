-- ===== src/KeySchedule/Epochs.antt =====
-- Which header makes the key of an epoch, and when keys are the same.
use poai.Prelude.{
  ℕ, zero, suc, ◌+◌, ◌-◌, ◌*◌, ◌%◌, ◌^◌, ◌<◌, ◌≡◌, refl, sym, ◌∙◌, ◌≢◌, ◌⊎◌, inl, inr, Option, some,
  false, Bytes, length, ◌==◌, nat_eq, bytes_eq, arith, Bool-cases,
}
use poai.Encoding.{le_bytes}
use poai.Crypto.{Crypto}
use poai.Header.{Header, header_hash}
use poai.Header.Preimage.{append_inj, le_bytes_inj}
use poai.KeySchedule.{last_height, key_preimage, epoch_key}

key_preimage_inj :
    (crypto : Crypto) (e e' : ℕ) (h h' : Header)
    → ((bytes : Bytes) → length (crypto.sha3_256 bytes) ≡ 32)
    → e < 2 ^ 64
    → e' < 2 ^ 64
    → key_preimage crypto e h ≡ key_preimage crypto e' h'
    → (e ≡ e') × (header_hash crypto h ≡ header_hash crypto h')
unfolding key_preimage header_hash
key_preimage_inj crypto e e' h h' sized fits fits' same =
    let (hashes, epochs) =
      append_inj (header_hash crypto h) (header_hash crypto h') (le_bytes 8 e) (le_bytes 8 e')
        (sized _ ∙ sym (sized _)) same in
    (le_bytes_inj e e' fits fits' epochs, hashes)

at_least : (k n : ℕ) → 0 < n → 0 < suc k * n
at_least zero n h = omega arith
at_least (suc k) n h = omega (arith, at_least k n h)

below : (p : ℕ) → 0 < p → p < 2 ^ 64 → (p % 2 ^ 64 + (2 ^ 64 - 1)) % 2 ^ 64 ≡ p - 1
below p h fits = omega arith

last_height_lem : (n e : ℕ) → 0 < n → e * n < 2 ^ 64 → last_height n e ≡ e * n - 1
unfolding last_height
last_height_lem n zero h fits = omega arith
last_height_lem n (suc k) h fits =
    let later : (suc k == 0) ≡ false = ground arith in
    rw (later, last_height) (below (suc k * n) (at_least k n h) fits)

epoch_key-found :
    (crypto : Crypto) (n : ℕ) (reader : ℕ → Option Header) (e : ℕ) (h : Header)
    → 0 < n
    → e * n < 2 ^ 64
    → reader (e * n - 1) ≡ some h
    → epoch_key crypto n reader e ≡ crypto.sha3_256 (key_preimage crypto e h)
unfolding epoch_key
epoch_key-found crypto n reader e h blocks inside found =
    rw (last_height_lem n e blocks inside, found, epoch_key) refl

-- Two epochs whose headers are there: that of the epoch 0 at height 0, that of another one below the
-- epoch's first height, where the heights fit in 64 bits and hashes have 32 bytes. If they have the
-- same key, they are the same epoch, or SHA3-256 collides on the two texts that the keys are the hashes
-- of, which differ.
pub epoch_key_collision :
    (crypto : Crypto) (n : ℕ) (reader : ℕ → Option Header) (e e' : ℕ) (h h' : Header)
    → ((bytes : Bytes) → length (crypto.sha3_256 bytes) ≡ 32)
    → 0 < n
    → e * n < 2 ^ 64
    → e' * n < 2 ^ 64
    → e < 2 ^ 64
    → e' < 2 ^ 64
    → reader (e * n - 1) ≡ some h
    → reader (e' * n - 1) ≡ some h'
    → epoch_key crypto n reader e ≡ epoch_key crypto n reader e'
    → (e ≡ e')
      ⊎ ((key_preimage crypto e h ≢ key_preimage crypto e' h')
          × (crypto.sha3_256 (key_preimage crypto e h)
              ≡ crypto.sha3_256 (key_preimage crypto e' h')))
epoch_key_collision crypto n reader e e' h h' sized blocks inside inside' fits fits' found found'
      same =
    let hashed =
      sym (epoch_key-found crypto n reader e h blocks inside found)
      ∙ same
      ∙ epoch_key-found crypto n reader e' h' blocks inside' found' in
    elim (Bool-cases (e == e')) [
      | inl equal ↦ inl (ground arith)
      | inr differ ↦ inr (
        λ xy.
            absurd (
              let (one, _) = key_preimage_inj crypto e e' h h' sized fits fits' xy in ground arith),
        hashed,
      )
    ]
