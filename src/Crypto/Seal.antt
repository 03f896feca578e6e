-- ===== src/Crypto/Seal.antt =====
-- KDF parameters, wrapped keys and sealed frames of crypto.rs.
use foldervault.Base.{
  ℕ, ◌≤◌, ◌<◌, ◌≡◌, ◌≢◌, ◌↔◌, refl, sym, ap, ◌∙◌, [], some, arith, length, length-append,
  take-append, drop-append, Bytes, IsU64, append-injective, from_le_bytes,
  from_le_bytes-to_le_bytes_u64, ◌⊎◌, inl, inr,
}
use foldervault.Vault.{tampered, ok, err}
use foldervault.Primitives.{Primitives, IsLawful, KdfParams}
use foldervault.Random.{Rng, fill_bytes, length-fill_bytes}
use foldervault.Crypto.{
  ChunkCipher, SecretKey, aad, open_in_place, wrap_key, unwrap_key, derive_kek, validate,
}

-- The parameters that `validate` accepts are those within the bounds of the memory, time and lane
-- costs, so that no header makes argon2 ask for more than 1 GiB.
pub validate_iff :
    (p : KdfParams)
    → (validate p ≡ ok tt) ↔ (
        (1024 ≤ p.m_cost_kib)
        × (p.m_cost_kib ≤ 1048576)
        × (1 ≤ p.t_cost)
        × (p.t_cost ≤ 16)
        × (1 ≤ p.lanes)
        × (p.lanes ≤ 16))
unfolding validate
validate_iff p = (λ h. ground arith, λ h. ground arith)

module _ (P : Primitives) where
  -- The key derivation depends on argon2 only where the parameters are within the bounds.
  pub derive_kek_bounded :
      (password salt : Bytes) (p : KdfParams)
      → (1048576 < p.m_cost_kib) ⊎ (16 < p.t_cost) ⊎ (16 < p.lanes)
      → derive_kek P password salt p ≡ err tampered
  unfolding derive_kek
  derive_kek_bounded password salt p h = ground arith

-- The associated data determine the container and the sequence number.
aad-injective :
    (c d : ChunkCipher) (s t : ℕ)
    → length c.uuid ≡ 16
    → length d.uuid ≡ 16
    → IsU64 s
    → IsU64 t
    → aad c s ≡ aad d t
    → (c.uuid ≡ d.uuid) × (s ≡ t)
unfolding aad
aad-injective c d s t hc hd hs ht e =
    let (uuids, seqs) = append-injective c.uuid d.uuid (hc ∙ sym hd) e in
    (
      uuids,
      sym (from_le_bytes-to_le_bytes_u64 s hs)
          ∙ ap from_le_bytes seqs
          ∙ from_le_bytes-to_le_bytes_u64 t ht,
    )

module _ (P : Primitives) (L : IsLawful P) where
  decrypt-encrypt :
      (key nonce ad plain : Bytes)
      → P.decrypt key nonce ad (P.encrypt key nonce ad plain) ≡ some plain
  decrypt-encrypt key nonce ad plain = (L.decrypt_iff key nonce ad _ plain).1 refl

  -- A key that was wrapped is unwrapped by the same key-encryption key.
  pub unwrap_key-wrap_key :
      (kek dk : SecretKey) (r : Rng) → unwrap_key P kek (wrap_key P kek dk r).0 ≡ some dk
  unfolding unwrap_key wrap_key
  unwrap_key-wrap_key kek dk r =
      let nonce = (fill_bytes 12 r).0 in
      let blob = P.encrypt kek nonce [] dk in
      rw
        (
          take-append 12 nonce blob (length-fill_bytes 12 r),
          drop-append 12 nonce blob (length-fill_bytes 12 r),
          unwrap_key,
          wrap_key,
        )
        (decrypt-encrypt kek nonce [] dk)

  -- A wrapped key is 60 bytes long.
  pub length-wrap_key :
      (kek dk : SecretKey) (r : Rng) → length dk ≡ 32 → length (wrap_key P kek dk r).0 ≡ 60
  unfolding wrap_key
  length-wrap_key kek dk r h = omega (
    arith,
    length-append (fill_bytes 12 r).0 (P.encrypt kek (fill_bytes 12 r).0 [] dk),
    length-fill_bytes 12 r,
    L.length-encrypt kek (fill_bytes 12 r).0 [] dk,
  )

  opened :
      (c : ChunkCipher) (seq : ℕ) (nonce blob plain : Bytes)
      → open_in_place P c seq nonce blob ≡ ok plain
      → P.decrypt c.key nonce (aad c seq) blob ≡ some plain
  unfolding open_in_place
  opened c seq nonce blob plain e = ground arith

  -- What opens was sealed: a blob that opens at a place is the one that sealing the plaintext at
  -- that place gives, and all such blobs open.
  pub open_in_place_iff :
      (c : ChunkCipher) (seq : ℕ) (nonce blob plain : Bytes)
      → (open_in_place P c seq nonce blob ≡ ok plain)
        ↔ (blob ≡ P.encrypt c.key nonce (aad c seq) plain)
  unfolding open_in_place
  open_in_place_iff c seq nonce blob plain =
      let d = L.decrypt_iff c.key nonce (aad c seq) blob plain in
      (λ e. d.0 (opened c seq nonce blob plain e), λ e. rw (d.1 e, open_in_place))

  -- A blob that was sealed at one place of one container, and that opens at another place or in
  -- another container, is the ciphertext of two different associated data under one nonce: chunks
  -- can be reordered or spliced only by a collision of GCM tags.
  pub open_in_place_elsewhere :
      (c d : ChunkCipher) (s t : ℕ) (nonce plain plain' : Bytes)
      → length c.uuid ≡ 16
      → length d.uuid ≡ 16
      → IsU64 s
      → IsU64 t
      → (c.uuid ≢ d.uuid) ⊎ (s ≢ t)
      → open_in_place P d t nonce (P.encrypt c.key nonce (aad c s) plain) ≡ ok plain'
      → (aad c s ≢ aad d t)
        × (P.encrypt c.key nonce (aad c s) plain ≡ P.encrypt d.key nonce (aad d t) plain')
  open_in_place_elsewhere c d s t nonce plain plain' hc hd hs ht ne e = (
    λ same. differ (aad-injective c d s t hc hd hs ht same) ne,
    (open_in_place_iff d t nonce _ plain').0 e,
  )
    where
      differ : (c.uuid ≡ d.uuid) × (s ≡ t) → (c.uuid ≢ d.uuid) ⊎ (s ≢ t) → ⊥
      differ both (inl u) = u both.0
      differ both (inr n) = n both.1
