-- ===== src/Recovery/Seal.antt =====
-- recovery.rs: `seal_dk`, `open_dk`, `is_enrolled` and `generate`.
use foldervault.Base.{
  ℕ, ◌+◌, Bool, false, not, ◌||◌, [], ◌∷◌, ◌++◌, Option, none, some, Bytes, Text, codes, ◌==◌, take,
  drop,
}
use foldervault.Primitives.{Primitives}
use foldervault.Random.{Rng, fill_bytes}
use foldervault.Crypto.{SecretKey, wrapped_key_len, wrap_key, unwrap_key}
use foldervault.Recovery.Base32.{encode_code, decode_code}

abbrev pub master_wrap_len : ℕ
master_wrap_len = 32 + wrapped_key_len

pub record MasterKeyPair : Type 0 where
  pub public : Bytes
  pub code : Text

-- `is_enrolled`
unfoldable pub is_enrolled : Bytes → Bool
is_enrolled [] = false
is_enrolled (b ∷ bs) = not (b == 0) || is_enrolled bs

module _ (P : Primitives) where
  -- `generate`
  unfoldable pub generate : Rng → MasterKeyPair × Rng
  unfolding encode_code
  generate r =
      let drawn = fill_bytes 32 r in
      (record { public = P.public_key drawn.0; code = encode_code P drawn.0 }, drawn.1)

  -- `kek_from_shared`
  unfoldable pub kek_from_shared : Bytes → SecretKey
  kek_from_shared shared = P.hmac (codes "fvlt-master-kek-v1") shared

  -- `seal_dk`: the ephemeral public key and the data key wrapped under the shared secret.
  unfoldable pub seal_dk : Bytes → SecretKey → Rng → Bytes × Rng
  unfolding kek_from_shared
  seal_dk master_pub dk r =
      let eph = fill_bytes 32 r in
      let kek = kek_from_shared (P.diffie_hellman eph.0 master_pub) in
      let wrapped = wrap_key P kek dk eph.1 in (P.public_key eph.0 ++ wrapped.0, wrapped.1)

  -- `open_dk`
  unfoldable pub open_dk : Text → Bytes → Option SecretKey
  unfolding kek_from_shared
  open_dk code wrap = elim (decode_code P code) [
    | none ↦ none
    | some sk ↦ unwrap_key P (kek_from_shared (P.diffie_hellman sk (take 32 wrap))) (drop 32 wrap)
  ]
