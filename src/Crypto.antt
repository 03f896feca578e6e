-- ===== src/Crypto.antt =====
-- crates/vault-core/src/crypto.rs: KDF parameters, key wrapping and the chunk cipher.
-- The primitives of other crates are the parameter `Primitives`.
pub mod Seal
use foldervault.Base.{
  ℕ, ◌+◌, ◌*◌, ◌-◌, Bool, ◌&&◌, ◌++◌, [], some, none, leb, if◌then◌else◌, length, take, drop, Bytes,
  Text, codes, to_le_bytes, Option,
}
use foldervault.Vault.{VaultError, tampered, other, Result, ok, err, ◌>>=◌, ◌>>◌}
use foldervault.Primitives.{Primitives, KdfParams, done, failed}
use foldervault.Random.{Rng, fill_bytes}

abbrev pub key_len : ℕ
key_len = 32

abbrev pub nonce_len : ℕ
nonce_len = 12

abbrev pub tag_len : ℕ
tag_len = 16

abbrev pub wrapped_key_len : ℕ
wrapped_key_len = nonce_len + key_len + tag_len

-- `MANIFEST_SEQ`, which is `u64::MAX`.
abbrev pub manifest_seq : ℕ
manifest_seq = 0xffff_ffff_ffff_ffff

-- `SecretKey`: its bytes.
abbrev pub SecretKey : Type 0
SecretKey = Bytes

-- `SecretKey::random`
unfoldable pub random_key : Rng → SecretKey × Rng
random_key r = fill_bytes key_len r

-- `KdfParams::default`
abbrev pub default_kdf : KdfParams
default_kdf = record { m_cost_kib = 64 * 1024; t_cost = 3; lanes = 4 }

abbrev pub min_m_cost_kib : ℕ
min_m_cost_kib = 1024

abbrev pub max_m_cost_kib : ℕ
max_m_cost_kib = 1024 * 1024

abbrev pub max_t_cost : ℕ
max_t_cost = 16

abbrev pub max_lanes : ℕ
max_lanes = 16

abbrev within : ℕ → ℕ → ℕ → Bool
within lo hi x = leb lo x && leb x hi

-- `KdfParams::validate`
unfoldable pub validate : KdfParams → Result (Unit {0})
validate p =
    if within min_m_cost_kib max_m_cost_kib p.m_cost_kib
      && within 1 max_t_cost p.t_cost
      && within 1 max_lanes p.lanes
    then ok tt
    else err tampered

-- `ChunkCipher`: the data key and the container's id.
pub record ChunkCipher : Type 0 where
  pub key : SecretKey
  pub uuid : Bytes

-- `ChunkCipher::aad`
unfoldable pub aad : ChunkCipher → ℕ → Bytes
aad c seq = c.uuid ++ to_le_bytes 8 seq

module _ (P : Primitives) where
  open P use {argon2_params, argon2id, encrypt, decrypt}

  -- `derive_kek`. The two calls of the argon2 crate report errors as text.
  unfoldable pub derive_kek : Bytes → Bytes → KdfParams → Result SecretKey
  unfolding validate
  derive_kek password salt p = do
    validate p
    elim (argon2_params p) [
      | failed e ↦ err (other (codes "bad KDF params: " ++ e))
      | done u ↦ elim (argon2id password salt p) [
        | failed e ↦ err (other (codes "kdf failed: " ++ e))
        | done key ↦ ok key
      ]
    ]

  -- `wrap_key`: nonce, then ciphertext and tag.
  unfoldable pub wrap_key : SecretKey → SecretKey → Rng → Bytes × Rng
  wrap_key kek dk r =
      let drawn = fill_bytes nonce_len r in (drawn.0 ++ encrypt kek drawn.0 [] dk, drawn.1)

  -- `unwrap_key`
  unfoldable pub unwrap_key : SecretKey → Bytes → Option SecretKey
  unwrap_key kek wrapped = decrypt kek (take nonce_len wrapped) [] (drop nonce_len wrapped)

  -- The frame that `ChunkCipher::seal_to` writes: nonce, length, ciphertext and tag.
  unfoldable pub seal : ChunkCipher → ℕ → Bytes → Rng → Bytes × Rng
  unfolding aad
  seal c seq plain r =
      let drawn = fill_bytes nonce_len r in
      let blob = encrypt c.key drawn.0 (aad c seq) plain in
      (drawn.0 ++ (to_le_bytes 4 (length blob) ++ blob), drawn.1)

  -- `ChunkCipher::open_in_place`
  unfoldable pub open_in_place : ChunkCipher → ℕ → Bytes → Bytes → Result Bytes
  unfolding aad
  open_in_place c seq nonce blob = elim (decrypt c.key nonce (aad c seq) blob) [
    | none ↦ err tampered
    | some plain ↦ ok plain
  ]
