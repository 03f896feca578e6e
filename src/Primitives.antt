-- ===== src/Primitives.antt =====
-- The functions of other crates (aes-gcm, argon2, hmac, sha2, x25519-dalek) that the code calls, and
-- the documented behaviour that it relies on.
use foldervault.Base.{ℕ, ◌+◌, ◌≡◌, ◌↔◌, Option, some, Bytes, Text, IsArray, All, IsByte, length}

-- `KdfParams` of crypto.rs, which argon2 is called with.
pub record KdfParams : Type 0 where
  pub m_cost_kib : ℕ
  pub t_cost : ℕ
  pub lanes : ℕ

-- The result of a call that reports its error as text.
pub data Call {ℓ} (A : Type ℓ) : Type ℓ where
  done : A → Call A
  failed : Text → Call A

pub record Primitives : Type 0 where
  -- HMAC-SHA256 of a key and a message.
  pub hmac : Bytes → Bytes → Bytes
  pub sha256 : Bytes → Bytes
  -- `Params::new`, and `hash_password_into` of a password and a salt.
  pub argon2_params : KdfParams → Call (Unit {0})
  pub argon2id : Bytes → Bytes → KdfParams → Call Bytes
  -- AES-256-GCM with a key, a nonce and associated data; the tag stands behind the ciphertext.
  pub encrypt : Bytes → Bytes → Bytes → Bytes → Bytes
  pub decrypt : Bytes → Bytes → Bytes → Bytes → Option Bytes
  -- X25519: the public key of a secret, and the shared secret.
  pub public_key : Bytes → Bytes
  pub diffie_hellman : Bytes → Bytes → Bytes

pub record IsLawful (P : Primitives) : Type 0 where
  pub hmac-IsArray : (key message : Bytes) → IsArray 32 (P.hmac key message)
  pub sha256-IsArray : (message : Bytes) → IsArray 32 (P.sha256 message)
  -- The ciphertext is 16 bytes longer than the plaintext.
  pub length-encrypt :
      (key nonce aad plain : Bytes) → length (P.encrypt key nonce aad plain) ≡ length plain + 16
  pub encrypt-IsByte :
      (key nonce aad plain : Bytes) → All IsByte plain → All IsByte (P.encrypt key nonce aad plain)
  -- Encryption is deterministic once the nonce is given, and the tag is compared in full.
  pub decrypt_iff :
      (key nonce aad blob plain : Bytes)
      → (P.decrypt key nonce aad blob ≡ some plain) ↔ (blob ≡ P.encrypt key nonce aad plain)
  pub public_key-IsArray : (secret : Bytes) → IsArray 32 (P.public_key secret)
  -- Both sides compute the same shared secret.
  pub diffie_hellman_comm :
      (a b : Bytes) → P.diffie_hellman a (P.public_key b) ≡ P.diffie_hellman b (P.public_key a)
