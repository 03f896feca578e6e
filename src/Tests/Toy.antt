-- ===== src/Tests/Toy.antt =====
-- Toy primitives that behave as the code relies on: the tag is a checksum of key, nonce and
-- associated data, and the shared secret is a product.
use foldervault.Base.{
  ℕ, ◌+◌, ◌*◌, ◌%◌, ◌<◌, ◌≡◌, sym, ap, ◌∙◌, [], ◌∷◌, ◌++◌, Option, none, some, arith, Bytes,
  bytes_eq, bytes_eq_iff, bytes_eq_refl, if◌then◌else◌, length, length-append, take, drop,
  take-append, drop-append, take-append-drop, zeros, length-zeros, zeros-IsByte, All, All-append,
  IsByte, IsArray, get_or, Bool-cases, inl, inr, ◌↔◌,
}
use foldervault.Primitives.{Primitives, IsLawful, done}
use foldervault.Random.{Rng}
use native.Mathlib.Nat.{mul_comm}

weight : Bytes → ℕ
weight [] = 7
weight (b ∷ bs) = (b + 3 * weight bs) % 256

tag : Bytes → Bytes → Bytes → Bytes
unfolding weight zeros
tag key nonce ad = weight key ∷ weight nonce ∷ weight ad ∷ zeros 13

sealed : Bytes → Bytes → Bytes → Bytes → Bytes
sealed key nonce ad plain = tag key nonce ad ++ plain

unsealed : Bytes → Bytes → Bytes → Bytes → Option Bytes
unsealed key nonce ad blob =
    if bytes_eq (take 16 blob) (tag key nonce ad) then some (drop 16 blob) else none

mac : Bytes → Bytes → Bytes
unfolding weight zeros
mac key message = weight key ∷ weight message ∷ zeros 30

hash : Bytes → Bytes
unfolding weight zeros
hash message = weight message ∷ zeros 31

shared : Bytes → Bytes → Bytes
unfolding weight
shared a b = weight a * get_or b 0 0 ∷ []

unfoldable pub toy : Primitives
unfolding sealed unsealed mac hash shared tag weight zeros take drop bytes_eq
toy = record {
  hmac = mac;
  sha256 = hash;
  argon2_params = λ p. done tt;
  argon2id = λ password salt p. done password;
  encrypt = sealed;
  decrypt = unsealed;
  public_key = hash;
  diffie_hellman = shared;
}

weight-lt : (bs : Bytes) → weight bs < 256
unfolding weight
weight-lt [] = omega arith
weight-lt (b ∷ bs) = omega arith

hash-IsArray : (message : Bytes) → IsArray 32 (hash message)
unfolding hash
hash-IsArray message = (omega (arith, length-zeros 31), (weight-lt message, zeros-IsByte 31))

mac-IsArray : (key message : Bytes) → IsArray 32 (mac key message)
unfolding mac
mac-IsArray key message =
    (omega (arith, length-zeros 30), (weight-lt key, (weight-lt message, zeros-IsByte 30)))

length-tag : (key nonce ad : Bytes) → length (tag key nonce ad) ≡ 16
unfolding tag
length-tag key nonce ad = omega (arith, length-zeros 13)

length-sealed :
    (key nonce ad plain : Bytes) → length (sealed key nonce ad plain) ≡ length plain + 16
length-sealed key nonce ad plain =
    unfold sealed in omega (arith, length-append (tag key nonce ad) plain, length-tag key nonce ad)

sealed-IsByte :
    (key nonce ad plain : Bytes) → All IsByte plain → All IsByte (sealed key nonce ad plain)
unfolding sealed tag
sealed-IsByte key nonce ad plain h =
    All-append IsByte (tag key nonce ad) plain
      (weight-lt key, (weight-lt nonce, (weight-lt ad, zeros-IsByte 13))) h

unsealed-sealed :
    (key nonce ad plain : Bytes) → unsealed key nonce ad (tag key nonce ad ++ plain) ≡ some plain
unfolding unsealed
unsealed-sealed key nonce ad plain = rw (
  take-append 16 (tag key nonce ad) plain (length-tag key nonce ad),
  drop-append 16 (tag key nonce ad) plain (length-tag key nonce ad),
  bytes_eq_refl (tag key nonce ad),
)

sealed-unsealed :
    (key nonce ad blob plain : Bytes)
    → unsealed key nonce ad blob ≡ some plain
    → blob ≡ tag key nonce ad ++ plain
unfolding unsealed
sealed-unsealed key nonce ad blob plain h =
    elim (Bool-cases (bytes_eq (take 16 blob) (tag key nonce ad))) [
      | inl same ↦
          sym (take-append-drop 16 blob)
          ∙ ap (λ t. t ++ drop 16 blob) ((bytes_eq_iff _ _).0 same)
          ∙ ap (λ t. tag key nonce ad ++ t) (ground arith)
      | inr other ↦ absurd (ground arith)
    ]

unsealed_iff :
    (key nonce ad blob plain : Bytes)
    → (unsealed key nonce ad blob ≡ some plain) ↔ (blob ≡ sealed key nonce ad plain)
unfolding sealed
unsealed_iff key nonce ad blob plain = (
  sealed-unsealed key nonce ad blob plain,
  λ e. ap (unsealed key nonce ad) e ∙ unsealed-sealed key nonce ad plain,
)

shared_comm : (a b : Bytes) → shared a (hash b) ≡ shared b (hash a)
unfolding shared hash
shared_comm a b = ap (λ (t : ℕ). t ∷ []) (mul_comm (weight a) (weight b))

pub toy-IsLawful : IsLawful toy
unfolding toy
toy-IsLawful = record {
  hmac-IsArray = mac-IsArray;
  sha256-IsArray = hash-IsArray;
  length-encrypt = length-sealed;
  encrypt-IsByte = sealed-IsByte;
  decrypt_iff = unsealed_iff;
  public_key-IsArray = hash-IsArray;
  diffie_hellman_comm = shared_comm;
}

-- A tape of bytes.
abbrev pub tape : Rng
tape = record { tape = λ i. i % 256; position = 5 }
