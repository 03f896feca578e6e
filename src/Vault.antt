-- ===== src/Vault.antt =====
-- crates/vault-core/src/lib.rs: the constants and the error type of the library.
use foldervault.Base.{◌≡◌, ◌⊎◌, inl, inr, refl, ℕ, Bytes, Text, ◌∷◌, []}

-- `CHUNK_SIZE`: the plaintext bytes of one frame.
abbrev pub chunk_size : ℕ
chunk_size = 1_048_576

-- `MAGIC`, the text "FVLT".
abbrev pub magic : Bytes
magic = b'F' ∷ b'V' ∷ b'L' ∷ b'T' ∷ []

-- `VERSION`
abbrev pub version : ℕ
version = 1

-- `std::io::ErrorKind`, as far as the code tells kinds apart.
pub data IoError : Type 0 where
  not_found unexpected_eof invalid_data denied : IoError

-- `VaultError`. A path is its text.
pub data VaultError : Type 0 where
  wrong_password : ℕ → VaultError
  locked_out : ℕ → VaultError
  tampered : VaultError
  bad_magic : VaultError
  bad_version : ℕ → VaultError
  exists_already : Text → VaultError
  unsupported : Text → VaultError
  other : Text → VaultError
  io : IoError → VaultError

-- `Result<T, VaultError>`, with `?` as bind.
pub data Result {ℓ} (A : Type ℓ) : Type ℓ where
  ok : A → Result A
  err : VaultError → Result A

infixl 5 ◌>>=◌ ◌>>◌
abbrev pub ◌>>◌ {ℓ} : {A : Type ℓ} → Result (Unit {0}) → Result A → Result A
ok done >> next = next
err failure >> next = err failure

abbrev pub ◌>>=◌ {ℓ₁ ℓ₂} : {A : Type ℓ₁} {B : Type ℓ₂} → Result A → (A → Result B) → Result B
ok value >>= next = next value
err failure >>= next = err failure

-- What a chain returned came from both of its parts.
pub >>=-eq-ok {ℓ₁ ℓ₂} :
    {A : Type ℓ₁} {B : Type ℓ₂} (first : Result A) (next : A → Result B) {last : B}
    → (first >>= next) ≡ ok last
    → (value : A) × (first ≡ ok value) × (next value ≡ ok last)
>>=-eq-ok (ok value) next returned = (value, refl, returned)
>>=-eq-ok (err failure) next returned = cc

pub Result-cases {ℓ} :
    {A : Type ℓ} (m : Result A) → ((a : A) × (m ≡ ok a)) ⊎ ((e : VaultError) × (m ≡ err e))
Result-cases (ok a) = inl (a, refl)
Result-cases (err e) = inr (e, refl)
