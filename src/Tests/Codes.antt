-- ===== src/Tests/Codes.antt =====
-- Lockouts, keys and recovery codes on concrete data.
use foldervault.Base.{
  ℕ, ◌+◌, ◌≤◌, ◌≡◌, ◌≢◌, ◌⊎◌, ◌↔◌, refl, [], ◌∷◌, some, inr, arith, Bytes, Text, codes, zeros,
  replicate, take, drop, bytes_eq, ltb, if◌then◌else◌, length, to_le_bytes, IsArray,
}
use foldervault.Vault.{wrong_password, locked_out, ok, err}
use foldervault.Lockout.{LockoutState, default, check, record_failure}
use foldervault.Lockout.Policy.{record_failure_locks, attempts_left_exact, failures}
use foldervault.Crypto.{default_kdf, validate, ChunkCipher, aad, open_in_place}
use foldervault.Crypto.Seal.{validate_iff, open_in_place_elsewhere}
use foldervault.Recovery.Base32.{encode_code, decode_code}
use foldervault.Recovery.Typing.{Retyped, done, separate, keep, decode_code-Retyped}
use foldervault.Tests.Toy.{toy, toy-IsLawful}

abbrev twice : LockoutState
twice = record { fail_count = 2; locked_until = 0 }

twice-locks : (record_failure twice 1000).1 ≡ locked_out 87400
unfolding record_failure
twice-locks = refl

record_failure_locks_example :
    (87400 ≡ 1000 + 86400)
    × (check (record_failure twice 1000).0 500
        ≡ (if ltb 500 87400 then err (locked_out 87400) else ok tt))
record_failure_locks_example = record_failure_locks twice 1000 87400 500 twice-locks (omega arith)

default-passes : check default 7 ≡ ok tt
unfolding check
default-passes = refl

default-counts : (record_failure default 7).1 ≡ wrong_password 2
unfolding record_failure
default-counts = refl

attempts_left_exact_example :
    ((◌≡◌ {A = ℕ} 2 1) × (failures (record_failure default 7).0 (8 ∷ []) ≡ locked_out 86408 ∷ []))
    ⊎ ((◌≡◌ {A = ℕ} 2 2)
        × (failures (record_failure default 7).0 (8 ∷ 9 ∷ [])
            ≡ wrong_password 1 ∷ locked_out 86409 ∷ []))
attempts_left_exact_example =
    attempts_left_exact default 7 2 8 9 default-passes default-counts (omega arith) (omega arith)
      (omega arith)

validate_iff_example :
    (validate default_kdf ≡ ok tt)
    ↔ ((1024 ≤ 65536) × (65536 ≤ 1048576) × (1 ≤ 3) × (3 ≤ 16) × (1 ≤ 4) × (4 ≤ 16))
validate_iff_example = validate_iff default_kdf

abbrev secret : Bytes
secret = 5 ∷ 250 ∷ zeros 30

-- Two containers whose associated data have one checksum under the toy primitives.
abbrev cipher : ChunkCipher
cipher = record { key = codes "data"; uuid = zeros 16 }

collision :
    open_in_place toy cipher 509
      (zeros 12)
      (toy.encrypt cipher.key (zeros 12) (aad cipher 0) secret)
    ≡ ok secret
unfolding open_in_place toy aad to_le_bytes zeros replicate take drop bytes_eq
collision = refl

uuid-length : length cipher.uuid ≡ 16
unfolding zeros replicate
uuid-length = refl

open_in_place_elsewhere_example :
    (aad cipher 0 ≢ aad cipher 509)
    × (toy.encrypt cipher.key (zeros 12) (aad cipher 0) secret
        ≡ toy.encrypt cipher.key (zeros 12) (aad cipher 509) secret)
open_in_place_elsewhere_example =
    open_in_place_elsewhere toy toy-IsLawful cipher cipher 0 509 (zeros 12) secret secret
      uuid-length uuid-length (omega arith) (omega arith) (inr (λ e. omega arith)) collision

secret-IsArray : IsArray 32 secret
unfolding zeros replicate
secret-IsArray = omega arith

Retyped-self : (t : Text) → Retyped t t
Retyped-self [] = done
Retyped-self (c ∷ t) = keep c (Retyped-self t)

-- The code as it is printed, with a blank before it.
decode_code-Retyped_example : decode_code toy (b' ' ∷ encode_code toy secret) ≡ some secret
decode_code-Retyped_example =
    decode_code-Retyped toy toy-IsLawful secret secret-IsArray
      (separate b' ' (inr refl) (Retyped-self (encode_code toy secret)))
