-- ===== src/Container/Attempts.antt =====
-- Runs of wrong passwords on a container: the file follows the state machine of `Lockout`.
use foldervault.Base.{
  ℕ, ◌+◌, ◌*◌, ◌^◌, ◌≤◌, ◌<◌, ◌≡◌, refl, ap, Bool, List, [], ◌∷◌, map, arith, codes, bytes_eq,
  if◌then◌else◌, Bytes, All, none, ◌⊎◌, inl, inr,
}
use foldervault.Vault.{VaultError, other, locked_out, ok, err, Result-cases}
use foldervault.Lockout.{LockoutState, max_attempts, lockout_secs, check, record_failure}
use foldervault.Lockout.Policy.{
  wrong_guess, wrong_guess-passed, wrong_guess-refused, is_evaluated, evaluated, IsCounting,
  evaluated-le-max_attempts,
}
use foldervault.Primitives.{Primitives, IsLawful, KdfParams, Call, done, failed}
use foldervault.Crypto.{derive_kek, unwrap_key}
use foldervault.Header.{Header, to_bytes}
use foldervault.Header.Layout.{IsHeader}
use foldervault.Container.Authorize.{File, password, open_and_authorize}
use foldervault.Container.Guard.{
  container, with_lockout, InRange, with_lockout-IsHeader, open_locked, open_wrong, open_underived,
}

-- A password whose key does not unwrap the header's data key.
abbrev pub IsWrong : Primitives → Header → Bytes → Type 0
IsWrong P h pw =
    (kek : Bytes) × (derive_kek P pw h.salt h.kdf ≡ ok kek)
    × (unwrap_key P kek h.wrapped_dk_pw ≡ none)

-- A password and the time at which it is typed.
pub record Attempt : Type 0 where
  pub pw : Bytes
  pub time : ℕ

-- The primitives with an Argon2 that fails with a known message whenever it is called.
abbrev pub out_of_order : Primitives → Primitives
out_of_order P = record P { argon2id = λ pw salt p. failed (codes "reached") }

module _ (P : Primitives) (key : Bytes) where
  -- The file after a run of attempts.
  unfoldable pub after_attempts : File → List Attempt → File
  after_attempts f [] = f
  after_attempts f (a ∷ later) =
      after_attempts (open_and_authorize P (password a.pw) key a.time f).1 later

  -- Whether `open_and_authorize` gets as far as the derivation of a key: it then returns the error of
  -- an Argon2 that is out of order.
  unfoldable pub is_compared : File → Attempt → ℕ
  unfolding bytes_eq
  is_compared f a = elim (open_and_authorize (out_of_order P) (password a.pw) key a.time f).0 [
    | err (other message) ↦ (if bytes_eq message (codes "kdf failed: reached") then 1 else 0)
    | _ ↦ 0
  ]

  -- How many attempts of a run get that far.
  unfoldable pub compared : File → List Attempt → ℕ
  compared f [] = 0
  compared f (a ∷ later) =
      is_compared f a + compared (open_and_authorize P (password a.pw) key a.time f).1 later

-- The states after a run of wrong guesses.
unfoldable pub guessed : LockoutState → List ℕ → LockoutState
guessed s [] = s
guessed s (t ∷ ts) = guessed (wrong_guess s t) ts

check-cases :
    (s : LockoutState) (now : ℕ)
    → (check s now ≡ ok tt) ⊎ ((e : VaultError) × (check s now ≡ err e))
check-cases s now = elim (Result-cases (check s now)) [
  | inl (tt, c) ↦ inl c
  | inr (e, c) ↦ inr (e, c)
]

-- What `check` refuses with is a lockout.
check-locked_out :
    (s : LockoutState) (now : ℕ) (e : VaultError)
    → check s now ≡ err e
    → e ≡ locked_out s.locked_until
unfolding check
check-locked_out s now e h = ground arith

derive_kek-reached :
    (P : Primitives) (pw salt : Bytes) (p : KdfParams) (kek : Bytes)
    → derive_kek P pw salt p ≡ ok kek
    → derive_kek (out_of_order P) pw salt p ≡ err (other (codes "kdf failed: reached"))
unfolding derive_kek
derive_kek-reached P pw salt p kek h = go (P.argon2_params p) refl
  where
    go :
        (c : Call (Unit {0}))
        → P.argon2_params p ≡ c
        → derive_kek (out_of_order P) pw salt p ≡ err (other (codes "kdf failed: reached"))
    go (done u) made = ground arith
    go (failed e) refused = ground arith

container-out_of_order :
    (P : Primitives) (key : Bytes) (h : Header) (rest : Bytes) (readonly : Bool)
    → container P key h rest readonly ≡ container (out_of_order P) key h rest readonly
unfolding to_bytes
container-out_of_order P key h rest readonly = refl

out_of_order-IsLawful : (P : Primitives) → IsLawful P → IsLawful (out_of_order P)
out_of_order-IsLawful P L = record {
  hmac-IsArray = L.hmac-IsArray;
  sha256-IsArray = L.sha256-IsArray;
  length-encrypt = L.length-encrypt;
  encrypt-IsByte = L.encrypt-IsByte;
  decrypt_iff = L.decrypt_iff;
  public_key-IsArray = L.public_key-IsArray;
  diffie_hellman_comm = L.diffie_hellman_comm;
}

wrong_guess-InRange : (s : LockoutState) (now : ℕ) → InRange s → InRange (wrong_guess s now)
unfolding wrong_guess check record_failure
wrong_guess-InRange s now h = ground arith

module _ (P : Primitives) (L : IsLawful P) (key : Bytes) where
  -- One wrong password: the file takes the step that `wrong_guess` takes.
  open-wrong_guess :
      (h : Header) (rest : Bytes) (readonly : Bool) (pw : Bytes) (now : ℕ)
      → IsHeader h
      → IsWrong P h pw
      → (open_and_authorize P (password pw) key now (container P key h rest readonly)).1
        ≡ container P key (with_lockout h (wrong_guess h.lockout now)) rest readonly
  open-wrong_guess h rest readonly pw now w (kek, d, u) = elim (check-cases h.lockout now) [
    | inl c ↦
        rw (wrong_guess-passed h.lockout now c)
          (ap (λ r. r.1) (open_wrong P L key h w pw kek now rest readonly c d u))
    | inr (e, c) ↦
        rw (wrong_guess-refused h.lockout now c)
          (ap (λ r. r.1) (open_locked P L key h w pw now rest readonly c))
  ]

  -- After any run of wrong passwords the container is the one it was, but for the lockout fields,
  -- which the run of `wrong_guess` at the same times gives.
  pub after_attempts-guessed :
      (runs : List Attempt) (h : Header) (rest : Bytes) (readonly : Bool)
      → IsHeader h
      → All (λ (a : Attempt). IsWrong P h a.pw) runs
      → after_attempts P key (container P key h rest readonly) runs
        ≡ container P key
            (with_lockout h (guessed h.lockout (map (λ (a : Attempt). a.time) runs)))
            rest
            readonly
  unfolding after_attempts guessed
  after_attempts-guessed [] h rest readonly w wrong = refl
  after_attempts-guessed (a ∷ runs) h rest readonly w (wa, wrong) =
      rw (open-wrong_guess h rest readonly a.pw a.time w wa) (
        after_attempts-guessed runs (with_lockout h (wrong_guess h.lockout a.time)) rest readonly
          (with_lockout-IsHeader h _ w
            (wrong_guess-InRange h.lockout a.time (w.fail_count_range, w.locked_until_range)))
          wrong)

  is_compared-container :
      (h : Header) (rest : Bytes) (readonly : Bool) (a : Attempt)
      → IsHeader h
      → IsWrong P h a.pw
      → is_compared P key (container P key h rest readonly) a ≡ is_evaluated h.lockout a.time
  unfolding is_compared is_evaluated check
  is_compared-container h rest readonly a w (kek, d, u) = elim (check-cases h.lockout a.time) [
    | inl c ↦
        rw
          (
            is_compared,
            container-out_of_order P key h rest readonly,
            open_underived (out_of_order P) (out_of_order-IsLawful P L) key h w a.pw a.time rest
                readonly c (derive_kek-reached P a.pw h.salt h.kdf kek d),
            is_evaluated,
            c,
          )
          refl
    | inr (e, c) ↦
        rw
          (
            is_compared,
            container-out_of_order P key h rest readonly,
            open_locked (out_of_order P) (out_of_order-IsLawful P L) key h w a.pw a.time rest
                readonly c,
            is_evaluated,
            c,
          )
          (ground (arith, check-locked_out h.lockout a.time e c))
  ]

  compared-evaluated :
      (runs : List Attempt) (h : Header) (rest : Bytes) (readonly : Bool)
      → IsHeader h
      → All (λ (a : Attempt). IsWrong P h a.pw) runs
      → compared P key (container P key h rest readonly) runs
        ≡ evaluated h.lockout (map (λ (a : Attempt). a.time) runs)
  unfolding compared evaluated
  compared-evaluated [] h rest readonly w wrong = refl
  compared-evaluated (a ∷ runs) h rest readonly w (wa, wrong) =
      rw
        (
          open-wrong_guess h rest readonly a.pw a.time w wa,
          is_compared-container h rest readonly a w wa,
        )
        (ap (λ t. is_evaluated h.lockout a.time + t)
          (compared-evaluated runs (with_lockout h (wrong_guess h.lockout a.time)) rest readonly
            (with_lockout-IsHeader h _ w
              (wrong_guess-InRange h.lockout a.time (w.fail_count_range, w.locked_until_range)))
            wrong))

  -- Of the wrong passwords tried on a container of this install within any 24 hours, in whatever order
  -- the clock shows them, at most three get as far as the derivation of a key. The window ends within
  -- the range of u64, and outside of a lockout the header's count is below its largest value.
  pub compared-le-max_attempts :
      (start : ℕ) (runs : List Attempt) (h : Header) (rest : Bytes) (readonly : Bool)
      → IsHeader h
      → All (λ (a : Attempt). IsWrong P h a.pw) runs
      → All (λ t. (start ≤ t) × (t < start + lockout_secs)) (map (λ (a : Attempt). a.time) runs)
      → IsCounting h.lockout
      → start + 2 * lockout_secs < 2 ^ 64
      → compared P key (container P key h rest readonly) runs ≤ max_attempts
  compared-le-max_attempts start runs h rest readonly w wrong window c big =
      rw (compared-evaluated runs h rest readonly w wrong) (
        evaluated-le-max_attempts start (map (λ (a : Attempt). a.time) runs) h.lockout c window big)
