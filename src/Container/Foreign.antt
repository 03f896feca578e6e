-- ===== src/Container/Foreign.antt =====
-- Containers whose header was not written by this install, and headers that are refused.
use foldervault.Base.{
  ℕ, ◌+◌, ◌^◌, ◌≤◌, ◌<◌, ◌≡◌, ◌≢◌, ap, ◌∙◌, Bool, true, false, ◌++◌, arith, Bytes, fields, length,
  length-append, length-fields, copy_at, take, drop-append, bytes_eq-false, Bool-cases, inl, inr,
  lt→ltb,
}
use foldervault.Vault.{VaultError, wrong_password, locked_out, ok, err}
use foldervault.Lockout.{LockoutState, lockout_secs, check, record_failure}
use foldervault.Lockout.Policy.{record_failure_locks}
use foldervault.Primitives.{Primitives, IsLawful}
use foldervault.Header.{Header, to_bytes}
use foldervault.Header.Layout.{IsHeader, layout, total-layout, length-to_bytes}
use foldervault.Header.RoundTrip.{from_bytes-written}
use foldervault.Container.Stream.{read_exact-append}
use foldervault.Container.Authorize.{
  File, Credential, password, clamp, rearm, rewrite_header, try_credential, read_header,
  open_and_authorize,
}
use foldervault.Container.Guard.{
  container, with_lockout, InRange, with_lockout-IsHeader, rearm-readonly, try_password_wrong,
  open_locked, record_failure-InRange,
}
use foldervault.Container.Attempts.{IsWrong}

-- A container file with any header fields and any MAC behind them: one of another install, or one
-- whose header was edited.
abbrev pub stamped : Header → Bytes → Bytes → Bool → File
stamped h mac rest readonly = record {
  bytes = (fields (layout h) ++ mac) ++ rest;
  readonly = readonly;
}

-- The MAC is not the one that this install's key makes of the fields.
abbrev pub IsForeign : Primitives → Header → Bytes → Bytes → Type 0
IsForeign P h mac key = (length mac ≡ 32) × (P.hmac key (fields (layout h)) ≢ mac)

-- The lockout fields that the clamp leaves of foreign ones.
abbrev clamped : Header → LockoutState
clamped h = (clamp (record h { hmac_ok = false })).lockout

clamp-with_lockout :
    (h : Header)
    → clamp (record h { hmac_ok = false }) ≡ with_lockout (record h { hmac_ok = false }) (clamped h)
unfolding clamp
clamp-with_lockout h = ground arith

clamped-InRange : (h : Header) → InRange h.lockout → InRange (clamped h)
unfolding clamp
clamped-InRange h r = ground arith

-- One wrong password arms the lockout over clamped fields.
clamped_locks :
    (h : Header) (now : ℕ)
    → h.lockout.locked_until ≡ 0
    → h.lockout.fail_count + 1 < 2 ^ 32
    → now + lockout_secs < 2 ^ 64
    → (check (clamped h) now ≡ ok tt)
      × ((record_failure (clamped h) now).1 ≡ locked_out (now + lockout_secs))
unfolding clamp check record_failure
clamped_locks h now unlocked count big = ground arith

clamped_expired :
    (h : Header) (now : ℕ)
    → h.lockout.locked_until ≢ 0
    → h.lockout.locked_until ≤ now
    → (check (clamped h) now ≡ ok tt) × ((record_failure (clamped h) now).1 ≡ wrong_password 2)
unfolding clamp check record_failure
clamped_expired h now ended past = ground arith

module _ (P : Primitives) (L : IsLawful P) (mac key : Bytes) (h : Header) (w : IsHeader h)
    (foreign : IsForeign P h mac key) where
  length-stamped : length (fields (layout h) ++ mac) ≡ 268
  length-stamped = omega (
    arith,
    length-append (fields (layout h)) mac,
    length-fields (layout h),
    total-layout h w,
    foreign.0,
  )

  read_foreign :
      (rest : Bytes)
      → read_header P ((fields (layout h) ++ mac) ++ rest) key ≡ ok (record h { hmac_ok = false })
  unfolding read_header
  read_foreign rest =
      rw (read_header, read_exact-append 268 (fields (layout h) ++ mac) rest length-stamped)
        (from_bytes-written P h w mac key
          ∙ ap (λ t. ok (record h { hmac_ok = t })) (bytes_eq-false _ _ foreign.1))

  opened_foreign :
      (credential : Credential) (now : ℕ) (rest : Bytes) (readonly : Bool)
      → open_and_authorize P credential key now (stamped h mac rest readonly)
        ≡ try_credential P credential key now readonly
            (stamped h mac rest false)
            (clamp (record h { hmac_ok = false }))
  unfolding open_and_authorize
  opened_foreign credential now rest true = rw (read_foreign rest)
  opened_foreign credential now rest false = rw (read_foreign rest)

  rewritten_foreign :
      (rest : Bytes) (s : LockoutState)
      → InRange s
      → rewrite_header P
          (with_lockout (record h { hmac_ok = false }) s)
          key
          (stamped h mac rest false)
        ≡ container P key (with_lockout h s) rest false
  unfolding rewrite_header copy_at take to_bytes
  rewritten_foreign rest s r =
      ap (λ t. record { bytes = to_bytes P (with_lockout h s) key ++ t; readonly = false })
        (rw (length-to_bytes P L (with_lockout h s) key (with_lockout-IsHeader h s w r))
          (drop-append 268 (fields (layout h) ++ mac) rest length-stamped))

  -- A wrong password on a foreign container, let through by `check` on the clamped fields.
  wrong_foreign :
      (pw : Bytes) (now : ℕ) (rest : Bytes) (readonly : Bool)
      → IsWrong P h pw
      → check (clamped h) now ≡ ok tt
      → open_and_authorize P (password pw) key now (stamped h mac rest readonly) ≡ (
        err (record_failure (clamped h) now).1,
        container P key (with_lockout h (record_failure (clamped h) now).0) rest readonly,
      )
  unfolding try_credential
  wrong_foreign pw now rest readonly (kek, d, u) c =
      opened_foreign (password pw) now rest readonly
      ∙ ap (try_credential P (password pw) key now readonly (stamped h mac rest false))
          (clamp-with_lockout h)
      ∙ try_password_wrong P pw key now readonly (stamped h mac rest false)
          (with_lockout (record h { hmac_ok = false }) (clamped h)) kek c d u
      ∙ ap (λ t. (err (record_failure (clamped h) now).1, rearm readonly t))
          (rewritten_foreign rest (record_failure (clamped h) now).0 ranges)
      ∙ ap (λ t. (err (record_failure (clamped h) now).1, t))
          (rearm-readonly P key rest (with_lockout h (record_failure (clamped h) now).0) readonly)
    where
      ranges : InRange (record_failure (clamped h) now).0
      ranges =
          record_failure-InRange (clamped h) now
            (clamped-InRange h (w.fail_count_range, w.locked_until_range))

  -- A container of another install, or one whose header was edited, so that its MAC is not the one
  -- that this install's key makes of its fields, that is not marked as locked out and whose count is
  -- below its largest value: a single wrong password locks it for 24 hours, and
  -- the lockout is written into the header under this install's key, so that every password typed
  -- before its end is refused.
  pub foreign_one_attempt :
      (pw pw' : Bytes) (now now' : ℕ) (rest : Bytes) (readonly : Bool)
      → IsWrong P h pw
      → h.lockout.locked_until ≡ 0
      → h.lockout.fail_count + 1 < 2 ^ 32
      → now + lockout_secs < 2 ^ 64
      → now' < now + lockout_secs
      → let opened = open_and_authorize P (password pw) key now (stamped h mac rest readonly) in
        (opened.0 ≡ err (locked_out (now + lockout_secs)))
        × (open_and_authorize P (password pw') key now' opened.1
            ≡ (err (locked_out (now + lockout_secs)), opened.1))
  foreign_one_attempt pw pw' now now' rest readonly wrong unlocked count big early =
      let (passes, locks) = clamped_locks h now unlocked count big in
      let s = (record_failure (clamped h) now).0 in
      let step = (record_failure_locks (clamped h) now (now + lockout_secs) now' locks big).1 in
      let refused = rw (lt→ltb now' (now + lockout_secs) early) at step in
      rw (wrong_foreign pw now rest readonly wrong passes) (
        ap err locks,
        open_locked P L key (with_lockout h s) (with_lockout-IsHeader h s w ranges) pw' now' rest
            readonly refused,
      )
    where
      ranges : InRange (record_failure (clamped h) now).0
      ranges =
          record_failure-InRange (clamped h) now
            (clamped-InRange h (w.fail_count_range, w.locked_until_range))

  -- The clamp does not reach a foreign header whose lockout has ended: there a wrong password is
  -- answered with two attempts left, whatever count the header held.
  pub foreign_expired :
      (pw : Bytes) (now : ℕ) (rest : Bytes) (readonly : Bool)
      → IsWrong P h pw
      → h.lockout.locked_until ≢ 0
      → h.lockout.locked_until ≤ now
      → (open_and_authorize P (password pw) key now (stamped h mac rest readonly)).0
        ≡ err (wrong_password 2)
  foreign_expired pw now rest readonly wrong ended past =
      let (passes, counts) = clamped_expired h now ended past in
      rw (wrong_foreign pw now rest readonly wrong passes) (ap err counts)

-- A header that is refused (the file is too short, the magic or the version differ) leaves the
-- read-only flag cleared, although nothing else of the file changes: the flag is lost.
pub refused_header_clears_readonly :
    (P : Primitives) (key : Bytes) (credential : Credential) (now : ℕ) (f : File) {e : VaultError}
    → read_header P f.bytes key ≡ err e
    → open_and_authorize P credential key now f ≡ (err e, record f { readonly = false })
unfolding open_and_authorize
refused_header_clears_readonly P key credential now f {e} r = elim (Bool-cases f.readonly) [
  | inl guarded ↦ rw (open_and_authorize, guarded, r)
  | inr plain ↦ rw (open_and_authorize, plain, r)
]
