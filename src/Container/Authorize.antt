-- ===== src/Container/Authorize.antt =====
-- format.rs, `open_and_authorize`: the prologue that unlocking and deleting share. A container file
-- is its bytes and its read-only flag; reads and writes of an open file do not fail.
use foldervault.Base.{
  ℕ, ◌-◌, Bool, true, false, not, ◌&&◌, ◌||◌, none, some, Bytes, Text, codes, ltb, ◌==◌,
  if◌then◌else◌, copy_at,
}
use foldervault.Vault.{other, Result, ok, err}
use foldervault.Lockout.{LockoutState, max_attempts, check, record_failure, reset}
use foldervault.Primitives.{Primitives}
use foldervault.Crypto.{SecretKey, derive_kek, unwrap_key}
use foldervault.Header.{Header, header_len, to_bytes, from_bytes}
use foldervault.Recovery.Seal.{is_enrolled, open_dk}
use foldervault.Container.Stream.{read_exact}

pub record File : Type 0 where
  pub bytes : Bytes
  pub readonly : Bool

-- `trash::set_readonly`
unfoldable pub set_readonly : Bool → File → File
set_readonly flag f = record f { readonly = flag }

-- `Credential`
pub data Credential : Type 0 where
  password : Bytes → Credential
  master_code : Text → Credential

-- What a successful prologue returns: the header, the data key and the flag on entry.
pub record Opened : Type 0 where
  pub header : Header
  pub dk : SecretKey
  pub was_readonly : Bool

-- Foreign or tampered lockout fields: the count is raised to the last attempt.
unfoldable pub clamp : Header → Header
clamp h =
    if not h.hmac_ok && ltb h.lockout.fail_count (max_attempts - 1)
    then record h { lockout = record (h.lockout) { fail_count = max_attempts - 1 } }
    else h

-- The closure `rearm`.
unfoldable pub rearm : Bool → File → File
unfolding set_readonly
rearm was_readonly f = if was_readonly then set_readonly true f else f

-- `lockout != LockoutState::default()`
unfoldable pub is_marked : LockoutState → Bool
is_marked s = not (s.fail_count == 0) || not (s.locked_until == 0)

module _ (P : Primitives) where
  -- `rewrite_header`
  unfoldable pub rewrite_header : Header → Bytes → File → File
  rewrite_header h hmac_key f = record f { bytes = copy_at 0 (to_bytes P h hmac_key) f.bytes }

  -- The end of the prologue, once the data key is known.
  unfoldable pub finish : Bytes → Bool → File → Header → SecretKey → Result Opened × File
  unfolding reset
  finish hmac_key was_readonly f h dk =
      if is_marked h.lockout || not h.hmac_ok
      then (let h' = record h { lockout = reset h.lockout } in
          (
            ok (record { header = h'; dk = dk; was_readonly = was_readonly }),
            rewrite_header h' hmac_key f,
          ))
      else (ok (record { header = h; dk = dk; was_readonly = was_readonly }), f)

  unfoldable pub try_password : Bytes → Bytes → ℕ → Bool → File → Header → Result Opened × File
  unfolding finish
  try_password pw hmac_key now_unix was_readonly f h = elim (check h.lockout now_unix) [
    | err e ↦ (err e, rearm was_readonly f)
    | ok u ↦ elim (derive_kek P pw h.salt h.kdf) [
      | err e ↦ (err e, f)
      | ok kek ↦ elim (unwrap_key P kek h.wrapped_dk_pw) [
        | some dk ↦ finish hmac_key was_readonly f h dk
        | none ↦
            let failure = record_failure h.lockout now_unix in
            (
              err failure.1,
              rearm was_readonly (rewrite_header (record h { lockout = failure.0 }) hmac_key f),
            )
      ]
    ]
  ]

  unfoldable pub try_master_code : Text → Bytes → Bool → File → Header → Result Opened × File
  unfolding finish
  try_master_code code hmac_key was_readonly f h =
      if not (is_enrolled h.wrapped_dk_mk)
      then (err (other (codes "no master key is enrolled in this container")), rearm was_readonly f)
      else elim (open_dk P code h.wrapped_dk_mk) [
        | some dk ↦ finish hmac_key was_readonly f h dk
        | none ↦ (err (other (codes "invalid recovery code")), rearm was_readonly f)
      ]

  unfoldable pub try_credential :
      Credential → Bytes → ℕ → Bool → File → Header → Result Opened × File
  unfolding try_password try_master_code
  try_credential (password pw) hmac_key now_unix was_readonly f h =
      try_password pw hmac_key now_unix was_readonly f h
  try_credential (master_code code) hmac_key now_unix was_readonly f h =
      try_master_code code hmac_key was_readonly f h

  -- What follows once the header is read or refused.
  unfoldable pub with_header :
      Credential → Bytes → ℕ → Bool → File → Result Header → Result Opened × File
  unfolding clamp try_credential
  with_header credential hmac_key now_unix was_readonly f (err e) = (err e, f)
  with_header credential hmac_key now_unix was_readonly f (ok h) =
      try_credential credential hmac_key now_unix was_readonly f (clamp h)

  -- The first `header_len` bytes, parsed.
  unfoldable pub read_header : Bytes → Bytes → Result Header
  unfolding read_exact
  read_header bytes hmac_key = elim (read_exact header_len bytes) [
    | err e ↦ err e
    | ok (hb, rest) ↦ from_bytes P hb hmac_key
  ]

  -- `open_and_authorize`
  unfoldable pub open_and_authorize : Credential → Bytes → ℕ → File → Result Opened × File
  unfolding set_readonly with_header read_header
  open_and_authorize credential hmac_key now_unix f =
      let f' = if f.readonly then set_readonly false f else f in
      with_header credential hmac_key now_unix f.readonly f' (read_header f'.bytes hmac_key)
