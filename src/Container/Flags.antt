-- ===== src/Container/Flags.antt =====
-- The read-only flag through `open_and_authorize` of format.rs, when it opens a container.
use foldervault.Base.{
  ℕ, arith, ◌≡◌, refl, Bool, true, false, Bytes, Text, Bool-cases, Option-cases, inl, inr,
}
use foldervault.Vault.{ok, Result-cases}
use foldervault.Lockout.{check}
use foldervault.Primitives.{Primitives}
use foldervault.Crypto.{derive_kek, unwrap_key}
use foldervault.Header.{Header}
use foldervault.Recovery.Seal.{is_enrolled, open_dk}
use foldervault.Container.Authorize.{
  File, Credential, password, master_code, Opened, set_readonly, rewrite_header, clamp, finish,
  try_password, try_master_code, try_credential, with_header, read_header, open_and_authorize,
}

module _ (P : Primitives) (key : Bytes) (was : Bool) (f : File) (clear : f.readonly ≡ false)
    (opened : Opened) where
  finish-readonly :
      (h : Header) (dk : Bytes)
      → (finish P key was f h dk).0 ≡ ok opened
      → (opened.was_readonly ≡ was) × ((finish P key was f h dk).1.readonly ≡ false)
  unfolding finish rewrite_header
  finish-readonly h dk e = ground arith

  try_password-readonly :
      (pw : Bytes) (now : ℕ) (h : Header)
      → (try_password P pw key now was f h).0 ≡ ok opened
      → (opened.was_readonly ≡ was) × ((try_password P pw key now was f h).1.readonly ≡ false)
  unfolding try_password
  try_password-readonly pw now h e = elim (Result-cases (check h.lockout now)) [
    | inr (x, c) ↦ absurd (cc (rw (try_password, c) at e))
    | inl (u, c) ↦ elim (Result-cases (derive_kek P pw h.salt h.kdf)) [
      | inr (x, d) ↦ absurd (cc (rw (try_password, c, d) at e))
      | inl (kek, d) ↦ elim (Option-cases (unwrap_key P kek h.wrapped_dk_pw)) [
        | inl w ↦ absurd (cc (rw (try_password, c, d, w) at e))
        | inr (dk, w) ↦
            rw (try_password, c, d, w) (finish-readonly h dk (rw (try_password, c, d, w) at e))
      ]
    ]
  ]

  try_master_code-readonly :
      (code : Text) (h : Header)
      → (try_master_code P code key was f h).0 ≡ ok opened
      → (opened.was_readonly ≡ was) × ((try_master_code P code key was f h).1.readonly ≡ false)
  unfolding try_master_code
  try_master_code-readonly code h e = elim (Bool-cases (is_enrolled h.wrapped_dk_mk)) [
    | inr no_key ↦ absurd (cc (rw (try_master_code, no_key) at e))
    | inl key_there ↦ elim (Option-cases (open_dk P code h.wrapped_dk_mk)) [
      | inl w ↦ absurd (cc (rw (try_master_code, key_there, w) at e))
      | inr (dk, w) ↦
          rw (try_master_code, key_there, w)
            (finish-readonly h dk (rw (try_master_code, key_there, w) at e))
    ]
  ]

  try_credential-readonly :
      (credential : Credential) (now : ℕ) (h : Header)
      → (try_credential P credential key now was f h).0 ≡ ok opened
      → (opened.was_readonly ≡ was)
        × ((try_credential P credential key now was f h).1.readonly ≡ false)
  unfolding try_credential
  try_credential-readonly (password pw) now h e = try_password-readonly pw now h e
  try_credential-readonly (master_code code) now h e = try_master_code-readonly code h e

flag-readonly :
    (P : Primitives) (credential : Credential) (key : Bytes) (now : ℕ) (bytes : Bytes) (flag : Bool)
    (opened : Opened)
    → let r = open_and_authorize P credential key now (record { bytes = bytes; readonly = flag }) in
      r.0 ≡ ok opened → (opened.was_readonly ≡ flag) × (r.1.readonly ≡ false)
unfolding open_and_authorize with_header set_readonly
flag-readonly P credential key now bytes true opened e =
    elim (Result-cases (read_header P bytes key)) [
      | inr (x, r) ↦ absurd (cc (rw r at e))
      | inl (h, r) ↦ rw r (
          try_credential-readonly P key true (record { bytes = bytes; readonly = false }) refl
            opened credential now (clamp h) (rw r at e))
    ]
flag-readonly P credential key now bytes false opened e =
    elim (Result-cases (read_header P bytes key)) [
      | inr (x, r) ↦ absurd (cc (rw r at e))
      | inl (h, r) ↦ rw r (
          try_credential-readonly P key false (record { bytes = bytes; readonly = false }) refl
            opened credential now (clamp h) (rw r at e))
    ]

-- A prologue that opens the file tells which flag it had, and leaves it cleared.
pub open_and_authorize-readonly :
    (P : Primitives) (credential : Credential) (key : Bytes) (now : ℕ) (f : File) (opened : Opened)
    → (open_and_authorize P credential key now f).0 ≡ ok opened
    → (opened.was_readonly ≡ f.readonly)
      × ((open_and_authorize P credential key now f).1.readonly ≡ false)
open_and_authorize-readonly P credential key now f opened e =
    flag-readonly P credential key now f.bytes f.readonly opened e
