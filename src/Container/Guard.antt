-- ===== src/Container/Guard.antt =====
-- What `open_and_authorize` does to a container of this install: which bytes it rewrites, on every
-- branch, and what it returns.
use foldervault.Base.{
  ℕ, ◌≡◌, refl, ap, ◌∙◌, Bool, true, false, ◌++◌, IsU32, IsU64, none, some, arith, Bytes, Text,
  take, drop-append, copy_at, Bool-cases, inl, inr,
}
use foldervault.Vault.{VaultError, ok, err}
use foldervault.Lockout.{LockoutState, default, check, record_failure, reset}
use foldervault.Primitives.{Primitives, IsLawful}
use foldervault.Crypto.{derive_kek, unwrap_key}
use foldervault.Header.{Header, to_bytes}
use foldervault.Header.Layout.{IsHeader, length-to_bytes}
use foldervault.Header.RoundTrip.{from_bytes-to_bytes_own}
use foldervault.Recovery.Seal.{is_enrolled, open_dk}
use foldervault.Container.Stream.{read_exact-append}
use foldervault.Container.Authorize.{
  File, Credential, password, master_code, rearm, is_marked, rewrite_header, finish, try_password,
  try_master_code, try_credential, read_header, open_and_authorize,
}

-- A container file of the install with key `key`: a header, and its frames.
abbrev pub container : Primitives → Bytes → Header → Bytes → Bool → File
container P key h rest readonly = record { bytes = to_bytes P h key ++ rest; readonly = readonly }

-- The header with other lockout fields.
abbrev pub with_lockout : Header → LockoutState → Header
with_lockout h s = record h { lockout = s }

-- The two fields fit their words.
abbrev pub InRange : LockoutState → Type 0
InRange s = IsU32 s.fail_count × IsU64 s.locked_until

pub record_failure-InRange :
    (s : LockoutState) (now : ℕ) → InRange s → InRange (record_failure s now).0
unfolding record_failure
record_failure-InRange s now h = ground arith

pub with_lockout-IsHeader :
    (h : Header) (s : LockoutState) → IsHeader h → InRange s → IsHeader (with_lockout h s)
with_lockout-IsHeader h s w r = record {
  uuid_length = w.uuid_length;
  salt_length = w.salt_length;
  pw_length = w.pw_length;
  mk_length = w.mk_length;
  m_cost_range = w.m_cost_range;
  t_cost_range = w.t_cost_range;
  lanes_range = w.lanes_range;
  fail_count_range = r.0;
  locked_until_range = r.1;
  entry_count_range = w.entry_count_range;
  payload_len_range = w.payload_len_range;
}

-- The header as it is read back.
abbrev pub own : Header → Header
own h = record h { hmac_ok = true }

-- The branches of the password path.
module _ (P : Primitives) (pw key : Bytes) (now : ℕ) (readonly : Bool) (f : File) (h : Header) where
  try_password_locked :
      {e : VaultError}
      → check h.lockout now ≡ err e
      → try_password P pw key now readonly f h ≡ (err e, rearm readonly f)
  unfolding try_password
  try_password_locked c = rw (try_password, c)

  pub try_password_wrong :
      (kek : Bytes)
      → check h.lockout now ≡ ok tt
      → derive_kek P pw h.salt h.kdf ≡ ok kek
      → unwrap_key P kek h.wrapped_dk_pw ≡ none
      → try_password P pw key now readonly f h ≡ (
        err (record_failure h.lockout now).1,
        rearm readonly (rewrite_header P (with_lockout h (record_failure h.lockout now).0) key f),
      )
  unfolding try_password
  try_password_wrong kek c d u = rw (try_password, c, d, u)

  try_password_underived :
      {e : VaultError}
      → check h.lockout now ≡ ok tt
      → derive_kek P pw h.salt h.kdf ≡ err e
      → (try_password P pw key now readonly f h).0 ≡ err e
  unfolding try_password
  try_password_underived c d = rw (try_password, c, d)

  try_password_right :
      (kek dk : Bytes)
      → check h.lockout now ≡ ok tt
      → derive_kek P pw h.salt h.kdf ≡ ok kek
      → unwrap_key P kek h.wrapped_dk_pw ≡ some dk
      → try_password P pw key now readonly f h ≡ finish P key readonly f h dk
  unfolding try_password
  try_password_right kek dk c d u = rw (try_password, c, d, u)

try_master_code_right :
    (P : Primitives) (code : Text) (key : Bytes) (readonly : Bool) (f : File) (h : Header)
    (dk : Bytes)
    → is_enrolled h.wrapped_dk_mk ≡ true
    → open_dk P code h.wrapped_dk_mk ≡ some dk
    → try_master_code P code key readonly f h ≡ finish P key readonly f h dk
unfolding try_master_code
try_master_code_right P code key readonly f h dk enrolled o = rw (try_master_code, enrolled, o)

is_marked-default : (s : LockoutState) → is_marked s ≡ false → s ≡ default
unfolding is_marked
is_marked-default s e = ground arith

pub rearm-readonly :
    (P : Primitives) (key rest : Bytes) (h : Header) (readonly : Bool)
    → rearm readonly (container P key h rest false) ≡ container P key h rest readonly
unfolding rearm
rearm-readonly P key rest h true = refl
rearm-readonly P key rest h false = refl

module _ (P : Primitives) (L : IsLawful P) (key : Bytes) (h : Header) (w : IsHeader h) where
  pub read_header-container :
      (rest : Bytes)
      → read_header P (to_bytes P h key ++ rest) key ≡ ok (record h { hmac_ok = true })
  unfolding read_header
  read_header-container rest =
      rw (read_header, read_exact-append 268 (to_bytes P h key) rest (length-to_bytes P L h key w))
        (from_bytes-to_bytes_own P L h key w)

  -- Rewriting the header of a container, whoever wrote it, leaves the frames alone.
  pub rewrite_header-container :
      (writer : Bytes) (h' : Header) (rest : Bytes) (readonly : Bool)
      → IsHeader h'
      → rewrite_header P h' key (container P writer h rest readonly)
        ≡ container P key h' rest readonly
  unfolding rewrite_header copy_at take
  rewrite_header-container writer h' rest readonly w' =
      ap (λ t. record { bytes = t; readonly = readonly })
        (ap (λ t. to_bytes P h' key ++ t)
          (rw (length-to_bytes P L h' key w')
            (drop-append 268 (to_bytes P h writer) rest (length-to_bytes P L h writer w))))

  -- The prologue reads the container's own header, with the read-only flag cleared.
  opened :
      (credential : Credential) (now : ℕ) (rest : Bytes) (readonly : Bool)
      → open_and_authorize P credential key now (container P key h rest readonly)
        ≡ try_credential P credential key now readonly (container P key h rest false) (own h)
  unfolding open_and_authorize
  opened credential now rest true = rw (read_header-container rest)
  opened credential now rest false = rw (read_header-container rest)

  -- The header is written again with other lockout fields.
  rewritten :
      (s : LockoutState) (rest : Bytes)
      → InRange s
      → rewrite_header P (with_lockout (own h) s) key (container P key h rest false)
        ≡ container P key (with_lockout h s) rest false
  unfolding rewrite_header to_bytes
  rewritten s rest r =
      rewrite_header-container key (with_lockout h s) rest false (with_lockout-IsHeader h s w r)

  -- The data key is known: the lockout fields are cleared.
  finished :
      (dk rest : Bytes) (readonly : Bool)
      → finish P key readonly (container P key h rest false) (own h) dk ≡ (
        ok (record { header = own (with_lockout h default); dk = dk; was_readonly = readonly }),
        container P key (with_lockout h default) rest false,
      )
  unfolding finish reset
  finished dk rest readonly = elim (Bool-cases (is_marked h.lockout)) [
    | inl marked ↦ rw (marked, rewritten default rest (omega arith))
    | inr clear ↦ rw (clear, is_marked-default h.lockout clear)
  ]

  -- While the container is locked out, every password is refused with the end of the lockout, and
  -- nothing of the file changes: the answer does not depend on the password.
  pub open_locked :
      (pw : Bytes) (now : ℕ) (rest : Bytes) (readonly : Bool) {e : VaultError}
      → check h.lockout now ≡ err e
      → open_and_authorize P (password pw) key now (container P key h rest readonly)
        ≡ (err e, container P key h rest readonly)
  unfolding try_credential
  open_locked pw now rest readonly {e} c =
      opened (password pw) now rest readonly
      ∙ try_password_locked P pw key now readonly (container P key h rest false) (own h) c
      ∙ ap (λ t. (err e, t)) (rearm-readonly P key rest h readonly)

  -- The error of the derivation of a key comes out.
  pub open_underived :
      (pw : Bytes) (now : ℕ) (rest : Bytes) (readonly : Bool) {e : VaultError}
      → check h.lockout now ≡ ok tt
      → derive_kek P pw h.salt h.kdf ≡ err e
      → (open_and_authorize P (password pw) key now (container P key h rest readonly)).0 ≡ err e
  unfolding try_credential
  open_underived pw now rest readonly c d =
      ap (λ r. r.0) (opened (password pw) now rest readonly)
      ∙ try_password_underived P pw key now readonly (container P key h rest false) (own h) c d

  -- A wrong password that `check` lets through returns what `record_failure` reports. The new lockout
  -- fields are written into the header under a fresh MAC; its other fields, the frames behind it and
  -- the read-only flag stay.
  pub open_wrong :
      (pw kek : Bytes) (now : ℕ) (rest : Bytes) (readonly : Bool)
      → check h.lockout now ≡ ok tt
      → derive_kek P pw h.salt h.kdf ≡ ok kek
      → unwrap_key P kek h.wrapped_dk_pw ≡ none
      → open_and_authorize P (password pw) key now (container P key h rest readonly) ≡ (
        err (record_failure h.lockout now).1,
        container P key (with_lockout h (record_failure h.lockout now).0) rest readonly,
      )
  unfolding try_credential
  open_wrong pw kek now rest readonly c d u =
      opened (password pw) now rest readonly
      ∙ try_password_wrong P pw key now readonly (container P key h rest false) (own h) kek c d u
      ∙ ap (λ t. (err (record_failure h.lockout now).1, t))
          (ap (rearm readonly) (rewritten (record_failure h.lockout now).0 rest ranges)
            ∙ rearm-readonly P key rest (with_lockout h (record_failure h.lockout now).0) readonly)
    where
      ranges : InRange (record_failure h.lockout now).0
      ranges = record_failure-InRange h.lockout now (w.fail_count_range, w.locked_until_range)

  -- The right password, let through by `check`, gives the data key; the lockout fields are cleared and
  -- the read-only flag is left off for the caller, who learns what it was.
  pub open_right :
      (pw kek dk : Bytes) (now : ℕ) (rest : Bytes) (readonly : Bool)
      → check h.lockout now ≡ ok tt
      → derive_kek P pw h.salt h.kdf ≡ ok kek
      → unwrap_key P kek h.wrapped_dk_pw ≡ some dk
      → open_and_authorize P (password pw) key now (container P key h rest readonly) ≡ (
        ok (record { header = own (with_lockout h default); dk = dk; was_readonly = readonly }),
        container P key (with_lockout h default) rest false,
      )
  unfolding try_credential
  open_right pw kek dk now rest readonly c d u =
      opened (password pw) now rest readonly
      ∙ try_password_right P pw key now readonly (container P key h rest false) (own h) kek dk c d u
      ∙ finished dk rest readonly

  -- The recovery code of an enrolled container opens it whatever the lockout fields and the time are,
  -- and clears them.
  pub open_master :
      (code : Text) (dk : Bytes) (now : ℕ) (rest : Bytes) (readonly : Bool)
      → is_enrolled h.wrapped_dk_mk ≡ true
      → open_dk P code h.wrapped_dk_mk ≡ some dk
      → open_and_authorize P (master_code code) key now (container P key h rest readonly) ≡ (
        ok (record { header = own (with_lockout h default); dk = dk; was_readonly = readonly }),
        container P key (with_lockout h default) rest false,
      )
  unfolding try_credential
  open_master code dk now rest readonly enrolled o =
      opened (master_code code) now rest readonly
      ∙ try_master_code_right P code key readonly (container P key h rest false) (own h) dk enrolled
          o
      ∙ finished dk rest readonly
