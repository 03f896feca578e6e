-- ===== src/Lockout.antt =====
-- crates/vault-core/src/lockout.rs: the lockout state machine over the header's two fields.
-- `u32` and `u64` additions wrap, as they do in the release build.
pub mod Policy
use foldervault.Base.{ℕ, ◌+◌, ◌-◌, ◌%◌, ◌^◌, not, ◌&&◌, ltb, leb, ◌==◌, if◌then◌else◌}
use foldervault.Vault.{VaultError, wrong_password, locked_out, Result, ok, err}

abbrev pub max_attempts : ℕ
max_attempts = 3

abbrev pub lockout_secs : ℕ
lockout_secs = 86400

pub record LockoutState : Type 0 where
  pub fail_count : ℕ
  pub locked_until : ℕ

-- `LockoutState::default()`
abbrev pub default : LockoutState
default = record { fail_count = 0; locked_until = 0 }

-- `LockoutState::check`
unfoldable pub check : LockoutState → ℕ → Result (Unit {0})
check s now_unix =
    if not (s.locked_until == 0) && ltb now_unix s.locked_until
    then err (locked_out s.locked_until)
    else ok tt

-- The first statement of `record_failure`: an expired lockout starts a fresh window.
unfoldable pub refresh : LockoutState → ℕ → LockoutState
refresh s now_unix = if not (s.locked_until == 0) && leb s.locked_until now_unix then default else s

-- `LockoutState::record_failure`: the state that it leaves, and the error that it returns.
unfoldable pub record_failure : LockoutState → ℕ → LockoutState × VaultError
unfolding refresh
record_failure s now_unix =
    let fresh = refresh s now_unix in
    let count = (fresh.fail_count + 1) % 2 ^ 32 in
    if leb max_attempts count
    then (let until = (now_unix + lockout_secs) % 2 ^ 64 in
        (record { fail_count = count; locked_until = until }, locked_out until))
    else (record fresh { fail_count = count }, wrong_password (max_attempts - count))

-- `LockoutState::reset`
unfoldable pub reset : LockoutState → LockoutState
reset s = default
