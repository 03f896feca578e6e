-- ===== src/Cli.antt =====
-- crates/vault-cli/src/main.rs: the commands of `fvlt` and their exit codes. The operations of the core
-- crate and of the terminal are an interface over the state of the machine; what is printed is left out.
pub mod Run
use foldervault.Base.{
  ℕ, ◌+◌, ◌*◌, ◌/◌, ◌%◌, ◌^◌, Bool, true, false, ◌&&◌, ◌||◌, not, List, [], ◌∷◌, Option, none, some,
  Bytes, Text, codes, ◌==◌, bytes_eq, if◌then◌else◌, length, take,
}
use foldervault.Vault.{
  VaultError, wrong_password, locked_out, tampered, bad_magic, bad_version, IoError, Result, ok,
  err,
}
use foldervault.Container.Authorize.{Credential, password, master_code}
use foldervault.Header.{Header}

-- `LockOptions` as the command sets them.
pub record LockFlags : Type 0 where
  pub secure_delete : Bool
  pub recycle_original : Bool
  pub readonly_container : Bool
  pub master_pub : Option Bytes

-- What the commands call, over a state `W`.
pub record Core (W : Type 0) : Type 0 where
  pub install_key : W → Result Bytes × W
  pub recover : Bytes → W → W
  pub load_master_pub : W → Option Bytes
  pub generate : W → Bytes × W
  pub save_master_pub : Bytes → W → Result (Unit {0}) × W
  -- The bytes of a text, in UTF-8.
  pub as_bytes : Text → Bytes
  pub lock_folder : Text → Bytes → Bytes → LockFlags → W → Result (Unit {0}) × W
  pub unlock_container : Text → Credential → Bytes → W → Result (Unit {0}) × W
  pub verify_and_delete : Text → Credential → Bytes → W → Result (Unit {0}) × W
  pub inspect : Text → Bytes → W → Result Header
  pub verify_structure : Text → Bytes → W → Result ℕ
  -- One line of the standard input, or its error.
  pub read_line : W → Option Text × W

-- `err_code`
unfoldable pub err_code : VaultError → ℕ
err_code (wrong_password n) = 3
err_code (locked_out n) = 4
err_code tampered = 5
err_code bad_magic = 5
err_code (bad_version v) = 5
err_code _ = 1

abbrev pub usage : ℕ
usage = 2

abbrev pub fail : ℕ
fail = 1

-- The exit code of a result.
unfoldable pub exit_code : Result (Unit {0}) → ℕ
unfolding err_code
exit_code (ok u) = 0
exit_code (err e) = err_code e

-- `print_progress`: the percentage shown last, and whether it is printed.
unfoldable pub print_progress : ℕ → ℕ → ℕ → ℕ × Bool
print_progress last done total =
    if total == 0
    then (last, false)
    else (let pct = done * 100 % 2 ^ 64 / total in
        if pct == last then (last, false) else (pct, true))

-- `rest.iter().any(|a| a == name)`
unfoldable pub flag : List Text → Text → Bool
unfolding bytes_eq
flag [] name = false
flag (a ∷ rest) name = bytes_eq a name || flag rest name

-- The first argument that does not start with two dashes.
unfoldable pub operand : List Text → Option Text
unfolding bytes_eq take
operand [] = none
operand (a ∷ rest) = if bytes_eq (take 2 a) (codes "--") then operand rest else some a

-- `line.trim_end_matches(['\r', '\n'])`
unfoldable pub trim_end : Text → Text
trim_end [] = []
trim_end (c ∷ line) =
    let rest = trim_end line in if (c == 10 || c == 13) && length rest == 0 then [] else c ∷ rest

module _ {W : Type 0} (core : Core W) where
  open core use {read_line}

  -- The closure `read_line` of `read_secret`.
  unfoldable pub read_trimmed : W → Option Text × W
  unfolding trim_end
  read_trimmed w =
      let r = read_line w in
      elim r.0 [
        | none ↦ (none, r.1)
        | some line ↦
            (if length (trim_end line) == 0 then (none, r.1) else (some (trim_end line), r.1))
      ]

  -- `read_secret`
  unfoldable pub read_secret : Bool → Bool → W → Option Text × W
  unfolding read_trimmed bytes_eq
  read_secret from_stdin confirm w =
      let r = read_trimmed w in
      elim r.0 [
        | none ↦ (none, r.1)
        | some pw ↦ elim (confirm && not from_stdin) [
          | false ↦ (some pw, r.1)
          | true ↦
              let s = read_trimmed r.1 in
              elim s.0 [
                | none ↦ (none, s.1)
                | some again ↦ ((if bytes_eq pw again then some pw else none), s.1)
              ]
        ]
      ]
