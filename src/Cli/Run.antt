-- ===== src/Cli/Run.antt =====
-- `run` of crates/vault-cli/src/main.rs: the commands, and what their exit codes say.
use foldervault.Base.{
  ℕ, Bool, true, false, ◌&&◌, ◌||◌, not, List, [], ◌∷◌, Option, none, some, Bytes, Text, codes,
  bytes_eq, if◌then◌else◌,
}
use foldervault.Vault.{Result, ok, err}
use foldervault.Container.Authorize.{Credential, password, master_code}
use foldervault.Cli.{LockFlags, Core, err_code, exit_code, usage, fail, flag, operand, read_secret}

abbrev pub is_some {ℓ} : {A : Type ℓ} → Option A → Bool
is_some none = false
is_some (some a) = true

module _ {W : Type 0} (core : Core W) (key : Bytes) where
  open core use {
    load_master_pub, generate, save_master_pub, as_bytes, lock_folder, unlock_container,
    verify_and_delete, inspect, verify_structure,
  }

  -- "master-init"
  unfoldable pub master_init : List Text → W → ℕ × W
  master_init rest w =
      if is_some (load_master_pub w) && not (flag rest (codes "--force"))
      then (fail, w)
      else (let pair = generate w in
          let saved = save_master_pub pair.0 pair.1 in
          elim saved.0 [ err e ↦ (fail, saved.1) | ok u ↦ (0, saved.1) ])

  -- "lock"
  unfoldable pub run_lock : List Text → W → ℕ × W
  unfolding exit_code
  run_lock rest w = elim (operand rest) [
    | none ↦ (usage, w)
    | some path ↦
        let s = read_secret core (flag rest (codes "--password-stdin")) true w in
        elim s.0 [
          | none ↦ (fail, s.1)
          | some pw ↦
              let opts : LockFlags = record {
                secure_delete = flag rest (codes "--secure-delete");
                recycle_original = flag rest (codes "--recycle");
                readonly_container = flag rest (codes "--readonly");
                master_pub = load_master_pub s.1;
              } in
              let r = lock_folder path (as_bytes pw) key opts s.1 in (exit_code r.0, r.1)
        ]
  ]

  -- The secret of "unlock" and of "delete", as a credential.
  unfoldable pub read_credential : List Text → W → Option Credential × W
  read_credential rest w =
      let use_master = flag rest (codes "--master-stdin") in
      let s = read_secret core (flag rest (codes "--password-stdin") || use_master) false w in
      elim s.0 [
        | none ↦ (none, s.1)
        | some secret ↦
            (some (if use_master then master_code secret else password (as_bytes secret)), s.1)
      ]

  -- "unlock" and "delete", which differ in the operation.
  unfoldable pub run_opening :
      (Text → Credential → Bytes → W → Result (Unit {0}) × W) → List Text → W → ℕ × W
  unfolding read_credential exit_code
  run_opening operation rest w = elim (operand rest) [
    | none ↦ (usage, w)
    | some path ↦
        let c = read_credential rest w in
        elim c.0 [
          | none ↦ (fail, c.1)
          | some credential ↦ let r = operation path credential key c.1 in (exit_code r.0, r.1)
        ]
  ]

  -- "inspect" and "verify", which only read.
  unfoldable pub run_inspect : List Text → W → ℕ
  unfolding err_code
  run_inspect [] w = usage
  run_inspect (path ∷ rest) w = elim (inspect path key w) [ err e ↦ err_code e | ok h ↦ 0 ]

  unfoldable pub run_verify : List Text → W → ℕ
  unfolding err_code
  run_verify [] w = usage
  run_verify (path ∷ rest) w = elim (verify_structure path key w) [ err e ↦ err_code e | ok n ↦ 0 ]

  -- The `match` on the command.
  unfoldable pub dispatch : Text → List Text → W → ℕ × W
  unfolding master_init run_lock run_opening run_inspect run_verify
  dispatch cmd rest w =
      if bytes_eq cmd (codes "master-init")
      then master_init rest w
      else if bytes_eq cmd (codes "recover")
      then (0, w)
      else if bytes_eq cmd (codes "lock")
      then run_lock rest w
      else if bytes_eq cmd (codes "unlock")
      then run_opening unlock_container rest w
      else if bytes_eq cmd (codes "delete")
      then run_opening verify_and_delete rest w
      else if bytes_eq cmd (codes "inspect")
      then (run_inspect rest w, w)
      else if bytes_eq cmd (codes "verify")
      then (run_verify rest w, w)
      else (usage, w)

module _ {W : Type 0} (core : Core W) where
  open core use {install_key, recover}

  -- `run`: the install key, the replay of the journal, and then the command.
  unfoldable pub run : List Text → W → ℕ × W
  unfolding dispatch
  run [] w = (usage, w)
  run (cmd ∷ rest) w =
      let k = install_key w in
      elim k.0 [ err e ↦ (fail, k.1) | ok key ↦ dispatch core key cmd rest (recover key k.1) ]
