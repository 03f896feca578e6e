-- ===== src/Secrets.antt =====
-- crates/vault-core/src/secrets.rs: the files of one install, below its directory. DPAPI, and the
-- refusals of the file system, are parameters.
pub mod Kept
use foldervault.Base.{
  ℕ, ◌≡◌, Bool, true, false, ◌&&◌, List, [], ◌∷◌, ◌++◌, Option, none, some, Bytes, Text, codes, leb,
  ◌==◌, bytes_eq, if◌then◌else◌, length, take, drop,
}
use foldervault.Vault.{IoError, not_found, invalid_data, other, io, Result, ok, err}
use foldervault.Random.{Rng, fill_bytes}

-- `DPAPI_MAGIC`, the text "FVP1".
abbrev pub dpapi_magic : Bytes
dpapi_magic = b'F' ∷ b'V' ∷ b'P' ∷ b'1' ∷ []

-- `data_dir`, on the environment.
unfoldable pub data_dir : (Text → Option Text) → Text
data_dir env = elim (env (codes "FVLT_KEY_DIR")) [
  | some dir ↦ dir
  | none ↦ elim (env (codes "LOCALAPPDATA")) [
    | some dir ↦ dir ++ codes "\\FolderVault"
    | none ↦ codes ".foldervault"
  ]
]

-- What reading a file gives: no file, an error, or its bytes.
pub data Stored : Type 0 where
  absent : Stored
  broken : IoError → Stored
  holds : Bytes → Stored

abbrev pub Store : Type 0
Store = Text → Stored

unfoldable pub store_file : Text → Bytes → Store → Store
unfolding bytes_eq
store_file name bytes store q = if bytes_eq name q then holds bytes else store q

abbrev pub install_key : Text
install_key = codes "install.key"

abbrev pub master_pub : Text
master_pub = codes "master.pub"

-- The operating system: CryptProtectData and CryptUnprotectData, and the errors with which the
-- directory is not made or a file not written.
pub record Dpapi : Type 0 where
  pub protect : Bytes → Option Bytes
  pub unprotect : Bytes → Option Bytes
  pub no_dir : Option IoError
  pub no_write : Text → Option IoError

module _ (D : Dpapi) where
  -- `read_protected`. An `io::Error` of the kind Other is `other`.
  unfoldable pub read_protected : Text → Store → Result (Option Bytes)
  unfolding take drop bytes_eq
  read_protected name store = elim (store name) [
    | absent ↦ ok none
    | broken e ↦ err (io e)
    | holds raw ↦
        if leb 4 (length raw) && bytes_eq (take 4 raw) dpapi_magic
        then elim (D.unprotect (drop 4 raw)) [
          | none ↦ err (io invalid_data)
          | some plain ↦ ok (some plain)
        ]
        else ok (some raw)
  ]

  -- `write_protected`
  unfoldable pub write_protected : Text → Bytes → Store → Result (Unit {0}) × Store
  unfolding store_file
  write_protected name plain store = elim (D.protect plain) [
    | none ↦ (err (other (codes "DPAPI protect failed")), store)
    | some blob ↦ elim (D.no_write name) [
      | some e ↦ (err (io e), store)
      | none ↦ (ok tt, store_file name (dpapi_magic ++ blob) store)
    ]
  ]

  -- `create_dir_all`, and then `write_protected`.
  unfoldable pub write_new : Text → Bytes → Store → Result (Unit {0}) × Store
  unfolding write_protected
  write_new name plain store = elim D.no_dir [
    | some e ↦ (err (io e), store)
    | none ↦ write_protected name plain store
  ]

  -- The part of `load_or_create_install_key` that makes a key.
  unfoldable pub create_key : Store → Rng → Result Bytes × Store × Rng
  unfolding write_new
  create_key store r =
      let k = fill_bytes 32 r in
      let w = write_new install_key k.0 store in
      (elim w.0 [ ok u ↦ ok k.0 | err e ↦ err e ], w.1, k.1)

  -- `load_or_create_install_key`
  unfoldable pub load_or_create_install_key : Store → Rng → Result Bytes × Store × Rng
  unfolding read_protected create_key
  load_or_create_install_key store r = elim (read_protected install_key store) [
    | err e ↦ (err e, store, r)
    | ok none ↦ create_key store r
    | ok (some bytes) ↦
        let fresh = create_key store r in if length bytes == 32 then (ok bytes, store, r) else fresh
  ]

  -- `load_master_pub`
  unfoldable pub load_master_pub : Store → Option Bytes
  unfolding read_protected
  load_master_pub store = elim (read_protected master_pub store) [
    | ok (some bytes) ↦ (if length bytes == 32 then some bytes else none)
    | _ ↦ none
  ]

  -- `save_master_pub`
  unfoldable pub save_master_pub : Bytes → Store → Result (Unit {0}) × Store
  unfolding write_new
  save_master_pub public store = write_new master_pub public store
