-- ===== src/Journal.antt =====
-- crates/vault-core/src/journal.rs: the replay of the records that a crash left. A disk maps paths to
-- files and folders; removing a path succeeds as a whole or not at all, which `removable` says.
pub mod Safety
use foldervault.Base.{
  ℕ, ◌-◌, Bool, true, false, ◌&&◌, not, List, [], ◌∷◌, ◌++◌, Option, none, some, Bytes, Text, codes,
  ltb, bytes_eq, if◌then◌else◌, length, drop,
}
use foldervault.Vault.{IoError, denied, io, Result, ok, err}
use foldervault.Primitives.{Primitives}
use foldervault.Paths.{PathBuf}
use foldervault.Walk.{Node}
use foldervault.Container.Authorize.{File, set_readonly}
use foldervault.Container.Verify.{verify_structure}

-- The tree of a folder: what a scan sees, and the files below, or the error of opening one.
pub record Tree : Type 0 where
  pub listing : Node
  pub files : PathBuf → Result File

pub data Item : Type 0 where
  a_file : File → Item
  a_folder : Tree → Item

abbrev pub Disk : Type 0
Disk = Text → Option Item

-- `OpKind` and `Record`
pub data OpKind : Type 0 where
  lock unlock : OpKind

pub record Record : Type 0 where
  pub op : OpKind
  pub folder : Text
  pub container : Text
  pub staging : Text

pub data RecoveryAction : Type 0 where
  finished_lock rolled_back_lock finished_unlock rolled_back_unlock : Text → RecoveryAction

unfoldable pub exists : Disk → Text → Bool
exists disk p = elim (disk p) [ none ↦ false | some i ↦ true ]

unfoldable pub put : Text → Option Item → Disk → Disk
unfolding bytes_eq
put p i disk q = if bytes_eq p q then i else disk q

-- `set_readonly` on a path, whose error is dropped: a folder or no item stays as it is.
unfoldable pub guarded : Bool → Option Item → Option Item
unfolding set_readonly
guarded flag (some (a_file f)) = some (a_file (set_readonly flag f))
guarded flag item = item

unfoldable pub guard_path : Text → Bool → Disk → Disk
unfolding put guarded
guard_path p flag disk = put p (guarded flag (disk p)) disk

module _ (removable : Text → Bool) where
  unfoldable pub remove_file : Text → Disk → Disk
  unfolding put
  remove_file p disk = elim (disk p) [
    | some (a_file f) ↦ (if removable p then put p none disk else disk)
    | _ ↦ disk
  ]

  unfoldable pub remove_dir_all : Text → Disk → Disk
  unfolding put
  remove_dir_all p disk = elim (disk p) [
    | some (a_folder t) ↦ (if removable p then put p none disk else disk)
    | _ ↦ disk
  ]

  -- `trash::recycle`: whether it succeeded.
  unfoldable pub recycle : Text → Disk → Bool × Disk
  unfolding put
  recycle p disk = if exists disk p && removable p then (true, put p none disk) else (false, disk)

module _ (P : Primitives) (removable : Text → Bool) where
  -- `verify_structure(container, hmac_key).is_ok()`
  unfoldable pub is_complete : Bytes → Disk → Text → Bool
  is_complete hmac_key disk p = elim (disk p) [
    | some (a_file f) ↦ elim (verify_structure P f.bytes hmac_key) [ ok n ↦ true | err e ↦ false ]
    | _ ↦ false
  ]

  unfoldable pub replay_lock : Record → Bytes → Disk → Option RecoveryAction × Disk
  replay_lock rec hmac_key disk =
      if exists disk rec.staging
      then (some (rolled_back_lock rec.staging), remove_file removable rec.staging disk)
      else if exists disk rec.folder
          && exists disk rec.container
          && is_complete hmac_key disk rec.container
      then (let r = recycle removable rec.folder disk in
          ((if r.0 then some (finished_lock rec.folder) else none), r.1))
      else (none, disk)

  unfoldable pub replay_unlock : Record → Disk → Option RecoveryAction × Disk
  replay_unlock rec disk =
      if exists disk rec.staging
      then (some (rolled_back_unlock rec.staging), remove_dir_all removable rec.staging disk)
      else if exists disk rec.folder && exists disk rec.container
      then (let r = recycle removable rec.container (guard_path rec.container false disk) in
          ((if r.0 then some (finished_unlock rec.container) else none), r.1))
      else (none, disk)

  -- `replay`
  unfoldable pub replay : Record → Bytes → Disk → Option RecoveryAction × Disk
  unfolding replay_lock replay_unlock
  replay rec hmac_key disk = elim rec.op [
    | lock ↦ replay_lock rec hmac_key disk
    | unlock ↦ replay_unlock rec disk
  ]

-- An item of the journal's directory: an error, or a name and what reading it gives.
pub data Listed : Type 0 where
  unlisted : IoError → Listed
  listed : Text → Option Bytes → Listed

-- The extension is `jrec`.
unfoldable pub is_record : Text → Bool
is_record name = ltb 5 (length name) && bytes_eq (drop (length name - 5) name) (codes ".jrec")

-- What `recover` leaves: its result, the disk, and the names it removed from the journal.
pub record Recovered : Type 0 where
  pub actions : Result (List RecoveryAction)
  pub disk : Disk
  pub removed : List Text

module _ (P : Primitives) (removable : Text → Bool) (deserialize : Bytes → Option Record) where
  -- The loop of `recover`, with the actions so far.
  unfoldable pub recover_from :
      List Listed → Bytes → List RecoveryAction → List Text → Disk → Recovered
  recover_from [] hmac_key actions removed disk = record {
    actions = ok actions;
    disk = disk;
    removed = removed;
  }
  recover_from (unlisted e ∷ rest) hmac_key actions removed disk = record {
    actions = err (io e);
    disk = disk;
    removed = removed;
  }
  recover_from (listed name none ∷ rest) hmac_key actions removed disk =
      recover_from rest hmac_key actions removed disk
  recover_from (listed name (some bytes) ∷ rest) hmac_key actions removed disk =
      elim (is_record name) [
        | false ↦ recover_from rest hmac_key actions removed disk
        | true ↦ elim (deserialize bytes) [
          | none ↦ recover_from rest hmac_key actions (removed ++ (name ∷ [])) disk
          | some rec ↦
              let r = replay P removable rec hmac_key disk in
              recover_from rest hmac_key
                (elim r.0 [ none ↦ actions | some a ↦ actions ++ (a ∷ []) ])
                (removed ++ (name ∷ [])) r.1
        ]
      ]

  -- `Journal::recover`, on what `fs::read_dir` of the journal's directory gives.
  unfoldable pub recover : Result (List Listed) → Bytes → Disk → Recovered
  recover (err e) hmac_key disk = record { actions = err e; disk = disk; removed = [] }
  recover (ok items) hmac_key disk = recover_from items hmac_key [] [] disk
