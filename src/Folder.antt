-- ===== src/Folder.antt =====
-- What lock_folder and unlock_container of format.rs, and `begin` and `complete` of journal.rs, do to
-- the disk. An action keeps every moment that the disk went through: a crash leaves one of them.
pub mod Names
pub mod Wipe
pub mod Wiped
pub mod Lock
pub mod Unlock
pub mod Triple
pub mod Calls
pub mod Records
pub mod LockSteps
pub mod LockCrash
pub mod LockSafe
pub mod Runs
pub mod Success
pub mod Succeeds
pub mod Locks
pub mod Delete
pub mod UnlockSteps
pub mod UnlockCrash
pub mod UnlockWhole
pub mod UnlockSafe
pub mod Restores
pub mod Unlocks
pub mod Returns
use foldervault.Base.{
  ℕ, ◌+◌, ◌-◌, ◌/◌, ◌%◌, Bool, true, false, List, [], ◌∷◌, ◌++◌, Option, none, some, Bytes, Text,
  codes, ltb, bytes_eq, if◌then◌else◌, take,
}
use foldervault.Vault.{VaultError, IoError, not_found, denied, io, other, Result, ok, err}
use foldervault.Primitives.{Call, done, failed}
use foldervault.Paths.{PathBuf}
use foldervault.Container.Payload.{Made}
use foldervault.Journal.{Item, a_file, a_folder, Tree, Disk, Record, exists, put, guard_path}

-- The journal's directory: the names of its files with their bytes.
abbrev pub Records : Type 0
Records = List (Text × Bytes)

pub record Moment : Type 0 where
  pub disk : Disk
  pub records : Records

pub record World : Type 0 where
  pub now : Moment
  pub passed : List Moment

-- The calls of the operating system. Each is made at most once in one operation.
pub data OsCall : Type 0 where
  clear_stale create_staging write_staging discard_staging create_record write_record : OsCall
  rename_staging remove_copy guard_container rearm_container : OsCall
  forget_record : OsCall

-- What the operating system does: the error with which it refuses a call, and what stood in a
-- file, a record or a folder when its writing or its removal was under way.
pub record Os : Type 0 where
  pub refuses : OsCall → Option IoError
  pub partial : Bytes
  pub written : ℕ
  pub half : Tree → Tree
  -- The tree that the entries made below a new folder show. Its files go by the paths at which they
  -- were made, also after a rename of the folder.
  pub shown : List Made → Tree
  -- Whether a file opens for writing, and how many bytes of it the disk takes.
  pub writable : PathBuf → Bool
  pub accepts : PathBuf → ℕ

-- bincode, on records.
pub record RecordCode : Type 0 where
  pub serialize : Record → Call Bytes
  pub deserialize : Bytes → Option Record

abbrev pub Action : Type 0 → Type 0
Action A = World → Result A × World

module _ {A : Type 0} where
  abbrev pub pure : A → Action A
  pure a w = (ok a, w)

  abbrev pub raise : VaultError → Action A
  raise e w = (err e, w)

  abbrev pub lift : Result A → Action A
  lift r w = (r, w)

  -- `let _ = m`
  abbrev pub attempt : Action A → Action (Unit {0})
  attempt m w = (ok tt, (m w).1)

abbrev pub follow : {A B : Type 0} → (A → Action B) → Result A × World → Result B × World
follow f (ok a, w) = f a w
follow f (err e, w) = (err e, w)

infixl 5 ◌>>=◌ ◌>>◌
abbrev pub ◌>>=◌ : {A B : Type 0} → Action A → (A → Action B) → Action B
◌>>=◌ m f w = follow f (m w)

abbrev pub ◌>>◌ : {A B : Type 0} → Action A → Action B → Action B
m >> k = m >>= λ _. k

-- `m`, and `cleanup` behind an error of it, which is returned.
abbrev pub after_error : {A : Type 0} → Action (Unit {0}) → Result A × World → Result A × World
after_error cleanup (ok a, w) = (ok a, w)
after_error cleanup (err e, w) = (err e, (cleanup w).1)

abbrev pub or_else : {A : Type 0} → Action A → Action (Unit {0}) → Action A
or_else m cleanup w = after_error cleanup (m w)

abbrev pub when : Bool → Action (Unit {0}) → Action (Unit {0})
when b m w = if b then m w else (ok tt, w)

abbrev pub see : {A : Type 0} → (Disk → A) → Action A
see f w = (ok (f w.now.disk), w)

-- A new moment.
unfoldable pub reach : Moment → World → World
reach m w = record { now = m; passed = m ∷ w.passed }

unfoldable pub change : (Disk → Disk) → Action (Unit {0})
unfolding reach
change f w = (ok tt, reach (record (w.now) { disk = f w.now.disk }) w)

unfoldable pub note : (Records → Records) → Action (Unit {0})
unfolding reach
note f w = (ok tt, reach (record (w.now) { records = f w.now.records }) w)

module _ (os : Os) where
  -- The call's own answer.
  unfoldable pub ask : OsCall → Action (Unit {0})
  ask c w = (elim (os.refuses c) [ none ↦ ok tt | some e ↦ err (io e) ], w)

  -- `fs::remove_file`, on what stands at the path.
  unfoldable pub delete_file_item : OsCall → Text → Option Item → Action (Unit {0})
  unfolding ask change put
  delete_file_item c p none = raise (io not_found)
  delete_file_item c p (some (a_folder t)) = raise (io denied)
  delete_file_item c p (some (a_file f)) = ask c >> change (put p none)

  unfoldable pub delete_file : OsCall → Text → Action (Unit {0})
  unfolding delete_file_item
  delete_file c p = see (λ disk. disk p) >>= delete_file_item c p

  -- `fs::remove_dir_all`, which may stop half way.
  unfoldable pub delete_folder_item : OsCall → Text → Option Item → Action (Unit {0})
  unfolding ask change put
  delete_folder_item c p none = raise (io not_found)
  delete_folder_item c p (some (a_file f)) = raise (io denied)
  delete_folder_item c p (some (a_folder t)) = do
    change (put p (some (a_folder (os.half t))))
    ask c
    change (put p none)

  unfoldable pub delete_folder : OsCall → Text → Action (Unit {0})
  unfolding delete_folder_item
  delete_folder c p = see (λ disk. disk p) >>= delete_folder_item c p

  -- `trash::recycle`
  unfoldable pub send_item : Text → Option Item → Action (Unit {0})
  unfolding ask change put
  send_item p none = raise (io not_found)
  send_item p (some i) = ask remove_copy >> change (put p none)

  unfoldable pub send_away : Text → Action (Unit {0})
  unfolding send_item
  send_away p = see (λ disk. disk p) >>= send_item p

  -- `fs::rename` onto a name.
  unfoldable pub rename_item : Text → Text → Option Item → Action (Unit {0})
  unfolding ask change put
  rename_item from to none = raise (io not_found)
  rename_item from to (some i) =
      ask rename_staging >> change (λ disk. put to (some i) (put from none disk))

  unfoldable pub rename : Text → Text → Action (Unit {0})
  unfolding rename_item
  rename from to = see (λ disk. disk from) >>= rename_item from to

  -- `trash::set_readonly`
  unfoldable pub guard : OsCall → Text → Bool → Action (Unit {0})
  unfolding ask change guard_path
  guard c p flag = ask c >> change (guard_path p flag)

-- A digit of `{b:02x}`.
unfoldable pub hex_digit : ℕ → ℕ
hex_digit d = if ltb d 10 then b'0' + d else b'a' + (d - 10)

unfoldable pub hex : Bytes → Text
unfolding hex_digit
hex [] = []
hex (b ∷ rest) = hex_digit (b / 16) ∷ hex_digit (b % 16) ∷ hex rest

-- A file of the journal's directory, written anew or removed.
unfoldable pub drop_record : Text → Records → Records
unfolding bytes_eq
drop_record name [] = []
drop_record name ((n, b) ∷ rest) =
    let rest' = drop_record name rest in if bytes_eq name n then rest' else (n, b) ∷ rest'

abbrev pub put_record : Text → Bytes → Records → Records
put_record name bytes records = (name, bytes) ∷ drop_record name records

module _ (os : Os) (R : RecordCode) where
  -- `Journal::begin`: the name of the record.
  unfoldable pub begin : Bytes → Record → Action Text
  unfolding ask note hex drop_record
  begin uuid rec = do
    let name = hex uuid ++ codes ".jrec"
    bytes ←
        lift (elim (R.serialize rec) [
          | done b ↦ ok b
          | failed e ↦ err (other (codes "journal: " ++ e))
        ])
    ask os create_record
    note (put_record name [])
    note (put_record name (take os.written bytes))
    ask os write_record
    note (put_record name bytes)
    pure name

  -- `Journal::complete`
  unfoldable pub complete : Text → Action (Unit {0})
  unfolding ask note drop_record
  complete name = attempt (ask os forget_record >> note (drop_record name))

  -- `j.begin(..)` and `j.complete(..)`, with a journal.
  unfoldable pub begin_if : Bool → Bytes → Record → Action (Option Text)
  unfolding begin
  begin_if journal uuid rec =
      if journal then (do name ← begin uuid rec; pure (some name)) else pure none

  unfoldable pub complete_if : Option Text → Action (Unit {0})
  unfolding complete
  complete_if none = pure tt
  complete_if (some name) = complete name
