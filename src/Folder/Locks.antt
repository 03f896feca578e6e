-- ===== src/Folder/Locks.antt =====
-- lock_folder of format.rs when nothing is refused, from the folder's own path.
use foldervault.Base.{◌≡◌, refl, ap, ◌∙◌, Bool, List, [], ◌++◌, none, some, Bytes, Text, codes}
use foldervault.Vault.{ok}
use foldervault.Primitives.{Primitives, done}
use foldervault.Random.{Rng}
use foldervault.Walk.{FolderScan, scan}
use foldervault.Container.Payload.{Bincode, LockOptions}
use foldervault.Container.Whole.{write_container}
use foldervault.Journal.{Record, lock, a_file, a_folder, Tree, Disk}
use foldervault.Folder.{World, Os, RecordCode, OsCall}
use foldervault.Folder.Names.{file_name, parent, path_text, sibling, split-path, lock_names-apart}
use foldervault.Folder.Lock.{files_at, lock_folder}
use foldervault.Folder.Runs.{Runs}
use foldervault.Folder.Succeeds.{lock_at-Runs}

module _ (P : Primitives) (B : Bincode) (R : RecordCode) (os : Os) (src up : List Text)
    (name : Text) (password key : Bytes) (opts : LockOptions) (journal : Bool) (r : Rng)
    (before : Disk) (t : Tree) (found : FolderScan) (uuid bytes record_bytes : Bytes) where
  abbrev dest : Text
  dest = sibling up (name ++ codes ".fvlt")

  abbrev tmp : Text
  tmp = sibling up (name ++ codes ".fvlt.tmp")

  abbrev rec : Record
  rec = record { op = lock; folder = path_text src; container = dest; staging = tmp }

  -- If the operating system refuses nothing, the folder is there, neither the container nor its
  -- staging file is, the scan and write_container succeed, and the record is serialized, then
  -- lock_folder returns the container's path and leaves the container with the bytes of
  -- write_container and the read-only flag that the options ask for, no folder, no staging file
  -- and no record, however the folder is to be removed.
  pub lock_folder_succeeds :
      ((c : OsCall) → os.refuses c ≡ none)
      → file_name src ≡ some name
      → parent src ≡ some up
      → before (path_text src) ≡ some (a_folder t)
      → before dest ≡ none
      → before tmp ≡ none
      → scan src t.listing ≡ ok found
      → write_container P B src
          (files_at (some (a_folder t)))
          found.entries
          found.total_bytes
          password
          key
          opts
          r
        ≡ ok (uuid, bytes)
      → R.serialize rec ≡ done record_bytes
      → let after =
          lock_folder P B R os src password key opts journal r
            (record { now = record { disk = before; records = [] }; passed = [] }) in
        (after.0 ≡ ok dest)
        × (after.1.now.disk dest
            ≡ some (a_file (record { bytes = bytes; readonly = opts.readonly_container })))
        × (after.1.now.disk (path_text src) ≡ none)
        × (after.1.now.disk tmp ≡ none)
        × (after.1.now.records ≡ [])
  unfolding lock_folder Runs
  lock_folder_succeeds willing named above there no_dest no_tmp scanned made code =
      let (a, b, c) = lock_names-apart src up name (split-path src up name named above) in
      let start : World = record { now = record { disk = before; records = [] }; passed = [] } in
      let (p, returned, (same, ((there', gone', records), gone))) =
        lock_at-Runs P B R os willing src dest tmp password key opts r t found uuid bytes
          record_bytes a b c scanned made code journal start (there, no_dest, no_tmp, refl) in
      rw (lock_folder, named, above) (returned ∙ ap ok same, there', gone, gone', records)
