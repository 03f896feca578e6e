-- ===== src/Folder/Lock.antt =====
-- format.rs, `lock_folder`.
use foldervault.Base.{
  Bool, length, true, false, List, ◌++◌, Option, none, some, Bytes, Text, codes, if◌then◌else◌,
}
use foldervault.Vault.{not_found, io, exists_already, other, Result, ok, err}
use foldervault.Primitives.{Primitives}
use foldervault.Random.{Rng}
use foldervault.Paths.{PathBuf}
use foldervault.Walk.{Entry, Node, unreadable, file, scan}
use foldervault.Container.Payload.{Bincode, LockOptions}
use foldervault.Container.Whole.{write_container}
use foldervault.Journal.{Item, a_file, a_folder, lock, exists, put}
use foldervault.Folder.{
  Os, RecordCode, Action, pure, raise, lift, attempt, ◌>>=◌, ◌>>◌, or_else, when, see, change, ask,
  delete_file, delete_folder, send_away, rename, guard, begin_if, complete_if, create_staging,
  write_staging, discard_staging, clear_stale, remove_copy, guard_container,
}
use foldervault.Folder.Wipe.{wipe_tree}
use foldervault.Folder.Names.{file_name, parent, path_text, sibling}

-- What a scan and an open see at a path.
unfoldable pub node_at : Option Item → Node
node_at none = unreadable not_found
node_at (some (a_file f)) = file (length f.bytes) 0 f.readonly
node_at (some (a_folder t)) = t.listing

unfoldable pub files_at : Option Item → PathBuf → Result Bytes
files_at (some (a_folder t)) p = elim (t.files p) [ ok f ↦ ok f.bytes | err e ↦ err e ]
files_at _ p = err (io not_found)

abbrev pub some_or : {A : Type 0} → Option A → Text → Action A
some_or o message w = (elim o [ none ↦ err (other message) | some a ↦ ok a ], w)

abbrev pub fresh_file : Bytes → Option Item
fresh_file bytes = some (a_file (record { bytes = bytes; readonly = false }))

module _ (os : Os) where
  -- `wipe_tree` on what stands at the path of the folder.
  unfoldable pub wipe_item : List Text → List Entry → Option Item → Action (Unit {0})
  unfolding change put wipe_tree
  wipe_item src entries (some (a_folder t)) = change (
      put (path_text src) (some (a_folder (record t { files = wipe_tree os src entries t.files }))))
  wipe_item src entries (some (a_file f)) = pure tt
  wipe_item src entries none = pure tt

  unfoldable pub wipe_folder : List Text → List Entry → Action (Unit {0})
  unfolding wipe_item
  wipe_folder src entries = see (λ disk. disk (path_text src)) >>= wipe_item src entries

  -- The container in its staging file: what the file held while it was written, and then all of it.
  -- The result of `write_container` comes out last.
  unfoldable pub stage : Text → Result (Bytes × Bytes) → Action Bytes
  unfolding ask change put
  stage tmp made = do
    ask os create_staging
    change (put tmp (fresh_file os.partial))
    ask os write_staging
    (uuid, bytes) ← lift made
    change (put tmp (fresh_file bytes))
    pure uuid

  -- The removal of the folder, behind the rename.
  unfoldable pub remove_source : LockOptions → List Text → List Entry → Action (Unit {0})
  unfolding wipe_folder delete_folder send_away
  remove_source opts src entries =
      if opts.secure_delete
      then wipe_folder src entries >> delete_folder os remove_copy (path_text src)
      else if opts.recycle_original
      then send_away os (path_text src)
      else delete_folder os remove_copy (path_text src)

module _ (P : Primitives) (B : Bincode) (R : RecordCode) (os : Os) where
  -- What `lock_folder` does once its names are known.
  unfoldable pub lock_at :
      List Text → Text → Text → Bytes → Bytes → LockOptions → Bool → Rng → Action Text
  unfolding delete_file stage rename remove_source guard begin_if complete_if node_at files_at
  lock_at src dest tmp password hmac_key opts journal r = do
    there ← see (λ disk. exists disk dest)
    when there (raise (exists_already dest))
    stale ← see (λ disk. exists disk tmp)
    when stale (delete_file os clear_stale tmp)
    item ← see (λ disk. disk (path_text src))
    found ← lift (scan src (node_at item))
    uuid ←
        or_else
          (stage os tmp (
            write_container P B src (files_at item) found.entries found.total_bytes password
              hmac_key opts r))
          (attempt (delete_file os discard_staging tmp))
    name ←
        begin_if os R journal uuid
          (record { op = lock; folder = path_text src; container = dest; staging = tmp })
    rename os tmp dest
    remove_source os opts src found.entries
    when opts.readonly_container (attempt (guard os guard_container dest true))
    complete_if os R name
    pure dest

  -- `lock_folder`
  unfoldable pub lock_folder : List Text → Bytes → Bytes → LockOptions → Bool → Rng → Action Text
  unfolding lock_at file_name parent path_text
  lock_folder src password hmac_key opts journal r = do
    name ← some_or (file_name src) (codes "folder has no name")
    up ← some_or (parent src) (codes "folder has no parent")
    lock_at src (sibling up (name ++ codes ".fvlt")) (sibling up (name ++ codes ".fvlt.tmp"))
        password hmac_key opts journal r
