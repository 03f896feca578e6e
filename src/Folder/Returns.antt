-- ===== src/Folder/Returns.antt =====
-- lock_folder of format.rs and then unlock_container, where nothing is refused.
use foldervault.Base.{
  ℕ, ◌≡◌, ◌≢◌, sym, ◌∙◌, ap, Bool, false, List, [], ◌∷◌, ◌++◌, length, none, some, Bytes, Text,
  codes, IsU64, ◌⊎◌, inl, inr, true, All,
}
use foldervault.Vault.{ok, >>=-eq-ok, Result-cases}
use foldervault.Crypto.{ChunkCipher}
use foldervault.Primitives.{Primitives, IsLawful, done}
use foldervault.Random.{Rng}
use foldervault.Walk.{FolderScan, scan, Entry}
use foldervault.Container.Authorize.{File, password, Opened, open_and_authorize}
use foldervault.Container.Payload.{Bincode, LockOptions, Made, made_dir, made_file}
use foldervault.Container.Whole.{write_container, restore, read_manifest}
use foldervault.Container.Restored.{IsMade, AreMade, all_made, made_next, restore-write_container}
use foldervault.Container.Whether.{IsJoinable}
use foldervault.Paths.{PathBuf, safe_join}
use foldervault.Journal.{Record, lock, unlock, a_file, a_folder, Tree, Disk}
use foldervault.Folder.{World, Os, RecordCode, OsCall}
use foldervault.Folder.Names.{
  file_name, parent, path_text, sibling, split-path, unlock_names-apart, file_name-append,
  parent-append, file_stem-append,
}
use foldervault.Folder.Lock.{files_at, lock_folder}
use foldervault.Folder.Unlock.{unlock_container}
use foldervault.Folder.Runs.{Runs}
use foldervault.Folder.Locks.{lock_folder_succeeds}
use foldervault.Folder.Unlocks.{unlock_container-Runs}

-- A file that was made stands in a folder with its content and its read-only flag.
abbrev pub Shows : Tree → Made → Type 0
Shows tree (made_dir target) = Unit {0}
Shows tree (made_file target content mtime readonly) =
    tree.files target ≡ ok (record { bytes = content; readonly = readonly })

-- The file of an entry has in the second folder the content that it had in the first.
abbrev pub ComesBack : List Text → List Text → Tree → Tree → Entry → Type 0
ComesBack src staging t t' e =
    (e.is_dir ≡ true)
    ⊎ ((path target : PathBuf) × (f : File) × (safe_join src e.rel_path ≡ ok path)
        × (safe_join staging e.rel_path ≡ ok target)
        × (t.files path ≡ ok f)
        × (t'.files target ≡ ok (record { bytes = f.bytes; readonly = e.readonly })))

read_file :
    (t : Tree) (path : PathBuf) (content : Bytes)
    → files_at (some (a_folder t)) path ≡ ok content
    → (f : File) × (t.files path ≡ ok f) × (f.bytes ≡ content)
unfolding files_at
read_file t path content h = elim (Result-cases (t.files path)) [
  | inl (f, there) ↦ (f, there, cc (rw (files_at, there) at h))
  | inr (e, refused) ↦ absurd (cc (rw (files_at, refused) at h))
]

entry-ComesBack :
    (src staging : List Text) (t t' : Tree) (e : Entry) (m : Made)
    → IsMade src (files_at (some (a_folder t))) staging e m
    → Shows t' m
    → ComesBack src staging t t' e
entry-ComesBack src staging t t' e m (target, joined, made) shown = elim made [
  | inl (dir, same) ↦ inl dir
  | inr (file, (path, content, from, read, same)) ↦
      let (f, there, bytes) = read_file t path content read in
      let back : t'.files target ≡ ok (record { bytes = content; readonly = e.readonly }) =
        rw same at shown in
      inr (path, target, f, from, joined, there, rw bytes back)
]

made-ComesBack :
    (src staging : List Text) (t t' : Tree) (es : List Entry) (ms : List Made)
    → AreMade src (files_at (some (a_folder t))) staging es ms
    → All (Shows t') ms
    → All (ComesBack src staging t t') es
made-ComesBack src staging t t' _ _ all_made shown = tt
made-ComesBack src staging t t' _ _ (made_next e m es ms this later) (s, shown) =
    (entry-ComesBack src staging t t' e m this s, made-ComesBack src staging t t' es ms later shown)

module _ (P : Primitives) (B : Bincode) (R : RecordCode) (os : Os) (up : List Text) (name : Text)
    (pw key : Bytes) (journal : Bool) where
  abbrev file : Text
  file = name ++ codes ".fvlt"

  abbrev container : List Text
  container = up ++ (file ∷ [])

  abbrev tmpdir : List Text
  tmpdir = up ++ ((name ++ codes ".__restoring") ∷ [])

  abbrev unlocking : Record
  unlocking = record {
    op = unlock;
    folder = sibling up name;
    container = path_text container;
    staging = path_text tmpdir;
  }

  opened_returns :
      ((c : OsCall) → os.refuses c ≡ none)
      → (opened : Opened) (f f' : File) (made : List Made) (unlock_bytes : Bytes) (now : ℕ)
      → name ≢ []
      → open_and_authorize P (password pw) key now f ≡ (ok opened, f')
      → restore P B opened.header opened.dk tmpdir f'.bytes ≡ ok made
      → R.serialize unlocking ≡ done unlock_bytes
      → (w : World) → w.now.disk (path_text container) ≡ some (a_file f)
      → w.now.disk (sibling up name) ≡ none
      → w.now.disk (path_text tmpdir) ≡ none
      → w.now.records ≡ []
      → let after = unlock_container P B R os container (password pw) key now journal w in
        (after.0 ≡ ok (sibling up name))
        × (after.1.now.disk (sibling up name) ≡ some (a_folder (os.shown made)))
        × (after.1.now.disk (path_text container) ≡ none)
        × (after.1.now.disk (path_text tmpdir) ≡ none)
        × (after.1.now.records ≡ [])
  unfolding restore Runs
  opened_returns willing opened f f' made unlock_bytes now named opens whole code w there no_dest
        no_tmp idle =
      let c : ChunkCipher = record { key = opened.dk; uuid = opened.header.uuid } in
      let (er, read, extracted) = >>=-eq-ok (read_manifest P B opened.header c f'.bytes) _ whole in
      let (a, b, d) = unlock_names-apart up name in
      let (q, returned, (same, (made', gone', records), gone)) =
        unlock_container-Runs P B R os willing container up name (password pw) key now f f' opened
          made unlock_bytes (λ s. d (sym s)) (λ s. b (sym s)) opens er.0 er.1
          (file_name-append up file) (parent-append up file) (file_stem-append name named) (a, b, d)
          read extracted code journal w (there, no_dest, no_tmp, idle) in
      (returned ∙ ap ok same, made', gone, gone', records)

module _ (P : Primitives) (L : IsLawful P) (B : Bincode) (R : RecordCode) (os : Os)
    (src up : List Text) (name : Text) (pw key : Bytes) (opts : LockOptions) (journal : Bool)
    (r : Rng) (before : Disk) (t : Tree) (found : FolderScan)
    (uuid bytes lock_bytes unlock_bytes : Bytes) where
  -- The container, and the staging folder of its unlock.
  abbrev the_container : List Text
  the_container = up ++ ((name ++ codes ".fvlt") ∷ [])

  abbrev staging : List Text
  staging = up ++ ((name ++ codes ".__restoring") ∷ [])

  -- The world that a lock of the folder leaves.
  abbrev locked : World
  locked =
      (lock_folder P B R os src pw key opts journal r
        (record { now = record { disk = before; records = [] }; passed = [] })).1

  -- A folder that lock_folder locked comes back. In any later world where the container stands as
  -- lock_folder left it, with nothing at the folder, at the staging folder or in the journal,
  -- unlock_container with the same password returns the folder's path and leaves a folder there of
  -- all that was made of the scan's entries, in which each file stands with the content that it had
  -- when it was locked and the entry's read-only flag, and no container, staging folder or record.
  -- The conditions are that the operating system refuses nothing and shows in a folder the files
  -- that were made in it, the folder has a name and a directory, neither the container nor its
  -- staging file was there, the scan and write_container succeed, both records are serialized,
  -- bincode reads the manifest back, the number of entries and the total are words, and `safe_join`
  -- accepts the paths of the folders that the scan found.
  pub unlock_container-lock_folder :
      ((c : OsCall) → os.refuses c ≡ none)
      → file_name src ≡ some name
      → parent src ≡ some up
      → name ≢ []
      → before (path_text src) ≡ some (a_folder t)
      → before (path_text the_container) ≡ none
      → before (sibling up (name ++ codes ".fvlt.tmp")) ≡ none
      → scan src t.listing ≡ ok found
      → write_container P B src
          (files_at (some (a_folder t)))
          found.entries
          found.total_bytes
          pw
          key
          opts
          r
        ≡ ok (uuid, bytes)
      → R.serialize (record {
        op = lock;
        folder = path_text src;
        container = path_text the_container;
        staging = sibling up (name ++ codes ".fvlt.tmp");
      })
        ≡ done lock_bytes
      → R.serialize (record {
        op = unlock;
        folder = sibling up name;
        container = path_text the_container;
        staging = path_text staging;
      })
        ≡ done unlock_bytes
      → ((manifest : Bytes)
          → B.serialize found.entries ≡ done manifest
          → B.deserialize manifest ≡ some found.entries)
      → IsU64 (length found.entries)
      → IsU64 found.total_bytes
      → All (IsJoinable staging) found.entries
      → ((made : List Made)
          → AreMade src (files_at (some (a_folder t))) staging found.entries made
          → All (Shows (os.shown made)) made)
      → (w : World) (now : ℕ)
      → w.now.disk (path_text the_container) ≡ locked.now.disk (path_text the_container)
      → w.now.disk (path_text src) ≡ none
      → w.now.disk (path_text staging) ≡ none
      → w.now.records ≡ []
      → let after = unlock_container P B R os the_container (password pw) key now journal w in
        (made : List Made) × AreMade src (files_at (some (a_folder t))) staging found.entries made
        × (after.0 ≡ ok (path_text src))
        × (after.1.now.disk (path_text src) ≡ some (a_folder (os.shown made)))
        × All (ComesBack src staging t (os.shown made)) found.entries
        × (after.1.now.disk (path_text the_container) ≡ none)
        × (after.1.now.disk (path_text staging) ≡ none)
        × (after.1.now.records ≡ [])
  unlock_container-lock_folder willing named above proper there no_dest no_tmp scanned written
        lock_code unlock_code back count sum joinable shows w now same no_folder no_staging idle =
      let split : path_text src ≡ sibling up name =
        ap path_text (split-path src up name named above) in
      let stored =
        lock_folder_succeeds P B R os src up name pw key opts journal r before t found uuid bytes
          lock_bytes willing named above there no_dest no_tmp scanned written lock_code in
      let (header, dk, opens, extracts) =
        restore-write_container P L B src (files_at (some (a_folder t))) staging found.entries
          found.total_bytes pw key opts r now opts.readonly_container uuid bytes written back count
          sum in
      let (made, whole, are_made) = extracts.1 joinable in
      let (returned, there', gone, gone', records) =
        opened_returns P B R os up name pw key journal willing
          (record { header = header; dk = dk; was_readonly = opts.readonly_container })
          (record { bytes = bytes; readonly = opts.readonly_container })
          (record { bytes = bytes; readonly = false }) made unlock_bytes now proper opens whole
          unlock_code w (same ∙ stored.1) (rw split at no_folder) no_staging idle in
      (
        made,
        are_made,
        rw split returned,
        rw split there',
        made-ComesBack src staging t (os.shown made) found.entries made are_made
            (shows made are_made),
        gone,
        gone',
        records,
      )
