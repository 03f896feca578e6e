-- ===== src/Tests/Home.antt =====
-- A small folder and its container, on toy primitives.
use foldervault.Folder.Wipe.{path_eq, texts_eq}
use foldervault.Base.{
  ℕ, zero, suc, sym, ◌≡◌, refl, ◌⊎◌, inl, inr, true, false, List, [], ◌∷◌, none, some, Bytes, Text,
  codes, bytes_eq, take, if◌then◌else◌,
}
use foldervault.Vault.{Result, ok, err, io, not_found}
use foldervault.Primitives.{done}
use foldervault.Crypto.{derive_kek}
use foldervault.Paths.{safe_join, PathBuf}
use foldervault.Walk.{folder, file, item, end, FolderScan, file_entry, scan}
use foldervault.Container.Authorize.{File}
use foldervault.Container.Payload.{Bincode, LockOptions, write_entries, Made, made_dir, made_file}
use foldervault.Container.Whole.{write_container}
use foldervault.Journal.{a_file, a_folder, Tree, Disk, Record, lock, unlock}
use foldervault.Folder.{Os, RecordCode}
use foldervault.Folder.Lock.{files_at}
use foldervault.Folder.Records.{IsReadBack}
use foldervault.Tests.Toy.{toy, tape}

abbrev pub home : List Text
home = codes "C:" ∷ codes "home" ∷ []

abbrev pub tree : Tree
tree = record {
  listing = folder 0 (item (codes "x.txt") (file 5 100 false) end);
  files = λ p. ok (record { bytes = codes "hello"; readonly = false });
}

abbrev pub found : FolderScan
found = record { entries = file_entry (codes "x.txt") 5 100 false ∷ []; total_bytes = 5 }

abbrev pub bincode : Bincode
bincode = record { serialize = λ es. done (1 ∷ 2 ∷ []); deserialize = λ b. some found.entries }

abbrev pub options : LockOptions
options = record {
  kdf = none;
  master_pub = none;
  secure_delete = true;
  recycle_original = false;
  readonly_container = true;
}

abbrev pub rec : Record
rec = record {
  op = lock;
  folder = codes "C:\\home";
  container = codes "C:\\home.fvlt";
  staging = codes "C:\\home.fvlt.tmp";
}

-- A code for one record.
abbrev pub code_of : Record → RecordCode
code_of r = record {
  serialize = λ x. done (7 ∷ []);
  deserialize = λ b. elim b [ [] ↦ none | x ∷ rest ↦ some r ];
}

torn :
    (r : Record) (n : ℕ)
    → ((code_of r).deserialize (take n (7 ∷ [])) ≡ none)
      ⊎ ((code_of r).deserialize (take n (7 ∷ [])) ≡ some r)
unfolding take
torn r zero = inl refl
torn r (suc n) = inr refl

pub code_of-IsReadBack : (r : Record) → IsReadBack (code_of r) r
code_of-IsReadBack r bytes n h = let e : 7 ∷ [] ≡ bytes = cc in rw (sym e) (refl, torn r n)

-- The files of a new folder: the first that was made at a path.
unfoldable pub made_files : List Made → PathBuf → Result File
unfolding path_eq texts_eq bytes_eq
made_files [] p = err (io not_found)
made_files (made_dir target ∷ ms) p = made_files ms p
made_files (made_file target content mtime readonly ∷ ms) p =
    let later = made_files ms p in
    if path_eq target p then ok (record { bytes = content; readonly = readonly }) else later

abbrev pub willing : Os
willing = record {
  refuses = λ c. none;
  partial = [];
  written = 0;
  half = λ t. t;
  shown = λ made. record { listing = tree.listing; files = made_files made };
  writable = λ p. true;
  accepts = λ p. 100;
}

unfoldable pub disk : Disk
disk p = elim (bytes_eq p (codes "C:\\home")) [ true ↦ some (a_folder tree) | false ↦ none ]

abbrev pub written : Result (Bytes × Bytes)
written =
    write_container toy bincode home (files_at (some (a_folder tree))) found.entries 5
      (codes "secret") (codes "install") options tape

unfoldable pub contents : Result (Bytes × Bytes) → Bytes × Bytes
contents (ok r) = r
contents (err e) = ([], [])

pub written-ok : written ≡ ok ((contents written).0, (contents written).1)
unfolding contents write_container derive_kek write_entries safe_join toy files_at
written-ok = refl

pub scanned : scan home tree.listing ≡ ok found
unfolding scan
scanned = refl

-- The container, and its unlock.
abbrev pub container : List Text
container = codes "C:" ∷ codes "home.fvlt" ∷ []

abbrev pub unlocking : Record
unlocking = record {
  op = unlock;
  folder = codes "C:\\home";
  container = codes "C:\\home.fvlt";
  staging = codes "C:\\home.__restoring";
}

abbrev pub locked : File
locked = record { bytes = (contents written).1; readonly = true }

unfoldable pub locked_disk : Disk
locked_disk p = elim (bytes_eq p (codes "C:\\home.fvlt")) [
  | true ↦ some (a_file locked)
  | false ↦ none
]
