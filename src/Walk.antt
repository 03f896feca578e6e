-- ===== src/Walk.antt =====
-- walk.rs: the scan of a folder into the manifest's entries. A folder is the tree that `read_dir`
-- and `symlink_metadata` show, errors included.
pub mod Relative
pub mod Scan
use foldervault.Base.{
  ℕ, ◌+◌, ◌%◌, ◌^◌, Bool, true, false, List, [], ◌∷◌, ◌++◌, Text, codes, bytes_eq, if◌then◌else◌,
}
use foldervault.Vault.{VaultError, IoError, io, unsupported, other, Result, ok, err, ◌>>=◌}

pub record Entry : Type 0 where
  pub rel_path : Text
  pub size : ℕ
  pub mtime : ℕ
  pub is_dir : Bool
  pub readonly : Bool

-- `FolderScan`
pub record FolderScan : Type 0 where
  pub entries : List Entry
  pub total_bytes : ℕ

mutual
  -- One path as `symlink_metadata` describes it. The modification time is 0 if there is none.
  pub data Node : Type 0 where
    unreadable : IoError → Node
    symlink : Node
    folder : ℕ → Listing → Node
    file : ℕ → ℕ → Bool → Node

  -- What `read_dir` yields, or the error with which it stops.
  pub data Listing : Type 0 where
    end : Listing
    broken : IoError → Listing
    item : Text → Node → Listing → Listing

-- `parts.join("/")`
unfoldable pub slash_join : List Text → Text
slash_join [] = []
slash_join (p ∷ []) = p
slash_join (p ∷ q ∷ ps) = p ++ (b'/' ∷ slash_join (q ∷ ps))

-- `Path::strip_prefix`, on components.
unfoldable pub strip_prefix : List Text → List Text → Result (List Text)
unfolding bytes_eq
strip_prefix [] path = ok path
strip_prefix (r ∷ root) [] = err (other (codes "path escapes root"))
strip_prefix (r ∷ root) (p ∷ path) =
    if bytes_eq r p then strip_prefix root path else err (other (codes "path escapes root"))

-- `rel_path`
unfoldable pub rel_path : List Text → List Text → Result Text
unfolding strip_prefix slash_join
rel_path root path = do parts ← strip_prefix root path; ok (slash_join parts)

-- The three variables that `walk_into` appends to. The sum wraps as a `u64`.
pub record Found : Type 0 where
  pub dirs : List Entry
  pub files : List Entry
  pub total : ℕ

abbrev pub dir_entry : Text → ℕ → Entry
dir_entry rel mtime = record {
  rel_path = rel;
  size = 0;
  mtime = mtime;
  is_dir = true;
  readonly = false;
}

abbrev pub file_entry : Text → ℕ → ℕ → Bool → Entry
file_entry rel size mtime readonly = record {
  rel_path = rel;
  size = size;
  mtime = mtime;
  is_dir = false;
  readonly = readonly;
}

abbrev pub add_dir : Entry → Found → Found
add_dir e s = record s { dirs = s.dirs ++ (e ∷ []) }

abbrev pub add_file : Entry → ℕ → Found → Found
add_file e size s = record s { files = s.files ++ (e ∷ []); total = (s.total + size) % 2 ^ 64 }

unfoldable mutual
  unfolding rel_path

  -- `walk_into`, over what is left of the listing of `dir`.
  pub walk_into : List Text → List Text → Listing → Found → Result Found
  walk_into root dir end s = ok s
  walk_into root dir (broken e) s = err (io e)
  walk_into root dir (item name n rest) s = do
    s' ← visit root (dir ++ (name ∷ [])) n s
    walk_into root dir rest s'

  -- The body of its loop, on one path.
  pub visit : List Text → List Text → Node → Found → Result Found
  visit root path (unreadable e) s = err (io e)
  visit root path symlink s = do
    rel ← rel_path root path
    err (unsupported (codes "symlink or reparse point not supported: " ++ rel))
  visit root path (folder mtime inside) s = do
    rel ← rel_path root path
    walk_into root path inside (add_dir (dir_entry rel mtime) s)
  visit root path (file size mtime readonly) s = do
    rel ← rel_path root path
    ok (add_file (file_entry rel size mtime readonly) size s)

-- `scan`
unfoldable pub scan : List Text → Node → Result FolderScan
unfolding walk_into
scan root (unreadable e) = err (io e)
scan root (folder mtime inside) = do
  s ← walk_into root root inside (record { dirs = []; files = []; total = 0 })
  ok (record { entries = s.dirs ++ s.files; total_bytes = s.total })
scan root symlink = err (unsupported (slash_join root ++ codes " is not a directory"))
scan root (file size mtime readonly) =
    err (unsupported (slash_join root ++ codes " is not a directory"))
