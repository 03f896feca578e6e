-- ===== src/Folder/Wipe.antt =====
-- format.rs, `wipe_tree`: the overwriting of a folder's files with zeros before its removal.
use foldervault.Base.{
  ℕ, zero, suc, ◌-◌, Bool, true, false, not, ◌&&◌, List, [], ◌∷◌, ◌++◌, Bytes, Text, ltb, leb,
  bytes_eq, if◌then◌else◌, zeros, min, drop,
}
use foldervault.Vault.{chunk_size, Result, ok, err}
use foldervault.Paths.{PathBuf, location, replaced, safe_join}
use foldervault.Walk.{Entry}
use foldervault.Container.Authorize.{File, set_readonly}
use foldervault.Folder.{Os}

abbrev pub Files : Type 0
Files = PathBuf → Result File

unfoldable pub texts_eq : List Text → List Text → Bool
unfolding bytes_eq
texts_eq [] [] = true
texts_eq (a ∷ s) (b ∷ t) = bytes_eq a b && texts_eq s t
texts_eq _ _ = false

unfoldable pub path_eq : PathBuf → PathBuf → Bool
unfolding texts_eq bytes_eq
path_eq (location s) (location t) = texts_eq s t
path_eq (replaced s) (replaced t) = bytes_eq s t
path_eq _ _ = false

unfoldable pub store : PathBuf → File → Files → Files
unfolding path_eq
store p f files q = if path_eq p q then ok f else files q

-- The loop over `remaining`, on what the file holds from here on; `room` is what the disk still
-- takes. A round writes a byte at least, so that the size is enough fuel.
unfoldable pub overwrite : ℕ → ℕ → ℕ → Bytes → Bytes
unfolding zeros drop
overwrite zero room remaining old = old
overwrite (suc fuel) room remaining old =
    let n = min remaining chunk_size in
    let rest = overwrite fuel (room - n) (remaining - n) (drop n old) in
    if not (ltb 0 remaining)
    then old
    else if leb n room
    then zeros n ++ rest
    else zeros room ++ drop room old

module _ (os : Os) where
  -- The body of the loop over the entries, on a file.
  unfoldable pub wipe_file : PathBuf → ℕ → Files → Files
  unfolding store set_readonly overwrite
  wipe_file path size files = elim (files path) [
    | err e ↦ files
    | ok f ↦
        let cleared = set_readonly false f in
        store path
          (if os.writable path
            then record cleared { bytes = overwrite size (os.accepts path) size f.bytes }
            else cleared)
          files
  ]

  unfoldable pub wipe_entry : List Text → Entry → Files → Files
  unfolding safe_join wipe_file
  wipe_entry src e files =
      if not e.is_dir && ltb 0 e.size
      then elim (safe_join src e.rel_path) [ err x ↦ files | ok path ↦ wipe_file path e.size files ]
      else files

  -- `wipe_tree`
  unfoldable pub wipe_tree : List Text → List Entry → Files → Files
  unfolding wipe_entry
  wipe_tree src [] files = files
  wipe_tree src (e ∷ es) files = wipe_tree src es (wipe_entry src e files)
