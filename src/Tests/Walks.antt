-- ===== src/Tests/Walks.antt =====
-- Paths and scans on concrete names and trees.
use foldervault.Base.{◌%◌, ◌^◌, ◌≡◌, refl, true, false, List, [], ◌∷◌, ◌++◌, Text, codes, All, map}
use foldervault.Vault.{tampered, ok, err}
use foldervault.Paths.{normal, location, safe_join, components, is_safe_component}
use foldervault.Paths.Join.{IsBelow, safe_join-IsBelow}
use foldervault.Walk.{
  folder, file, Listing, end, item, scan, FolderScan, slash_join, dir_entry, file_entry,
}
use foldervault.Walk.Relative.{safe_join-slash_join}
use foldervault.Walk.Scan.{IsWholeNode, folders, files, bytes_in, scan-whole, scan-IsWhole}

abbrev home : List Text
home = codes "home" ∷ []

joined :
    safe_join home (codes "a/b.txt") ≡ ok (location (codes "home" ∷ codes "a" ∷ codes "b.txt" ∷ []))
unfolding safe_join
joined = refl

safe_join-IsBelow_example :
    (names : List Text) × IsBelow home
      (location (codes "home" ∷ codes "a" ∷ codes "b.txt" ∷ []))
      names
    × (components (codes "a/b.txt") ≡ map normal names)
safe_join-IsBelow_example =
    safe_join-IsBelow home (codes "a/b.txt")
      (location (codes "home" ∷ codes "a" ∷ codes "b.txt" ∷ [])) joined

names-safe : All (λ m. is_safe_component m ≡ true) (codes "a" ∷ codes "b.txt" ∷ [])
unfolding is_safe_component
names-safe = (refl, (refl, tt))

safe_join-slash_join_example :
    safe_join home (slash_join (codes "a" ∷ codes "b.txt" ∷ []))
    ≡ ok (location (codes "home" ∷ codes "a" ∷ codes "b.txt" ∷ []))
safe_join-slash_join_example = safe_join-slash_join home (codes "a") (codes "b.txt" ∷ []) names-safe

abbrev tree : Listing
tree =
    item (codes "x.txt") (file 5 100 false)
      (item (codes "sub") (folder 7 (item (codes "y") (file 9 200 true) end)) end)

scan-whole_example :
    scan home (folder 1 tree)
    ≡ ok (record {
      entries = folders [] tree ++ files [] tree;
      total_bytes = bytes_in tree % 2 ^ 64;
    })
scan-whole_example = scan-whole home 1 tree (tt, ((tt, tt), tt))

abbrev scanned : FolderScan
scanned = record {
  entries =
      dir_entry (codes "sub") 7
      ∷ file_entry (codes "x.txt") 5 100 false
      ∷ file_entry (codes "sub/y") 9 200 true
      ∷ [];
  total_bytes = 14;
}

scan-tree : scan home (folder 1 tree) ≡ ok scanned
unfolding scan
scan-tree = refl

scan-IsWhole_example : IsWholeNode (folder 1 tree)
scan-IsWhole_example = scan-IsWhole home (folder 1 tree) scanned scan-tree

-- A parent in the path, a drive and an alternate stream are refused.
parent-refused : safe_join home (codes "a/../b") ≡ err tampered
unfolding safe_join
parent-refused = refl

drive-refused : safe_join home (codes "c:\\b") ≡ err tampered
unfolding safe_join
drive-refused = refl

stream-refused : safe_join home (codes "a.txt:b") ≡ err tampered
unfolding safe_join
stream-refused = refl
