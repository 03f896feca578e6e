-- ===== src/Walk/Scan.antt =====
-- The scan against a plain recursion over the tree, without its accumulators.
use foldervault.Base.{
  ℕ, ◌+◌, ◌%◌, ◌^◌, ◌<◌, ◌≡◌, refl, sym, ap, ◌∙◌, List, [], ◌∷◌, ◌++◌, append_assoc, append-nil,
  arith, Text, bytes_eq_refl,
}
use foldervault.Vault.{ok, >>=-eq-ok}
use foldervault.Walk.{
  Entry, FolderScan, Node, unreadable, symlink, folder, file, Listing, end, broken, item,
  slash_join, strip_prefix, rel_path, Found, dir_entry, file_entry, walk_into, visit, scan, add_dir,
  add_file,
}

-- A tree with nothing but readable folders and files.
abbrev mutual
  pub IsWholeNode : Node → Type 0
  IsWholeNode (unreadable e) = ⊥
  IsWholeNode symlink = ⊥
  IsWholeNode (folder mtime inside) = IsWhole inside
  IsWholeNode (file size mtime readonly) = Unit {0}

  pub IsWhole : Listing → Type 0
  IsWhole end = Unit {0}
  IsWhole (broken e) = ⊥
  IsWhole (item name n rest) = IsWholeNode n × IsWhole rest

-- The entries of the folders of a listing, each before those inside it, and of the files.
mutual
  pub folders : List Text → Listing → List Entry
  folders p end = []
  folders p (broken e) = []
  folders p (item name n rest) = folders_at (p ++ (name ∷ [])) n ++ folders p rest

  pub folders_at : List Text → Node → List Entry
  folders_at p (folder mtime inside) = dir_entry (slash_join p) mtime ∷ folders p inside
  folders_at p _ = []

mutual
  pub files : List Text → Listing → List Entry
  files p end = []
  files p (broken e) = []
  files p (item name n rest) = files_at (p ++ (name ∷ [])) n ++ files p rest

  pub files_at : List Text → Node → List Entry
  files_at p (folder mtime inside) = files p inside
  files_at p (file size mtime readonly) = file_entry (slash_join p) size mtime readonly ∷ []
  files_at p _ = []

mutual
  pub bytes_in : Listing → ℕ
  bytes_in end = 0
  bytes_in (broken e) = 0
  bytes_in (item name n rest) = bytes_at n + bytes_in rest

  pub bytes_at : Node → ℕ
  bytes_at (folder mtime inside) = bytes_in inside
  bytes_at (file size mtime readonly) = size
  bytes_at _ = 0

strip_prefix-append : (root p : List Text) → strip_prefix root (root ++ p) ≡ ok p
unfolding strip_prefix
strip_prefix-append [] p = refl
strip_prefix-append (r ∷ root) p = rw (bytes_eq_refl r) (strip_prefix-append root p)

rel_path-append : (root p : List Text) → rel_path root (root ++ p) ≡ ok (slash_join p)
unfolding rel_path
rel_path-append root p = rw (strip_prefix-append root p)

-- What a walk adds to what was found before.
abbrev with_listing : List Text → Listing → Found → Found
with_listing p l s = record {
  dirs = s.dirs ++ folders p l;
  files = s.files ++ files p l;
  total = (s.total + bytes_in l) % 2 ^ 64;
}

abbrev with_node : List Text → Node → Found → Found
with_node p n s = record {
  dirs = s.dirs ++ folders_at p n;
  files = s.files ++ files_at p n;
  total = (s.total + bytes_at n) % 2 ^ 64;
}

found-eq : (a b : Found) → a.dirs ≡ b.dirs → a.files ≡ b.files → a.total ≡ b.total → a ≡ b
found-eq a b p q r = λ i. record { dirs = p i; files = q i; total = r i }

mutual
  unfolding walk_into folders files bytes_in

  walk_into-whole :
      (l : Listing) (root p : List Text) (s : Found)
      → IsWhole l
      → s.total < 2 ^ 64
      → walk_into root (root ++ p) l s ≡ ok (with_listing p l s)
  walk_into-whole end root p s h t = ap ok (
      found-eq s (with_listing p end s) (sym (append-nil s.dirs)) (sym (append-nil s.files))
        (omega arith))
  walk_into-whole (broken e) root p s h t = absurd h
  walk_into-whole (item name n rest) root p s h t =
      let q = p ++ (name ∷ []) in
      let s' = with_node q n s in
      rw (append_assoc root p (name ∷ []), visit-whole n root q s h.0 t)
        (walk_into-whole rest root p s' h.1 (omega arith)
          ∙ ap ok (
              found-eq (with_listing p rest s') (with_listing p (item name n rest) s)
                (append_assoc s.dirs (folders_at q n) (folders p rest))
                (append_assoc s.files (files_at q n) (files p rest)) (omega arith)))

  visit-whole :
      (n : Node) (root p : List Text) (s : Found)
      → IsWholeNode n
      → s.total < 2 ^ 64
      → visit root (root ++ p) n s ≡ ok (with_node p n s)
  visit-whole (unreadable e) root p s h t = absurd h
  visit-whole symlink root p s h t = absurd h
  visit-whole (folder mtime inside) root p s h t =
      let e = dir_entry (slash_join p) mtime in
      let s' = add_dir e s in
      rw (rel_path-append root p) (
        walk_into-whole inside root p s' h t
        ∙ ap ok (
            found-eq (with_listing p inside s') (with_node p (folder mtime inside) s)
              (append_assoc s.dirs (e ∷ []) (folders p inside)) refl refl))
  visit-whole (file size mtime readonly) root p s h t =
      let e = file_entry (slash_join p) size mtime readonly in
      rw (rel_path-append root p) (
        ap ok (
          found-eq (add_file e size s) (with_node p (file size mtime readonly) s)
            (sym (append-nil s.dirs)) refl refl))

-- A scan succeeds on every folder with nothing but readable folders and files inside, at any depth.
-- The manifest then lists the folders, each before what is inside it, and behind them the files; the
-- total is the sum of the file sizes, modulo 2 ^ 64.
pub scan-whole :
    (root : List Text) (mtime : ℕ) (inside : Listing)
    → IsWhole inside
    → scan root (folder mtime inside)
      ≡ ok (record {
        entries = folders [] inside ++ files [] inside;
        total_bytes = bytes_in inside % 2 ^ 64;
      })
unfolding scan
scan-whole root mtime inside h =
    let start : Found = record { dirs = []; files = []; total = 0 } in
    let walked = rw append-nil at (walk_into-whole inside root [] start h (omega arith)) in
    let sum : (0 + bytes_in inside) % 2 ^ 64 ≡ bytes_in inside % 2 ^ 64 = omega arith in
    rw (walked, sum)

mutual
  unfolding walk_into

  walk_into-IsWhole :
      (l : Listing) (root p : List Text) (s s' : Found) → walk_into root p l s ≡ ok s' → IsWhole l
  walk_into-IsWhole end root p s s' e = tt
  walk_into-IsWhole (broken x) root p s s' e = absurd (cc)
  walk_into-IsWhole (item name n rest) root p s s' e =
      let (m, v, w) =
        >>=-eq-ok (visit root (p ++ (name ∷ [])) n s) (λ t. walk_into root p rest t) e in
      (visit-IsWhole n root (p ++ (name ∷ [])) s m v, walk_into-IsWhole rest root p m s' w)

  visit-IsWhole :
      (n : Node) (root p : List Text) (s s' : Found) → visit root p n s ≡ ok s' → IsWholeNode n
  visit-IsWhole (unreadable x) root p s s' e = absurd (cc)
  visit-IsWhole symlink root p s s' e =
      let (m, v, w) = >>=-eq-ok (rel_path root p) _ e in absurd (cc w)
  visit-IsWhole (folder mtime inside) root p s s' e =
      let (m, v, w) = >>=-eq-ok (rel_path root p) _ e in
      walk_into-IsWhole inside root p (add_dir (dir_entry m mtime) s) s' w
  visit-IsWhole (file size mtime readonly) root p s s' e = tt

-- A folder locks fully or not at all: if the scan succeeds, its path is a folder and nothing inside
-- it, at any depth, is a symlink, unreadable or listed in part.
pub scan-IsWhole :
    (root : List Text) (n : Node) (r : FolderScan) → scan root n ≡ ok r → IsWholeNode n
unfolding scan
scan-IsWhole root (unreadable x) r e = absurd (cc)
scan-IsWhole root symlink r e = absurd (cc)
scan-IsWhole root (file size mtime readonly) r e = absurd (cc)
scan-IsWhole root (folder mtime inside) r e =
    let start : Found = record { dirs = []; files = []; total = 0 } in
    let (m, v, w) = >>=-eq-ok (walk_into root root inside start) _ e in
    walk_into-IsWhole inside root root start m v
