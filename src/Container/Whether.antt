-- ===== src/Container/Whether.antt =====
-- Which locked folders can be restored: those whose folders have paths that `safe_join` accepts.
use foldervault.Base.{
  ◌≡◌, ◌↔◌, refl, sym, ◌∙◌, true, false, List, [], ◌∷◌, ◌++◌, Bytes, Text, Bool-cases, inl, inr,
  All,
}
use foldervault.Vault.{ok, >>=-eq-ok}
use foldervault.Primitives.{Primitives, IsLawful}
use foldervault.Crypto.{ChunkCipher}
use foldervault.Paths.{PathBuf, safe_join}
use foldervault.Paths.Join.{safe_join_moved}
use foldervault.Walk.{Entry}
use foldervault.Container.Payload.{
  Disk, Writer, Made, write_file, write_entries, extract_entries, restored, made_dir, file_of,
}
use foldervault.Container.Extract.{IsStored, write_file-IsStored, extract_entries-restored}

-- A folder whose path `safe_join` accepts; files have been joined when they were locked.
abbrev pub IsJoinable : List Text → Entry → Type 0
IsJoinable root e = e.is_dir ≡ true → (p : PathBuf) × (safe_join root e.rel_path ≡ ok p)

restored_dir :
    (src tmpdir : List Text) (disk : Disk) (e : Entry) (es : List Entry) (target : PathBuf)
    (made : List Made)
    → e.is_dir ≡ true
    → safe_join tmpdir e.rel_path ≡ ok target
    → restored src disk tmpdir es ≡ ok made
    → restored src disk tmpdir (e ∷ es) ≡ ok (made_dir target ∷ made)
unfolding restored
restored_dir src tmpdir disk e es target made dir joined later = rw (restored, joined, dir, later)

restored_file :
    (src tmpdir : List Text) (disk : Disk) (e : Entry) (es : List Entry) (target : PathBuf)
    (f : Bytes) (made : List Made)
    → e.is_dir ≡ false
    → safe_join tmpdir e.rel_path ≡ ok target
    → IsStored src disk e f
    → restored src disk tmpdir es ≡ ok made
    → restored src disk tmpdir (e ∷ es) ≡ ok (file_of e target f ∷ made)
unfolding restored
restored_file src tmpdir disk e es target f made file joined stored later =
    rw (restored, joined, file, stored.joined, stored.content, later)

module _ (P : Primitives) (L : IsLawful P) (src tmpdir : List Text) (disk : Disk)
    (c : ChunkCipher) where
  -- If the files of a folder were written and the paths of its folders are joinable, restoring
  -- succeeds.
  pub restored-write_entries :
      (es : List Entry) (w w' : Writer)
      → write_entries P src disk c es w ≡ ok w'
      → All (IsJoinable tmpdir) es
      → (made : List Made) × (restored src disk tmpdir es ≡ ok made)
  unfolding write_entries restored
  restored-write_entries [] w w' h joinable = ([], refl)
  restored-write_entries (e ∷ es) w w' h (joins, joinable) = elim (Bool-cases e.is_dir) [
    | inl dir ↦
        let (target, joined) = joins dir in
        let (made, later) =
          restored-write_entries es w w' (rw (write_entries, dir) at h) joinable in
        (made_dir target ∷ made, restored_dir src tmpdir disk e es target made dir joined later)
    | inr file ↦
        let (w1, first, next) =
          >>=-eq-ok (write_file P src disk c e w) _ (rw (write_entries, file) at h) in
        let (f, frame, stored, out, chunks) = write_file-IsStored P L src disk c e w w1 first in
        let (names, joined) = safe_join_moved src tmpdir e.rel_path stored.path stored.joined in
        let (made, later) = restored-write_entries es w1 w' next joinable in
        (_, restored_file src tmpdir disk e es _ f made file joined stored later)
  ]

-- What is restored was joined.
pub restored-IsJoinable :
    (src tmpdir : List Text) (disk : Disk) (es : List Entry) (made : List Made)
    → restored src disk tmpdir es ≡ ok made
    → All (IsJoinable tmpdir) es
unfolding restored
restored-IsJoinable src tmpdir disk [] made h = tt
restored-IsJoinable src tmpdir disk (e ∷ es) made h =
    let (target, joined, h1) = >>=-eq-ok (safe_join tmpdir e.rel_path) _ h in
    (
      (λ dir. (target, joined)),
      elim (Bool-cases e.is_dir) [
        | inl dir ↦
            let (later, restores, h2) = >>=-eq-ok (restored src disk tmpdir es) _ (rw dir at h1) in
            restored-IsJoinable src tmpdir disk es later restores
        | inr file ↦
            let (path, p, h2) = >>=-eq-ok (safe_join src e.rel_path) _ (rw file at h1) in
            let (content, q, h3) = >>=-eq-ok (disk path) _ h2 in
            let (later, restores, h4) = >>=-eq-ok (restored src disk tmpdir es) _ h3 in
            restored-IsJoinable src tmpdir disk es later restores
      ],
    )

module _ (P : Primitives) (L : IsLawful P) (src tmpdir : List Text) (disk : Disk)
    (c : ChunkCipher) where
  -- Once the entries of a folder were written, their extraction succeeds if and only if `safe_join`
  -- accepts the paths of the folders among them; the paths of the files were joined when they were
  -- written.
  pub extract_entries_iff :
      (es : List Entry) (w w' : Writer)
      → write_entries P src disk c es w ≡ ok w'
      → (frames : Bytes) × (w'.out ≡ w.out ++ frames)
        × ((tail : Bytes)
            → ((made : List Made) × (extract_entries P tmpdir c es w.seq (frames ++ tail)
                  ≡ ok made))
              ↔ All (IsJoinable tmpdir) es)
  extract_entries_iff es w w' h =
      let (frames, out, back) = extract_entries-restored P L src disk c tmpdir es w w' h in
      (
        frames,
        out,
        λ tail. (
          λ extracted.
              restored-IsJoinable src tmpdir disk es extracted.0 (sym (back tail) ∙ extracted.1),
          λ joinable.
              let (made, restores) =
                restored-write_entries P L src tmpdir disk c es w w' h joinable in
              (made, back tail ∙ restores),
        ),
      )
