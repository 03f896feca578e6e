-- ===== src/Container/Restored.antt =====
-- write_container of format.rs, and then the prologue and the extraction of unlock_container.
use foldervault.Base.{
  ℕ, ◌≡◌, ◌⊎◌, ◌↔◌, inl, inr, refl, sym, ◌∙◌, Bool, true, false, List, [], ◌∷◌, length, some, Bytes,
  Text, All, IsU64, Bool-cases,
}
use foldervault.Vault.{ok, >>=-eq-ok}
use foldervault.Primitives.{Primitives, IsLawful, done}
use foldervault.Random.{Rng}
use foldervault.Crypto.{SecretKey}
use foldervault.Header.{Header}
use foldervault.Paths.{PathBuf, safe_join}
use foldervault.Walk.{Entry}
use foldervault.Container.Authorize.{password, open_and_authorize}
use foldervault.Container.Payload.{Bincode, Disk, LockOptions, Made, made_dir, file_of, restored}
use foldervault.Container.Whole.{write_container, restore}
use foldervault.Container.Restore.{written_container}
use foldervault.Container.Whether.{IsJoinable, restored-write_entries, restored-IsJoinable}

-- What an entry comes back as: a folder at its path, or a file there with what was read when the
-- folder was locked, and with the entry's time and read-only flag.
abbrev pub IsMade : List Text → Disk → List Text → Entry → Made → Type 0
IsMade src disk tmpdir e m =
    (target : PathBuf) × (safe_join tmpdir e.rel_path ≡ ok target)
    × (((e.is_dir ≡ true) × (m ≡ made_dir target))
        ⊎ ((e.is_dir ≡ false)
            × ((path : PathBuf) × (content : Bytes) × (safe_join src e.rel_path ≡ ok path)
                × (disk path ≡ ok content)
                × (m ≡ file_of e target content))))

-- Entry by entry, in their order.
pub data AreMade (src : List Text) (disk : Disk) (tmpdir : List Text)
    : List Entry → List Made → Type 0 where
  all_made : AreMade src disk tmpdir [] []
  made_next :
      (e : Entry) (m : Made) (es : List Entry) (ms : List Made)
      → IsMade src disk tmpdir e m
      → AreMade src disk tmpdir es ms
      → AreMade src disk tmpdir (e ∷ es) (m ∷ ms)

restored-AreMade :
    (src tmpdir : List Text) (disk : Disk) (es : List Entry) (made : List Made)
    → restored src disk tmpdir es ≡ ok made
    → AreMade src disk tmpdir es made
unfolding restored
restored-AreMade src tmpdir disk [] made h = let e : [] ≡ made = cc in rw (sym e) all_made
restored-AreMade src tmpdir disk (e ∷ es) made h =
    let (target, joined, h1) = >>=-eq-ok (safe_join tmpdir e.rel_path) _ h in
    elim (Bool-cases e.is_dir) [
      | inl dir ↦
          let (later, restores, h2) = >>=-eq-ok (restored src disk tmpdir es) _ (rw dir at h1) in
          let same : made_dir target ∷ later ≡ made = cc in
          rw (sym same) (
            made_next e (made_dir target) es later (target, joined, inl (dir, refl))
              (restored-AreMade src tmpdir disk es later restores))
      | inr file ↦
          let (path, p, h2) = >>=-eq-ok (safe_join src e.rel_path) _ (rw file at h1) in
          let (content, q, h3) = >>=-eq-ok (disk path) _ h2 in
          let (later, restores, h4) = >>=-eq-ok (restored src disk tmpdir es) _ h3 in
          let same : file_of e target content ∷ later ≡ made = cc in
          rw (sym same) (
            made_next e (file_of e target content) es later
              (target, joined, inr (file, (path, content, p, q, refl)))
              (restored-AreMade src tmpdir disk es later restores))
    ]

module _ (P : Primitives) (L : IsLawful P) where
  -- If `write_container` succeeds, its container opens with the same password at any time, read-only
  -- or not, and stays as it is but for that flag. The extraction then succeeds, and gives each entry
  -- of the manifest at its path with the content that was read when it was written, if and only if
  -- `safe_join` accepts the paths of the folders among the entries. bincode reads the manifest back,
  -- and the number of entries and the total are words.
  pub restore-write_container :
      (B : Bincode) (src : List Text) (disk : Disk) (tmpdir : List Text) (entries : List Entry)
      (total : ℕ) (pw key : Bytes) (opts : LockOptions) (r : Rng) (now : ℕ) (readonly : Bool)
      (uuid bytes : Bytes)
      → write_container P B src disk entries total pw key opts r ≡ ok (uuid, bytes)
      → ((manifest : Bytes)
          → B.serialize entries ≡ done manifest
          → B.deserialize manifest ≡ some entries)
      → IsU64 (length entries)
      → IsU64 total
      → (header : Header) × (dk : SecretKey) × (open_and_authorize P
            (password pw)
            key
            now
            (record { bytes = bytes; readonly = readonly })
          ≡ (
            ok (record { header = header; dk = dk; was_readonly = readonly }),
            record { bytes = bytes; readonly = false },
          ))
        × (((made : List Made) × (restore P B header dk tmpdir bytes ≡ ok made)
              × AreMade src disk tmpdir entries made)
            ↔ All (IsJoinable tmpdir) entries)
  restore-write_container B src disk tmpdir entries total pw key opts r now readonly uuid bytes h
        back count sum =
      let (header, dk, opens, same, c, w, w', stored) =
        written_container P L B src disk tmpdir entries total pw key opts r now readonly uuid bytes
          h back count sum in
      (
        header,
        dk,
        opens,
        (
          λ found. restored-IsJoinable src tmpdir disk entries found.0 (sym same ∙ found.1),
          λ joinable.
              let (made, restores) =
                restored-write_entries P L src tmpdir disk c entries w w' stored joinable in
              (made, same ∙ restores, restored-AreMade src tmpdir disk entries made restores),
        ),
      )
