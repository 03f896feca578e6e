-- ===== src/Container/Payload.antt =====
-- format.rs, `write_container` and `extract_entries`: the manifest and the chunks of the files. The
-- disk shows what opening and reading a path gives; calls that write do not fail, and progress is not
-- reported. bincode is a parameter.
use foldervault.Base.{
  ℕ, zero, suc, ◌+◌, ◌-◌, ◌*◌, ◌%◌, ◌^◌, Bool, true, false, not, List, [], ◌∷◌, ◌++◌, Option, none,
  some, Bytes, Text, codes, ltb, ◌==◌, if◌then◌else◌, length,
}
use foldervault.Vault.{VaultError, other, tampered, chunk_size, Result, ok, err, ◌>>=◌}
use foldervault.Primitives.{Primitives, KdfParams, Call}
use foldervault.Random.{Rng}
use foldervault.Crypto.{ChunkCipher, tag_len, seal, open_in_place}
use foldervault.Paths.{PathBuf, safe_join}
use foldervault.Walk.{Entry}
use foldervault.Container.Stream.{read_exact, read_frame}

-- `bincode::serialize` and `deserialize` of a manifest.
pub record Bincode : Type 0 where
  pub serialize : List Entry → Call Bytes
  pub deserialize : Bytes → Option (List Entry)

-- Opening a path and reading it to its end.
abbrev pub Disk : Type 0
Disk = PathBuf → Result Bytes

abbrev pub max_manifest_len : ℕ
max_manifest_len = 256 * 1024 * 1024

-- `LockOptions`
pub record LockOptions : Type 0 where
  pub kdf : Option KdfParams
  pub master_pub : Option Bytes
  pub secure_delete : Bool
  pub recycle_original : Bool
  pub readonly_container : Bool

-- The buffered file and the counter of chunks.
pub record Writer : Type 0 where
  pub rng : Rng
  pub seq : ℕ
  pub out : Bytes

-- What extraction leaves below the folder that it restores into. A time is set if it is known.
pub data Made : Type 0 where
  made_dir : PathBuf → Made
  made_file : PathBuf → Bytes → Option ℕ → Bool → Made

abbrev pub time_of : Entry → Option ℕ
time_of e = if ltb 0 e.mtime then some e.mtime else none

-- The file of an entry, or the folder.
abbrev pub file_of : Entry → PathBuf → Bytes → Made
file_of e target content = made_file target content (time_of e) e.readonly

-- `remaining.min(CHUNK_SIZE)`
unfoldable pub next_len : ℕ → ℕ
next_len remaining = if ltb remaining chunk_size then remaining else chunk_size

abbrev pub changed : Entry → VaultError
changed e = other (e.rel_path ++ codes " changed while locking")

module _ (P : Primitives) where
  -- `seal_to` on the buffered file.
  unfoldable pub seal_to : ChunkCipher → ℕ → Bytes → Writer → Writer
  unfolding seal
  seal_to c seq plain w =
      let frame = seal P c seq plain w.rng in record w { rng = frame.1; out = w.out ++ frame.0 }

  -- A chunk with the next number.
  unfoldable pub seal_next : ChunkCipher → Bytes → Writer → Writer
  unfolding seal_to
  seal_next c plain w = record (seal_to c w.seq plain w) { seq = (w.seq + 1) % 2 ^ 64 }

  -- The loop over one file's chunks: what is left of the file, and the container. A round takes at
  -- least one byte, so that as much fuel as bytes remain is enough.
  unfoldable pub write_chunks :
      ℕ → ChunkCipher → VaultError → ℕ → Bytes → Writer → Result (Bytes × Writer)
  unfolding read_exact next_len seal_next
  write_chunks zero c e remaining f w = ok (f, w)
  write_chunks (suc fuel) c e remaining f w = elim (remaining == 0) [
    | true ↦ ok (f, w)
    | false ↦ elim (read_exact (next_len remaining) f) [
      | err _ ↦ err e
      | ok (buf, rest) ↦
          write_chunks fuel c e (remaining - next_len remaining) rest (seal_next c buf w)
    ]
  ]

  -- One file: its chunks, and the check that nothing follows them.
  unfoldable pub write_file : List Text → Disk → ChunkCipher → Entry → Writer → Result Writer
  unfolding write_chunks safe_join
  write_file src disk c e w = do
    path ← safe_join src e.rel_path
    f ← disk path
    (left, w') ← write_chunks e.size c (changed e) e.size f w
    if length left == 0 then ok w' else err (changed e)

  -- The loop over the entries, which passes over the folders.
  unfoldable pub write_entries :
      List Text → Disk → ChunkCipher → List Entry → Writer → Result Writer
  unfolding write_file
  write_entries src disk c [] w = ok w
  write_entries src disk c (e ∷ es) w = elim e.is_dir [
    | true ↦ write_entries src disk c es w
    | false ↦ write_file src disk c e w >>= λ w'. write_entries src disk c es w'
  ]

  -- The loop over one file's frames: its content, the next number and what follows.
  unfoldable pub extract_chunks : ℕ → ChunkCipher → ℕ → ℕ → Bytes → Result (Bytes × ℕ × Bytes)
  unfolding read_frame next_len open_in_place
  extract_chunks zero c remaining seq r = ok ([], seq, r)
  extract_chunks (suc fuel) c remaining seq r = elim (remaining == 0) [
    | true ↦ ok ([], seq, r)
    | false ↦ do
      (frame, r') ← read_frame (chunk_size + tag_len) r
      plain ← open_in_place P c seq frame.nonce frame.blob
      if not (length plain == next_len remaining)
          then err tampered
          else (extract_chunks fuel c (remaining - next_len remaining) ((seq + 1) % 2 ^ 64) r'
              >>= λ more. ok (plain ++ more.0, more.1, more.2))
  ]

  -- `extract_entries`, from a chunk number on.
  unfoldable pub extract_entries :
      List Text → ChunkCipher → List Entry → ℕ → Bytes → Result (List Made)
  unfolding extract_chunks safe_join
  extract_entries tmpdir c [] seq r = ok []
  extract_entries tmpdir c (e ∷ es) seq r = do
    target ← safe_join tmpdir e.rel_path
    elim e.is_dir [
      | true ↦ extract_entries tmpdir c es seq r >>= λ made. ok (made_dir target ∷ made)
      | false ↦ do
        (content, seq', r') ← extract_chunks e.size c e.size seq r
        made ← extract_entries tmpdir c es seq' r'
        ok (file_of e target content ∷ made)
    ]

-- What a folder should be restored to: every entry at its path, with the content that the disk had.
unfoldable pub restored : List Text → Disk → List Text → List Entry → Result (List Made)
unfolding safe_join
restored src disk tmpdir [] = ok []
restored src disk tmpdir (e ∷ es) = do
  target ← safe_join tmpdir e.rel_path
  elim e.is_dir [
    | true ↦ restored src disk tmpdir es >>= λ made. ok (made_dir target ∷ made)
    | false ↦ do
      path ← safe_join src e.rel_path
      content ← disk path
      made ← restored src disk tmpdir es
      ok (file_of e target content ∷ made)
  ]
