-- ===== src/Container/Extract.antt =====
-- The entries of a container: what `write_entries` writes is what `extract_entries` restores.
use foldervault.Base.{
  ℕ, ◌≡◌, refl, sym, ap, ◌∙◌, true, false, List, [], ◌∷◌, ◌++◌, append_assoc, append-nil, arith,
  Bytes, Text, ◌==◌, length, Bool-cases, inl, inr,
}
use foldervault.Vault.{ok, >>=-eq-ok, Result-cases}
use foldervault.Primitives.{Primitives, IsLawful}
use foldervault.Crypto.{ChunkCipher}
use foldervault.Paths.{PathBuf, safe_join}
use foldervault.Walk.{Entry}
use foldervault.Container.Payload.{
  Disk, Writer, changed, write_chunks, write_file, write_entries, extract_chunks, extract_entries,
  restored,
}
use foldervault.Container.Chunks.{write_chunks-extract}

length-zero : (xs : Bytes) → (length xs == 0) ≡ true → xs ≡ []
length-zero [] h = refl
length-zero (x ∷ xs) h = absurd (ground arith)

-- A file as it was when it was locked.
pub record IsStored (src : List Text) (disk : Disk) (e : Entry) (f : Bytes) : Type 0 where
  pub path : PathBuf
  pub joined : safe_join src e.rel_path ≡ ok path
  pub content : disk path ≡ ok f
  pub whole : length f ≡ e.size

module _ (P : Primitives) (L : IsLawful P) (src : List Text) (disk : Disk) (c : ChunkCipher) where
  -- A file is written only if it can be opened below the source and has the size that the scan saw:
  -- one that shrank or grew stops the locking. Its frames are read back, in their place, with the
  -- file's whole content.
  pub write_file-IsStored :
      (e : Entry) (w w' : Writer)
      → write_file P src disk c e w ≡ ok w'
      → (f frames : Bytes) × IsStored src disk e f
        × (w'.out ≡ w.out ++ frames)
        × ((tail : Bytes)
            → extract_chunks P e.size c e.size w.seq (frames ++ tail) ≡ ok (f, w'.seq, tail))
  unfolding write_file
  write_file-IsStored e w w' h =
      let (path, joined, h1) = >>=-eq-ok (safe_join src e.rel_path) _ h in
      let (f, content, h2) = >>=-eq-ok (disk path) _ h1 in
      let (step, written, h3) = >>=-eq-ok (write_chunks P e.size c (changed e) e.size f w) _ h2 in
      elim (Bool-cases (length step.0 == 0)) [
        | inl empty ↦
            let same : step.1 ≡ w' = cc (rw empty at h3) in
            let (frames, stored, out, split, size, back) =
              write_chunks-extract P L e.size c (changed e) e.size f step.0 w step.1 (omega arith)
                written in
            let all : f ≡ stored =
              split ∙ ap (λ t. stored ++ t) (length-zero step.0 empty) ∙ append-nil stored in
            (
              f,
              frames,
              record {
                path = path;
                joined = joined;
                content = content;
                whole = ap length all ∙ size;
              },
              ap (λ (t : Writer). t.out) (sym same) ∙ out,
              λ tail. back tail ∙ cc,
            )
        | inr more ↦ absurd (cc (rw more at h3))
      ]

  extract_dir :
      (tmpdir : List Text) (e : Entry) (es : List Entry) (seq : ℕ) (r : Bytes)
      → e.is_dir ≡ true
      → extract_entries P tmpdir c es seq r ≡ restored src disk tmpdir es
      → extract_entries P tmpdir c (e ∷ es) seq r ≡ restored src disk tmpdir (e ∷ es)
  unfolding extract_entries restored
  extract_dir tmpdir e es seq r dir back = elim (Result-cases (safe_join tmpdir e.rel_path)) [
    | inl (target, joined) ↦ rw (extract_entries, restored, joined, dir, back)
    | inr (error, refused) ↦ rw (extract_entries, restored, refused)
  ]

  extract_file :
      (tmpdir : List Text) (e : Entry) (es : List Entry) (seq seq' : ℕ) (r r' f : Bytes)
      → e.is_dir ≡ false
      → IsStored src disk e f
      → extract_chunks P e.size c e.size seq r ≡ ok (f, seq', r')
      → extract_entries P tmpdir c es seq' r' ≡ restored src disk tmpdir es
      → extract_entries P tmpdir c (e ∷ es) seq r ≡ restored src disk tmpdir (e ∷ es)
  unfolding extract_entries restored
  extract_file tmpdir e es seq seq' r r' f file stored chunks back =
      elim (Result-cases (safe_join tmpdir e.rel_path)) [
        | inl (target, joined) ↦
            rw
              (extract_entries, restored, joined, file, chunks, stored.joined, stored.content, back)
        | inr (error, refused) ↦ rw (extract_entries, restored, refused)
      ]

  -- The extraction of what was written, whatever follows it, is what should be restored.
  pub extract_entries-restored :
      (tmpdir : List Text) (es : List Entry) (w w' : Writer)
      → write_entries P src disk c es w ≡ ok w'
      → (frames : Bytes) × (w'.out ≡ w.out ++ frames)
        × ((tail : Bytes)
            → extract_entries P tmpdir c es w.seq (frames ++ tail) ≡ restored src disk tmpdir es)
  unfolding write_entries extract_entries restored
  extract_entries-restored tmpdir [] w w' h =
      let same : w ≡ w' = cc in
      ([], ap (λ (t : Writer). t.out) (sym same) ∙ sym (append-nil w.out), λ tail. refl)
  extract_entries-restored tmpdir (e ∷ es) w w' h = elim (Bool-cases e.is_dir) [
    | inl dir ↦
        let (frames, out, back) =
          extract_entries-restored tmpdir es w w' (rw (write_entries, dir) at h) in
        (frames, out, λ tail. extract_dir tmpdir e es w.seq (frames ++ tail) dir (back tail))
    | inr file ↦
        let (w1, first, later) =
          >>=-eq-ok (write_file P src disk c e w) _ (rw (write_entries, file) at h) in
        let (f, frame, stored, out, chunks) = write_file-IsStored e w w1 first in
        let (frames, out', back) = extract_entries-restored tmpdir es w1 w' later in
        (
          frame ++ frames,
          out' ∙ ap (λ t. t ++ frames) out ∙ append_assoc w.out frame frames,
          λ tail.
              ap (extract_entries P tmpdir c (e ∷ es) w.seq) (append_assoc frame frames tail)
              ∙ extract_file tmpdir e es w.seq w1.seq (frame ++ (frames ++ tail)) (frames ++ tail) f
                  file stored (chunks (frames ++ tail)) (back tail),
        )
  ]
