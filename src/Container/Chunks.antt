-- ===== src/Container/Chunks.antt =====
-- The chunks of one file: what `write_chunks` writes is what `extract_chunks` reads back.
use foldervault.Base.{
  ℕ, zero, suc, ◌+◌, ◌-◌, ◌%◌, ◌^◌, ◌≤◌, ◌<◌, ◌≡◌, refl, sym, ap, ◌∙◌, false, [], ◌++◌,
  append_assoc, append-nil, arith, Bytes, leb, ◌==◌, length, length-append, take, drop,
  take-append-drop, length-take, to_le_bytes, Bool-cases, inl, inr, eq→==,
}
use foldervault.Vault.{VaultError, ok, Result-cases}
use foldervault.Primitives.{Primitives, IsLawful}
use foldervault.Random.{Rng, fill_bytes, length-fill_bytes}
use foldervault.Crypto.{ChunkCipher, aad, seal, open_in_place}
use foldervault.Crypto.Seal.{open_in_place_iff}
use foldervault.Container.Stream.{read_exact, read_frame, Frame, read_frame-append}
use foldervault.Container.Payload.{Writer, next_len, seal_next, write_chunks, extract_chunks}

-- The nonce and the blob of a sealed chunk.
abbrev pub sealed_frame : Primitives → ChunkCipher → ℕ → Bytes → Rng → Frame
sealed_frame P c seq plain r = record {
  nonce = (fill_bytes 12 r).0;
  blob = P.encrypt c.key (fill_bytes 12 r).0 (aad c seq) plain;
}

pub read_exact-ok :
    (n : ℕ) (r xs rest : Bytes)
    → read_exact n r ≡ ok (xs, rest)
    → (length xs ≡ n) × (r ≡ xs ++ rest)
unfolding read_exact
read_exact-ok n r xs rest h = elim (Bool-cases (leb n (length r))) [
  | inl fits ↦
      let front : take n r ≡ xs = cc in
      let back : drop n r ≡ rest = cc in
      (
        rw (← front) (ground (arith, length-take n r)),
        rw (← front, ← back) (sym (take-append-drop n r)),
      )
  | inr short ↦ absurd (ground arith)
]

next_len-bounds :
    (remaining : ℕ)
    → (remaining == 0) ≡ false
    → (1 ≤ next_len remaining) × (next_len remaining ≤ remaining) × (next_len remaining ≤ 1048576)
unfolding next_len
next_len-bounds remaining h = ground arith

module _ (P : Primitives) (L : IsLawful P) where
  -- A sealed frame is read back, and what follows it is left.
  pub read_frame-seal :
      (max_len : ℕ) (c : ChunkCipher) (seq : ℕ) (plain : Bytes) (r : Rng) (tail : Bytes)
      → length plain + 16 ≤ max_len
      → length plain + 16 < 2 ^ 32
      → read_frame max_len ((seal P c seq plain r).0 ++ tail)
        ≡ ok (sealed_frame P c seq plain r, tail)
  unfolding seal
  read_frame-seal max_len c seq plain r tail fits small =
      let nonce = (fill_bytes 12 r).0 in
      let blob = P.encrypt c.key nonce (aad c seq) plain in
      let size : length blob ≡ length plain + 16 = L.length-encrypt c.key nonce (aad c seq) plain in
      ap (read_frame max_len) (
        append_assoc nonce (to_le_bytes 4 (length blob) ++ blob) tail
        ∙ ap (λ t. nonce ++ t) (append_assoc (to_le_bytes 4 (length blob)) blob tail))
      ∙ read_frame-append max_len nonce blob tail (length-fill_bytes 12 r) (omega (arith, size))
          (omega (arith, size)) (omega (arith, size))

  pub open_in_place-seal :
      (c : ChunkCipher) (seq : ℕ) (plain : Bytes) (r : Rng)
      → open_in_place P c seq
          (sealed_frame P c seq plain r).nonce
          (sealed_frame P c seq plain r).blob
        ≡ ok plain
  open_in_place-seal c seq plain r = (open_in_place_iff P L c seq _ _ plain).1 refl

  extract_chunks-seal :
      (fuel : ℕ) (c : ChunkCipher) (remaining seq seq' : ℕ) (plain content frames tail : Bytes)
      (r : Rng)
      → (remaining == 0) ≡ false
      → length plain ≡ next_len remaining
      → extract_chunks P fuel c (remaining - next_len remaining) ((seq + 1) % 2 ^ 64) frames
        ≡ ok (content, seq', tail)
      → extract_chunks P (suc fuel) c remaining seq ((seal P c seq plain r).0 ++ frames)
        ≡ ok (plain ++ content, seq', tail)
  unfolding extract_chunks
  extract_chunks-seal fuel c remaining seq seq' plain content frames tail r more size next =
      let (lo, fits, hi) = next_len-bounds remaining more in
      rw (
        extract_chunks,
        more,
        read_frame-seal 1048592 c seq plain r frames (omega (arith, size, hi))
            (omega (arith, size, hi)),
        open_in_place-seal c seq plain r,
        eq→== (length plain) (next_len remaining) size,
        next,
      )

  -- The chunks that were written are read back with their content, which is what was read of the file.
  pub write_chunks-extract :
      (fuel : ℕ) (c : ChunkCipher) (e : VaultError) (remaining : ℕ) (f left : Bytes) (w w' : Writer)
      → remaining ≤ fuel
      → write_chunks P fuel c e remaining f w ≡ ok (left, w')
      → (frames content : Bytes) × (w'.out ≡ w.out ++ frames)
        × (f ≡ content ++ left)
        × (length content ≡ remaining)
        × ((tail : Bytes)
            → extract_chunks P fuel c remaining w.seq (frames ++ tail) ≡ ok (content, w'.seq, tail))
  unfolding write_chunks extract_chunks seal_next
  write_chunks-extract zero c e remaining f left w w' enough h =
      let same : w ≡ w' = cc in
      let rest : f ≡ left = cc in
      (
        [],
        [],
        ap (λ (t : Writer). t.out) (sym same) ∙ sym (append-nil w.out),
        rest,
        omega arith,
        λ tail. ap (λ (t : Writer). ok ([], t.seq, tail)) same,
      )
  write_chunks-extract (suc fuel) c e remaining f left w w' enough h =
      elim (Bool-cases (remaining == 0)) [
        | inl none_left ↦
            let h' : ok (f, w) ≡ ok (left, w') = rw (write_chunks, none_left) at h in
            let same : w ≡ w' = cc in
            let rest : f ≡ left = cc in
            (
              [],
              [],
              ap (λ (t : Writer). t.out) (sym same) ∙ sym (append-nil w.out),
              rest,
              ground arith,
              λ tail.
                  rw (extract_chunks, none_left) (ap (λ (t : Writer). ok ([], t.seq, tail)) same),
            )
        | inr more ↦ elim (Result-cases (read_exact (next_len remaining) f)) [
          | inr (cut, r) ↦ absurd (cc (rw (write_chunks, more, r) at h))
          | inl (got, r) ↦
              let next = rw (write_chunks, more, r) at h in
              let (size, split) = read_exact-ok (next_len remaining) f got.0 got.1 r in
              let (lo, fits, hi) = next_len-bounds remaining more in
              let (frames, content, out, rest, total, back) =
                write_chunks-extract fuel c e (remaining - next_len remaining) got.1 left
                  (seal_next P c got.0 w) w' (omega arith) next in
              let frame = (seal P c w.seq got.0 w.rng).0 in
              (
                frame ++ frames,
                got.0 ++ content,
                out ∙ append_assoc w.out frame frames,
                split ∙ ap (λ t. got.0 ++ t) rest ∙ sym (append_assoc got.0 content left),
                omega (arith, length-append got.0 content, size, total, fits),
                λ tail.
                    ap (extract_chunks P (suc fuel) c remaining w.seq)
                      (append_assoc frame frames tail)
                    ∙ extract_chunks-seal fuel c remaining w.seq w'.seq got.0 content
                        (frames ++ tail) tail w.rng more size (back tail),
              )
        ]
      ]
