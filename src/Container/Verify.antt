-- ===== src/Container/Verify.antt =====
-- format.rs, `inspect` and `verify_structure`: what is read of a container without a credential.
use foldervault.Base.{
  ℕ, zero, suc, ◌+◌, ◌%◌, ◌^◌, ◌||◌, [], ◌∷◌, Bytes, ltb, leb, if◌then◌else◌, length, drop,
  from_le_bytes,
}
use foldervault.Vault.{tampered, chunk_size, Result, ok, err, ◌>>=◌}
use foldervault.Primitives.{Primitives}
use foldervault.Crypto.{tag_len}
use foldervault.Header.{Header, header_len, from_bytes}
use foldervault.Container.Stream.{read_exact, read_frame}
use foldervault.Container.Authorize.{read_header}
use foldervault.Container.Payload.{max_manifest_len}

-- One frame after the probe byte: `io::copy` of `len` bytes must find them all.
unfoldable pub skip_frame : Bytes → Result Bytes
unfolding read_exact
skip_frame r = do
  (rest, r1) ← read_exact 11 r
  (len_bytes, r2) ← read_exact 4 r1
  if ltb (from_le_bytes len_bytes) tag_len || ltb (chunk_size + tag_len) (from_le_bytes len_bytes)
      then err tampered
      else if leb (from_le_bytes len_bytes) (length r2)
      then ok (drop (from_le_bytes len_bytes) r2)
      else err tampered

-- The loop. A round takes the probe byte at least, so that the length of the stream is enough fuel.
unfoldable pub count_frames : ℕ → Bytes → ℕ → Result ℕ
unfolding skip_frame
count_frames zero r frames = ok frames
count_frames (suc fuel) [] frames = ok frames
count_frames (suc fuel) (probe ∷ r) frames =
    skip_frame r >>= λ r'. count_frames fuel r' ((frames + 1) % 2 ^ 64)

module _ (P : Primitives) where
  -- `inspect`
  unfoldable pub inspect : Bytes → Bytes → Result Header
  unfolding read_header
  inspect bytes hmac_key = read_header P bytes hmac_key

  -- `verify_structure`
  unfoldable pub verify_structure : Bytes → Bytes → Result ℕ
  unfolding read_exact read_frame count_frames
  verify_structure bytes hmac_key = do
    (hb, r) ← read_exact header_len bytes
    header ← from_bytes P hb hmac_key
    (manifest, r1) ← read_frame max_manifest_len r
    count_frames (length r1) r1 0
