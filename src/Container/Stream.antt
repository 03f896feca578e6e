-- ===== src/Container/Stream.antt =====
-- `read_exact`, and the frames of a container: format.rs, `read_frame` and `read_frame_into`.
use foldervault.Base.{
  ℕ, ◌≤◌, ◌<◌, ◌^◌, ◌≡◌, refl, ◌||◌, ◌++◌, arith, Bytes, ltb, leb, if◌then◌else◌, true, false,
  length, take, drop, length-append, take-append, drop-append, to_le_bytes, from_le_bytes,
  length-to_le_bytes, from_le_bytes-to_le_bytes_u32,
}
use foldervault.Vault.{io, unexpected_eof, tampered, Result, ok, err, ◌>>=◌}
use foldervault.Crypto.{nonce_len, tag_len}

-- `read_exact` on a buffer of `n` bytes: what it reads, and what is left of the stream.
unfoldable pub read_exact : ℕ → Bytes → Result (Bytes × Bytes)
read_exact n r = if leb n (length r) then ok (take n r, drop n r) else err (io unexpected_eof)

pub record Frame : Type 0 where
  pub nonce : Bytes
  pub blob : Bytes

unfoldable pub read_blob : Bytes → ℕ → Bytes → Result (Frame × Bytes)
read_blob nonce len r = do
  (blob, rest) ← read_exact len r
  ok (record { nonce = nonce; blob = blob }, rest)

-- `read_frame` and `read_frame_into`, which differ in the buffer that they fill.
unfoldable pub read_frame : ℕ → Bytes → Result (Frame × Bytes)
unfolding read_blob
read_frame max_len r = do
  (nonce, r1) ← read_exact nonce_len r
  (len_bytes, r2) ← read_exact 4 r1
  if ltb (from_le_bytes len_bytes) tag_len || ltb max_len (from_le_bytes len_bytes)
      then err tampered
      else read_blob nonce (from_le_bytes len_bytes) r2

pub read_exact-append :
    (n : ℕ) (xs rest : Bytes) → length xs ≡ n → read_exact n (xs ++ rest) ≡ ok (xs, rest)
unfolding read_exact
read_exact-append n xs rest h =
    let fits : leb n (length (xs ++ rest)) ≡ true = ground (arith, length-append xs rest) in
    rw (fits, take-append n xs rest h, drop-append n xs rest h)

-- A frame that is laid out as nonce, length and blob is read back, and what follows it is left.
pub read_frame-append :
    (max_len : ℕ) (nonce blob rest : Bytes)
    → length nonce ≡ 12
    → 16 ≤ length blob
    → length blob ≤ max_len
    → length blob < 2 ^ 32
    → read_frame max_len (nonce ++ (to_le_bytes 4 (length blob) ++ (blob ++ rest)))
      ≡ ok (record { nonce = nonce; blob = blob }, rest)
unfolding read_frame
read_frame-append max_len nonce blob rest hn lo hi fits =
    let size = from_le_bytes-to_le_bytes_u32 (length blob) fits in
    let small : ltb (length blob) 16 ≡ false = ground arith in
    let large : ltb max_len (length blob) ≡ false = ground arith in
    rw (
      read_exact-append 12 nonce (to_le_bytes 4 (length blob) ++ (blob ++ rest)) hn,
      read_exact-append 4 (to_le_bytes 4 (length blob)) (blob ++ rest) (length-to_le_bytes 4 _),
      size,
      small,
      large,
      read_exact-append (length blob) blob rest refl,
    )
