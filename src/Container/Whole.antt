-- ===== src/Container/Whole.antt =====
-- format.rs, the whole of `write_container`, and what `unlock_container` reads of a container once it
-- is authorized: the manifest and the entries.
use foldervault.Base.{
  ℕ, ◌-◌, true, not, List, ◌++◌, Option, none, some, Bytes, Text, codes, ltb, ◌==◌, if◌then◌else◌,
  length, zeros, drop,
}
use foldervault.Vault.{other, tampered, Result, ok, err, ◌>>=◌}
use foldervault.Lockout.{default}
use foldervault.Primitives.{Primitives, KdfParams, done, failed}
use foldervault.Random.{Rng, fill_bytes}
use foldervault.Crypto.{
  SecretKey, ChunkCipher, tag_len, manifest_seq, random_key, default_kdf, derive_kek, wrap_key,
  open_in_place,
}
use foldervault.Header.{Header, header_len, to_bytes}
use foldervault.Recovery.Seal.{master_wrap_len, seal_dk}
use foldervault.Walk.{Entry}
use foldervault.Container.Stream.{read_frame}
use foldervault.Container.Payload.{
  Bincode, Disk, LockOptions, Writer, Made, max_manifest_len, seal_to, write_entries,
  extract_entries,
}

-- `opts.kdf.unwrap_or_default()`
abbrev pub kdf_of : LockOptions → KdfParams
kdf_of opts = elim opts.kdf [ none ↦ default_kdf | some p ↦ p ]

-- The random draws of `write_container`, in order.
pub record Drawn : Type 0 where
  pub uuid : Bytes
  pub salt : Bytes
  pub dk : SecretKey
  pub rng : Rng

unfoldable pub draw : Rng → Drawn
unfolding random_key
draw r =
    let u = fill_bytes 16 r in
    let s = fill_bytes 16 u.1 in
    let d = random_key s.1 in record { uuid = u.0; salt = s.0; dk = d.0; rng = d.1 }

module _ (P : Primitives) where
  -- The data key sealed to the master public key, or zeros.
  unfoldable pub master_wrap : Option Bytes → SecretKey → Rng → Bytes × Rng
  master_wrap none dk r = (zeros master_wrap_len, r)
  master_wrap (some p) dk r = seal_dk P p dk r

  unfoldable pub new_header : List Entry → ℕ → LockOptions → SecretKey → Drawn → Header × Rng
  new_header entries total_bytes opts kek d =
      let pw = wrap_key P kek d.dk d.rng in
      let mk = master_wrap opts.master_pub d.dk pw.1 in
      (
        record {
          uuid = d.uuid;
          salt = d.salt;
          kdf = kdf_of opts;
          wrapped_dk_pw = pw.0;
          wrapped_dk_mk = mk.0;
          lockout = default;
          entry_count = length entries;
          payload_len = total_bytes;
          hmac_ok = true;
        },
        mk.1,
      )

  -- The manifest and the files, behind the header.
  unfoldable pub write_payload :
      Bincode → List Text → Disk → ChunkCipher → List Entry → Writer → Result Writer
  unfolding seal_to
  write_payload B src disk c entries w = elim (B.serialize entries) [
    | failed e ↦ err (other (codes "manifest: " ++ e))
    | done manifest ↦
        if ltb (max_manifest_len - tag_len) (length manifest)
        then err (other (codes "folder has too many entries"))
        else write_entries P src disk c entries (seal_to P c manifest_seq manifest w)
  ]

  -- `write_container`: the id, and the bytes of the file.
  unfoldable pub write_container :
      Bincode
      → List Text
      → Disk
      → List Entry
      → ℕ
      → Bytes
      → Bytes
      → LockOptions
      → Rng
      → Result (Bytes × Bytes)
  unfolding write_payload
  write_container B src disk entries total_bytes password hmac_key opts r = do
    let d = draw r
    kek ← derive_kek P password d.salt (kdf_of opts)
    let h = new_header entries total_bytes opts kek d
    w ←
        write_payload B src disk (record { key = d.dk; uuid = d.uuid }) entries
          (record { rng = h.1; seq = 0; out = to_bytes P h.0 hmac_key })
    ok (d.uuid, w.out)

  -- The manifest, and the stream behind it.
  unfoldable pub read_manifest :
      Bincode → Header → ChunkCipher → Bytes → Result (List Entry × Bytes)
  read_manifest B header c bytes = do
    (frame, r) ← read_frame max_manifest_len (drop header_len bytes)
    manifest ← open_in_place P c manifest_seq frame.nonce frame.blob
    elim (B.deserialize manifest) [
      | none ↦ err tampered
      | some entries ↦
          if not (length entries == header.entry_count) then err tampered else ok (entries, r)
    ]

  -- The part of `unlock_container` from the prologue to the end of the extraction, below `tmpdir`.
  unfoldable pub restore : Bincode → Header → SecretKey → List Text → Bytes → Result (List Made)
  unfolding read_manifest
  restore B header dk tmpdir bytes = do
    let c : ChunkCipher = record { key = dk; uuid = header.uuid }
    (entries, r) ← read_manifest B header c bytes
    extract_entries P tmpdir c entries 0 r
