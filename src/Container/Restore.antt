-- ===== src/Container/Restore.antt =====
-- Locking and unlocking: a container that was written opens with its password, and restores what was
-- read.
use foldervault.Base.{
  ℕ, ◌≤◌, ◌≡◌, refl, sym, ap, ◌∙◌, Bool, false, List, [], ◌++◌, append_assoc, append-nil, arith,
  IsU64, Option, none, some, Bytes, Text, ltb, length, length-append, length-zeros, drop-append,
  Bool-cases, inl, inr, ◌⊎◌, eq→==,
}
use foldervault.Vault.{ok, >>=-eq-ok, Result-cases}
use foldervault.Lockout.{check}
use foldervault.Primitives.{Primitives, IsLawful, KdfParams, Call, done, failed}
use foldervault.Random.{Rng, fill_bytes, length-fill_bytes}
use foldervault.Crypto.{
  SecretKey, ChunkCipher, derive_kek, validate, manifest_seq, seal, random_key,
}
use foldervault.Crypto.Seal.{validate_iff, length-wrap_key, unwrap_key-wrap_key}
use foldervault.Header.{Header, to_bytes}
use foldervault.Header.Layout.{IsHeader, length-to_bytes}
use foldervault.Recovery.Seal.{seal_dk}
use foldervault.Walk.{Entry}
use foldervault.Container.Authorize.{password, open_and_authorize}
use foldervault.Container.Guard.{own, open_right}
use foldervault.Container.Payload.{
  Bincode, Disk, LockOptions, Writer, seal_to, write_entries, extract_entries, restored,
}
use foldervault.Container.Chunks.{read_frame-seal, open_in_place-seal}
use foldervault.Container.Extract.{extract_entries-restored}
use foldervault.Container.Whole.{
  kdf_of, draw, master_wrap, new_header, write_payload, write_container, read_manifest, restore,
}

pub Call-cases {ℓ} :
    {A : Type ℓ} (r : Call A) → ((a : A) × (r ≡ done a)) ⊎ ((e : Text) × (r ≡ failed e))
Call-cases (done a) = inl (a, refl)
Call-cases (failed e) = inr (e, refl)

derive_kek-validate :
    (P : Primitives) (pw salt : Bytes) (p : KdfParams) (kek : SecretKey)
    → derive_kek P pw salt p ≡ ok kek
    → validate p ≡ ok tt
unfolding derive_kek
derive_kek-validate P pw salt p kek h = elim (Result-cases (validate p)) [
  | inl (tt, valid) ↦ valid
  | inr (e, refused) ↦ absurd (cc (rw (derive_kek, refused) at h))
]

module _ (P : Primitives) (L : IsLawful P) where
  length-master_wrap :
      (p : Option Bytes) (dk : SecretKey) (r : Rng)
      → length dk ≡ 32
      → length (master_wrap P p dk r).0 ≡ 92
  unfolding master_wrap seal_dk
  length-master_wrap none dk r h = length-zeros 92
  length-master_wrap (some p) dk r h =
      let eph = fill_bytes 32 r in
      omega (
        arith,
        length-append (P.public_key eph.0) _,
        (L.public_key-IsArray eph.0).0,
        length-wrap_key P L _ dk eph.1 h,
      )

  new_header-IsHeader :
      (entries : List Entry) (total : ℕ) (opts : LockOptions) (kek : SecretKey) (r : Rng)
      → IsU64 (length entries)
      → IsU64 total
      → validate (kdf_of opts) ≡ ok tt
      → IsHeader (new_header P entries total opts kek (draw r)).0
  unfolding new_header draw random_key
  new_header-IsHeader entries total opts kek r count sum valid =
      let u = fill_bytes 16 r in
      let s = fill_bytes 16 u.1 in
      let d = fill_bytes 32 s.1 in
      let (m0, m1, t0, t1, l0, l1) = (validate_iff (kdf_of opts)).0 valid in
      record {
        uuid_length = length-fill_bytes 16 r;
        salt_length = length-fill_bytes 16 u.1;
        pw_length = length-wrap_key P L kek d.0 d.1 (length-fill_bytes 32 s.1);
        mk_length = length-master_wrap opts.master_pub d.0 _ (length-fill_bytes 32 s.1);
        m_cost_range = omega (arith, m1);
        t_cost_range = omega (arith, t1);
        lanes_range = omega (arith, l1);
        fail_count_range = omega arith;
        locked_until_range = omega arith;
        entry_count_range = count;
        payload_len_range = sum;
      }

  write_payload-ok :
      (B : Bincode) (src : List Text) (disk : Disk) (c : ChunkCipher) (entries : List Entry)
      (w w' : Writer)
      → write_payload P B src disk c entries w ≡ ok w'
      → (manifest : Bytes) × (B.serialize entries ≡ done manifest)
        × (length manifest ≤ 268435440)
        × (write_entries P src disk c entries (seal_to P c manifest_seq manifest w) ≡ ok w')
  unfolding write_payload
  write_payload-ok B src disk c entries w w' h = elim (Call-cases (B.serialize entries)) [
    | inr (e, refused) ↦ absurd (cc (rw (write_payload, refused) at h))
    | inl (manifest, serialized) ↦ elim (Bool-cases (ltb 268435440 (length manifest))) [
      | inl large ↦ absurd (cc (rw (write_payload, serialized, large) at h))
      | inr fits ↦ (manifest, serialized, ground arith, rw (write_payload, serialized, fits) at h)
    ]
  ]

  read_manifest-seal :
      (B : Bincode) (h : Header) (key : Bytes) (c : ChunkCipher) (entries : List Entry)
      (manifest rest : Bytes) (r : Rng) (header : Header)
      → IsHeader h
      → length manifest ≤ 268435440
      → B.deserialize manifest ≡ some entries
      → header.entry_count ≡ length entries
      → read_manifest P B header c
          (to_bytes P h key ++ ((seal P c manifest_seq manifest r).0 ++ rest))
        ≡ ok (entries, rest)
  unfolding read_manifest
  read_manifest-seal B h key c entries manifest rest r header w fits back count = rw (
    read_manifest,
    drop-append 268 (to_bytes P h key) ((seal P c manifest_seq manifest r).0 ++ rest)
        (length-to_bytes P L h key w),
    read_frame-seal P L 268435456 c manifest_seq manifest r rest (omega arith) (omega arith),
    open_in_place-seal P L c manifest_seq manifest r,
    back,
    eq→== (length entries) header.entry_count (sym count),
  )

  restore-seal :
      (B : Bincode) (h : Header) (key : Bytes) (entries : List Entry) (manifest rest : Bytes)
      (r : Rng) (header : Header) (dk : SecretKey) (tmpdir : List Text)
      → IsHeader h
      → length manifest ≤ 268435440
      → B.deserialize manifest ≡ some entries
      → header.entry_count ≡ length entries
      → let c : ChunkCipher = record { key = dk; uuid = header.uuid } in
        restore P B header dk tmpdir
          (to_bytes P h key ++ ((seal P c manifest_seq manifest r).0 ++ rest))
        ≡ extract_entries P tmpdir c entries 0 rest
  unfolding restore
  restore-seal B h key entries manifest rest r header dk tmpdir w fits back count =
      let c : ChunkCipher = record { key = dk; uuid = header.uuid } in
      rw (restore, read_manifest-seal B h key c entries manifest rest r header w fits back count)

  -- A container that was written opens with its password, and its extraction is `restored` of the
  -- entries, whose files were written.
  pub written_container :
      (B : Bincode) (src : List Text) (disk : Disk) (tmpdir : List Text) (entries : List Entry)
      (total : ℕ) (pw key : Bytes) (opts : LockOptions) (r : Rng) (now : ℕ) (readonly : Bool)
      (uuid bytes : Bytes)
      → write_container P B src disk entries total pw key opts r ≡ ok (uuid, bytes)
      → ((manifest : Bytes)
          → B.serialize entries ≡ done manifest
          → B.deserialize manifest ≡ some entries)
      → IsU64 (length entries)
      → IsU64 total
      → (header : Header) × (dk : SecretKey) × (open_and_authorize P
            (password pw)
            key
            now
            (record { bytes = bytes; readonly = readonly })
          ≡ (
            ok (record { header = header; dk = dk; was_readonly = readonly }),
            record { bytes = bytes; readonly = false },
          ))
        × (restore P B header dk tmpdir bytes ≡ restored src disk tmpdir entries)
        × (c : ChunkCipher) × (w w' : Writer) × (write_entries P src disk c entries w ≡ ok w')
  unfolding write_container new_header seal_to check
  written_container B src disk tmpdir entries total pw key opts r now readonly uuid bytes h back
        count sum =
      let d = draw r in
      let c : ChunkCipher = record { key = d.dk; uuid = d.uuid } in
      let (kek, derived, h1) = >>=-eq-ok (derive_kek P pw d.salt (kdf_of opts)) _ h in
      let prepared = new_header P entries total opts kek d in
      let w0 : Writer = record { rng = prepared.1; seq = 0; out = to_bytes P prepared.0 key } in
      let (w, written, h2) = >>=-eq-ok (write_payload P B src disk c entries w0) _ h1 in
      let (manifest, serialized, fits, stored) =
        write_payload-ok B src disk c entries w0 w written in
      let (frames, out, extracted) =
        extract_entries-restored P L src disk c tmpdir entries
          (seal_to P c manifest_seq manifest w0) w stored in
      let frame = (seal P c manifest_seq manifest prepared.1).0 in
      let same : w.out ≡ bytes = cc in
      let split : bytes ≡ to_bytes P prepared.0 key ++ (frame ++ frames) =
        sym same ∙ out ∙ append_assoc (to_bytes P prepared.0 key) frame frames in
      let valid = derive_kek-validate P pw d.salt (kdf_of opts) kek derived in
      let well = new_header-IsHeader entries total opts kek r count sum valid in
      (
        own prepared.0,
        d.dk,
        rw split (
            open_right P L key prepared.0 well pw kek d.dk now (frame ++ frames) readonly refl
              derived (unwrap_key-wrap_key P L kek d.dk d.rng)),
        rw split (
            restore-seal B prepared.0 key entries manifest frames prepared.1 (own prepared.0) d.dk
              tmpdir well fits (back manifest serialized) refl
            ∙ ap (extract_entries P tmpdir c entries 0) (sym (append-nil frames))
            ∙ extracted []),
        c,
        seal_to P c manifest_seq manifest w0,
        w,
        stored,
      )
