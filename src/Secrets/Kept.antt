-- ===== src/Secrets/Kept.antt =====
-- The files of secrets.rs, read back.
use foldervault.Base.{
  ◌≡◌, ◌≢◌, refl, sym, ◌∙◌, ap, true, false, ◌++◌, none, some, arith, Bytes, Text, leb, ◌==◌,
  bytes_eq, bytes_eq_refl, eq→==, length, take, drop, ◌⊎◌, inl, inr, Bool-cases, Option-cases,
}
use foldervault.Vault.{VaultError, ok, err, Result-cases}
use foldervault.Random.{Rng, fill_bytes, length-fill_bytes}
use foldervault.Secrets.{
  Dpapi, Store, holds, dpapi_magic, store_file, install_key, master_pub, read_protected,
  write_protected, write_new, create_key, load_or_create_install_key, load_master_pub,
  save_master_pub,
}

magic-long : (blob : Bytes) → leb 4 (length (dpapi_magic ++ blob)) ≡ true
magic-long blob = ground arith

module _ (D : Dpapi)
    (unprotects : (plain blob : Bytes)
      → D.protect plain ≡ some blob
      → D.unprotect blob ≡ some plain) where
  read_protected-write_new :
      (name : Text) (plain : Bytes) (store : Store)
      → (write_new D name plain store).0 ≡ ok tt
      → read_protected D name (write_new D name plain store).1 ≡ ok (some plain)
  unfolding write_new write_protected read_protected store_file take drop
  read_protected-write_new name plain store h = elim (Option-cases D.no_dir) [
    | inr (e, refused) ↦ absurd (cc (rw (write_new, refused) at h))
    | inl dir ↦ elim (Option-cases (D.protect plain)) [
      | inl nothing ↦ absurd (cc (rw (write_new, dir, write_protected, nothing) at h))
      | inr (blob, protected) ↦ elim (Option-cases (D.no_write name)) [
        | inr (e, refused) ↦
            absurd (cc (rw (write_new, dir, write_protected, protected, refused) at h))
        | inl written ↦
            rw
              (
                write_new,
                dir,
                write_protected,
                protected,
                written,
                read_protected,
                store_file,
                bytes_eq_refl,
                magic-long blob,
                unprotects plain blob protected,
              )
              refl
      ]
    ]
  ]

  -- A master public key of 32 bytes that was saved is loaded. CryptUnprotectData undoes
  -- CryptProtectData.
  pub load_master_pub-save_master_pub :
      (public : Bytes) (store : Store)
      → length public ≡ 32
      → (save_master_pub D public store).0 ≡ ok tt
      → load_master_pub D (save_master_pub D public store).1 ≡ some public
  unfolding save_master_pub load_master_pub
  load_master_pub-save_master_pub public store size saved =
      rw
        (
          load_master_pub,
          save_master_pub,
          read_protected-write_new master_pub public store saved,
          eq→== (length public) 32 size,
        )
        refl

  -- A key that is there.
  found_key :
      (store : Store) (r : Rng) (k : Bytes)
      → read_protected D install_key store ≡ ok (some k)
      → length k ≡ 32
      → load_or_create_install_key D store r ≡ (ok k, store, r)
  unfolding load_or_create_install_key
  found_key store r k there size =
      rw (load_or_create_install_key, there, eq→== (length k) 32 size) refl

  created_key :
      (store : Store) (r r' : Rng) (k : Bytes)
      → (create_key D store r).0 ≡ ok k
      → load_or_create_install_key D (create_key D store r).1 r'
        ≡ (ok k, (create_key D store r).1, r')
  unfolding create_key
  created_key store r r' k made =
      elim (Result-cases (write_new D install_key (fill_bytes 32 r).0 store).0) [
        | inr (e, refused) ↦ absurd (cc (rw (create_key, refused) at made))
        | inl (tt, written) ↦
            let same : (fill_bytes 32 r).0 ≡ k = cc (rw (create_key, written) at made) in
            found_key _ r' k
              (read_protected-write_new install_key (fill_bytes 32 r).0 store written
                ∙ ap (λ b. ok (some b)) same)
              (sym (ap length same) ∙ length-fill_bytes 32 r)
      ]

  -- What loading is, by what is read.
  loads :
      (store : Store) (r : Rng)
      → (load_or_create_install_key D store r ≡ create_key D store r)
        ⊎ ((k : Bytes) × (read_protected D install_key store ≡ ok (some k)) × (length k ≡ 32))
        ⊎ ((e : VaultError) × ((load_or_create_install_key D store r).0 ≡ err e))
  unfolding load_or_create_install_key
  loads store r = elim (Result-cases (read_protected D install_key store)) [
    | inr (e, refused) ↦ inr (inr (e, rw (load_or_create_install_key, refused) refl))
    | inl (none, nothing) ↦ inl (rw (load_or_create_install_key, nothing) refl)
    | inl (some bytes, there) ↦ elim (Bool-cases (length bytes == 32)) [
      | inl whole ↦ inr (inl (bytes, there, ground arith))
      | inr cut ↦ inl (rw (load_or_create_install_key, there, cut) refl)
    ]
  ]

  -- If the install key was loaded or created, loading it again gives the same key, writes nothing
  -- and draws nothing. CryptUnprotectData undoes CryptProtectData.
  pub install_key_persists :
      (store : Store) (r r' : Rng) (k : Bytes)
      → (load_or_create_install_key D store r).0 ≡ ok k
      → let store' = (load_or_create_install_key D store r).1 in
        load_or_create_install_key D store' r' ≡ (ok k, store', r')
  install_key_persists store r r' k loaded = elim (loads store r) [
    | inl created ↦ rw created (created_key store r r' k (rw created at loaded))
    | inr (inl (bytes, there, size)) ↦
        let found = found_key store r bytes there size in
        let same : bytes ≡ k = cc (rw found at loaded) in
        rw found (found_key store r' bytes there size ∙ ap (λ b. (ok b, store, r')) same)
    | inr (inr (e, refused)) ↦ absurd cc
  ]

  -- A raw key of 32 bytes is returned as it is, and its file is not written.
  legacy_key_kept :
      (store : Store) (r : Rng) (raw : Bytes)
      → store install_key ≡ holds raw
      → length raw ≡ 32
      → bytes_eq (take 4 raw) dpapi_magic ≡ false
      → load_or_create_install_key D store r ≡ (ok raw, store, r)
  unfolding read_protected
  legacy_key_kept store r raw there size plain =
      found_key store r raw (rw (read_protected, there, plain) (ground arith)) size

  -- A key of another length is replaced by a new one.
  cut_key_replaced :
      (store : Store) (r : Rng) (k : Bytes)
      → read_protected D install_key store ≡ ok (some k)
      → length k ≢ 32
      → load_or_create_install_key D store r ≡ create_key D store r
  unfolding load_or_create_install_key
  cut_key_replaced store r k there size = ground arith

-- A master public key that could not be saved leaves the files as they were.
pub save_master_pub-refused :
    (D : Dpapi) (public : Bytes) (store : Store) (e : VaultError)
    → (save_master_pub D public store).0 ≡ err e
    → (save_master_pub D public store).1 ≡ store
unfolding save_master_pub write_new write_protected
save_master_pub-refused D public store e h = elim (Option-cases D.no_dir) [
  | inr (x, no_dir) ↦ rw (save_master_pub, write_new, no_dir) refl
  | inl dir ↦ elim (Option-cases (D.protect public)) [
    | inl nothing ↦ rw (save_master_pub, write_new, dir, write_protected, nothing) refl
    | inr (blob, protected) ↦ elim (Option-cases (D.no_write master_pub)) [
      | inr (x, refused) ↦
          rw (save_master_pub, write_new, dir, write_protected, protected, refused) refl
      | inl writes ↦
          absurd
            (cc (rw (save_master_pub, write_new, dir, write_protected, protected, writes) at h))
    ]
  ]
]
