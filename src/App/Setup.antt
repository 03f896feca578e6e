-- ===== src/App/Setup.antt =====
-- run_setup of crates/vault-app/src/main.rs, by the answers to its dialog.
use foldervault.Base.{
  ◌≡◌, ◌⊎◌, refl, sym, ◌∙◌, ap, Bool, true, false, Option, none, some, Bytes, Text, length, inl,
  inr, Bool-cases,
}
use foldervault.Vault.{VaultError, err, Result-cases}
use foldervault.Primitives.{Primitives, IsLawful}
use foldervault.Random.{fill_bytes}
use foldervault.Recovery.Seal.{generate}
use foldervault.Secrets.{Dpapi, load_master_pub, save_master_pub}
use foldervault.Secrets.Kept.{load_master_pub-save_master_pub, save_master_pub-refused}
use foldervault.App.Shell.{register}
use foldervault.App.Main.{Desktop, enroll, with_registration, run_setup}

module _ (P : Primitives) (L : IsLawful P) (D : Dpapi)
    (unprotects : (plain blob : Bytes)
      → D.protect plain ≡ some blob
      → D.unprotect blob ≡ some plain)
    (refuses : Text → Text → Bool) (keeps : Text → Bool) (confirms : Text → Bool)
    (journal_opens : Bool) where
  public-length : (d : Desktop) → length (generate P d.rng).0.public ≡ 32
  unfolding generate
  public-length d = (L.public_key-IsArray (fill_bytes 32 d.rng).0).0

  -- What an enrollment may come to: the fresh key is stored, or nothing is, since the dialog was
  -- dismissed or the key could not be saved.
  abbrev pub Outcome : Desktop → Option Bytes × Desktop → Type 0
  Outcome d after =
      let pair = (generate P d.rng).0 in
      ((confirms pair.code ≡ true)
        × (after.0 ≡ some pair.public)
        × (load_master_pub D after.1.store ≡ some pair.public))
      ⊎ (((confirms pair.code ≡ false)
            ⊎ ((e : VaultError) × ((save_master_pub D pair.public d.store).0 ≡ err e)))
          × (after.0 ≡ none)
          × (after.1.store ≡ d.store))

  -- It speaks of the files and the random generator only.
  Outcome-moved :
      (d d' : Desktop) (after : Option Bytes × Desktop)
      → d'.store ≡ d.store
      → d'.rng ≡ d.rng
      → Outcome d' after
      → Outcome d after
  Outcome-moved d d' after store rng h = rw (sym store, sym rng) h

  enroll-Outcome :
      (key : Bytes) (d : Desktop)
      → Outcome d (enroll P D refuses keeps confirms journal_opens key d)
  unfolding enroll
  enroll-Outcome key d = elim (Bool-cases (confirms (generate P d.rng).0.code)) [
    | inr dismissed ↦ rw (enroll, dismissed) (inr (inl refl, refl, refl))
    | inl agreed ↦ elim (Result-cases (save_master_pub D (generate P d.rng).0.public d.store).0) [
      | inr (e, refused) ↦
          rw (enroll, agreed, refused)
            (inr (
              inr (e, refl),
              refl,
              save_master_pub-refused D (generate P d.rng).0.public d.store e refused,
            ))
      | inl (u, saved) ↦
          rw (enroll, agreed, saved)
            (inl (
              refl,
              refl,
              load_master_pub-save_master_pub D unprotects (generate P d.rng).0.public d.store
                  (public-length d) saved,
            ))
    ]
  ]

  abbrev setup : Text → Bytes → Desktop → Option Bytes × Desktop
  setup = run_setup P D refuses keeps confirms journal_opens

  registration-same :
      (exe : Text) (d : Desktop)
      → let d' = with_registration P D refuses keeps confirms journal_opens exe d in
        (d'.store ≡ d.store) × (d'.rng ≡ d.rng)
  unfolding with_registration
  registration-same exe d = elim (Bool-cases (register refuses exe d.registry).0) [
    | inl done ↦ rw (with_registration, done) (refl, refl)
    | inr refused ↦ rw (with_registration, refused) (refl, refl)
  ]

  -- Where no master key was enrolled, the setup returns the fresh public key and stores it, so that
  -- it is the one loaded from now on, exactly if the dialog with its code was confirmed and the key
  -- could be saved; otherwise it returns none and leaves every file of the install as it was.
  -- CryptUnprotectData undoes CryptProtectData.
  pub run_setup-enrolled :
      (exe : Text) (key : Bytes) (d : Desktop)
      → load_master_pub D d.store ≡ none
      → Outcome d (setup exe key d)
  unfolding run_setup
  run_setup-enrolled exe key d nothing =
      let (store, rng) = registration-same exe d in
      let d' = with_registration P D refuses keeps confirms journal_opens exe d in
      let nothing' : load_master_pub D d'.store ≡ none = ap (load_master_pub D) store ∙ nothing in
      rw (run_setup, nothing')
        (Outcome-moved d d' (enroll P D refuses keeps confirms journal_opens key d') store rng
          (enroll-Outcome key d'))
