-- ===== src/Folder/UnlockSafe.antt =====
-- unlock_container of format.rs stopped at any moment, and the recovery of journal.rs behind it.
use foldervault.Base.{
  ℕ, ◌≡◌, refl, ◌∙◌, Bool, List, [], ◌∷◌, ◌++◌, some, Bytes, Text, codes, All, ◌⊎◌, inl, inr,
  Bool-cases,
}
use foldervault.Primitives.{Primitives}
use foldervault.Container.Authorize.{File, Credential}
use foldervault.Container.Payload.{Bincode}
use foldervault.Journal.{
  a_file, Disk, exists, is_record, replay, recover_from, recover, RecoveryAction,
}
use foldervault.Journal.Safety.{IsProper, replay-unlock}
use foldervault.Folder.{Moment, World, Records, Os, RecordCode}
use foldervault.Folder.Names.{
  file_name, file_stem, parent, path_text, split-path, unlock_names-apart,
}
use foldervault.Folder.Unlock.{unlock_container}
use foldervault.Folder.Triple.{Does}
use foldervault.Folder.Records.{IsKnown, IsReadBack}
use foldervault.Folder.LockSafe.{listing, recovered}
use foldervault.Folder.UnlockSteps.{
  Unlocking, record_of, IsApart, IsKept, IsRestored, IsSafe, unopened, kept, restored,
}
use foldervault.Folder.UnlockWhole.{unlocking, unlock_container-Does}

module _ (P : Primitives) (removable : Text → Bool) (R : RecordCode) (key : Bytes) (os : Os)
    (j : Unlocking) (apart : IsApart j) where
  proper : IsProper (record_of j)
  proper = record {
    staging_folder = apart.tmp_dest;
    staging_container = apart.tmp_container;
    folder_container = apart.dest_container;
  }

  abbrev bare : Disk → Moment
  bare disk = record { disk = disk; records = [] }

  -- Once a record may be there.
  abbrev IsActive : Disk → Type 0
  IsActive disk = IsKept j R (bare disk) ⊎ IsRestored j R os (bare disk)

  replay-IsActive :
      (disk : Disk) → IsActive disk → IsActive (replay P removable (record_of j) key disk).1
  unfolding exists
  replay-IsActive disk (inr h) =
      let (folder, container) = replay-unlock P removable (record_of j) key disk refl proper in
      inr (record { made = h.made; whole = h.whole; there = folder ∙ h.there; known = tt })
  replay-IsActive disk (inl h) =
      let (folder, container) = replay-unlock P removable (record_of j) key disk refl proper in
      elim container [
        | inl same ↦ inl (record {
          readonly = h.readonly;
          there = same ∙ h.there;
          absent = folder ∙ h.absent;
          known = tt;
        })
        | inr (gone, there) ↦ absurd (cc (rw (exists, h.absent) at there))
      ]

  recover_from-IsActive :
      (records : Records) (actions : List RecoveryAction) (removed : List Text) (disk : Disk)
      → IsKnown R (record_of j) records
      → IsActive disk
      → IsActive
          (recover_from P removable R.deserialize (listing records) key actions removed disk).disk
  unfolding recover_from listing
  recover_from-IsActive [] actions removed disk known h = h
  recover_from-IsActive ((name, bytes) ∷ rest) actions removed disk (this, known) h =
      elim (Bool-cases (is_record name)) [
        | inr plain ↦
            rw (listing, recover_from, plain)
              (recover_from-IsActive rest actions removed disk known h)
        | inl marked ↦ elim this [
          | inl torn ↦
              rw (listing, recover_from, marked, torn)
                (recover_from-IsActive rest actions _ disk known h)
          | inr whole ↦
              rw (listing, recover_from, marked, whole)
                (recover_from-IsActive rest _ _ _ known (replay-IsActive disk h))
        ]
      ]

  active-IsSafe : (disk : Disk) → IsActive disk → IsSafe j R os (bare disk)
  active-IsSafe disk (inl h) = kept h
  active-IsSafe disk (inr h) = restored h

  recovered-IsSafe : (m : Moment) → IsSafe j R os m → IsSafe j R os (recovered P removable R key m)
  unfolding recovered recover recover_from listing
  recovered-IsSafe m (unopened h) =
      rw (recovered, h.idle)
        (unopened (record { readonly = h.readonly; there = h.there; idle = refl }))
  recovered-IsSafe m (kept h) = active-IsSafe _ (
      recover_from-IsActive m.records [] [] m.disk h.known
        (inl (record { readonly = h.readonly; there = h.there; absent = h.absent; known = tt })))
  recovered-IsSafe m (restored h) = active-IsSafe _ (
      recover_from-IsActive m.records [] [] m.disk h.known
        (inr (record { made = h.made; whole = h.whole; there = h.there; known = tt })))

  all_recovered :
      (ms : List Moment)
      → All (IsSafe j R os) ms
      → All (λ m. IsSafe j R os m × IsSafe j R os (recovered P removable R key m)) ms
  all_recovered [] h = tt
  all_recovered (m ∷ ms) (this, rest) = ((this, recovered-IsSafe m this), all_recovered ms rest)

module _ (P : Primitives) (B : Bincode) (R : RecordCode) (os : Os) (removable : Text → Bool)
    (container up : List Text) (base : Text) (credential : Credential) (key : Bytes) (now_unix : ℕ)
    (journal : Bool) (f : File) (before : Disk) where
  abbrev name : Text
  name = base ++ codes ".fvlt"

  -- The unlock of the container `base`.fvlt in `up`, which holds `f`.
  abbrev pub job : Unlocking
  job = unlocking P B R os container up name base credential key now_unix f

  job-IsApart : container ≡ up ++ (name ∷ []) → IsApart job
  job-IsApart split =
      let (a, b, c) = unlock_names-apart up base in
      record {
        tmp_dest = a;
        tmp_container = λ same. b (rw split at same);
        dest_container = λ same. c (rw split at same);
      }

  -- At every moment that the disk goes through while a container with the extension fvlt is
  -- unlocked, whatever the operating system refuses, and also behind a recovery at the next
  -- start, either the container is there with the bytes that the prologue left, or the folder is
  -- there with all that the extraction makes of these bytes. The journal was empty, and a record
  -- is read back from all its bytes, and from a part of them as that record or not at all.
  pub unlock_container-IsSafe :
      file_name container ≡ some name
      → parent container ≡ some up
      → file_stem name ≡ base
      → before (path_text container) ≡ some (a_file f)
      → IsReadBack R (record_of job)
      → let start : World = record { now = record { disk = before; records = [] }; passed = [] } in
        All
          (λ m. IsSafe job R os m × IsSafe job R os (recovered P removable R key m))
          (unlock_container P B R os container credential key now_unix journal start).1.passed
  unfolding Does
  unlock_container-IsSafe named above stem there code =
      let apart = job-IsApart (split-path container up name named above) in
      let start : World = record { now = record { disk = before; records = [] }; passed = [] } in
      all_recovered P removable R key os job apart _
        (unlock_container-Does P B R os container up name base credential key now_unix f apart code
          journal named above stem start tt (there, refl)).0
