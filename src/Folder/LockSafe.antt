-- ===== src/Folder/LockSafe.antt =====
-- lock_folder of format.rs stopped at any moment, and the recovery of journal.rs behind it.
use foldervault.Base.{
  ◌≡◌, refl, ◌∙◌, Bool, List, [], ◌∷◌, ◌++◌, some, Bytes, Text, codes, All, inl, inr, Bool-cases,
}
use foldervault.Vault.{ok}
use foldervault.Primitives.{Primitives}
use foldervault.Random.{Rng}
use foldervault.Container.Payload.{Bincode, LockOptions}
use foldervault.Journal.{
  Disk, exists, is_record, Listed, listed, replay, recover_from, recover, RecoveryAction,
}
use foldervault.Journal.Safety.{IsProper, replay-lock, is_complete-exists}
use foldervault.Folder.{Moment, World, Records, Os, RecordCode}
use foldervault.Folder.Names.{file_name, parent, sibling, split-path, lock_names-apart}
use foldervault.Folder.Lock.{lock_folder}
use foldervault.Folder.Triple.{Does}
use foldervault.Folder.LockSteps.{Locking, record_of, IsApart, IsSafe}
use foldervault.Folder.LockCrash.{locking, lock_at-Does}
use foldervault.Folder.Records.{IsKnown, IsReadBack}

-- The listing of the journal's directory.
unfoldable pub listing : Records → List Listed
listing [] = []
listing ((name, bytes) ∷ rest) = listed name (some bytes) ∷ listing rest

-- The disk behind a recovery at the next start.
unfoldable pub recovered : Primitives → (Text → Bool) → RecordCode → Bytes → Moment → Moment
unfolding recover listing
recovered P removable R key m = record {
  disk = (recover P removable R.deserialize (ok (listing m.records)) key m.disk).disk;
  records = [];
}

module _ (P : Primitives) (removable : Text → Bool) (R : RecordCode) (key : Bytes) (j : Locking)
    (apart : IsApart j) where
  proper : IsProper (record_of j)
  proper = record {
    staging_folder = apart.tmp_src;
    staging_container = apart.tmp_dest;
    folder_container = apart.src_dest;
  }

  abbrev bare : Disk → Moment
  bare disk = record { disk = disk; records = [] }

  replay-IsSafe :
      (disk : Disk)
      → IsSafe j R (bare disk)
      → IsSafe j R (bare (replay P removable (record_of j) key disk).1)
  unfolding exists
  replay-IsSafe disk (inr h) = inr (record {
    bytes = h.bytes;
    readonly = h.readonly;
    complete = h.complete;
    there = (replay-lock P removable (record_of j) key disk refl proper).0 ∙ h.there;
    known = tt;
  })
  replay-IsSafe disk (inl h) =
      let (container, folder) = replay-lock P removable (record_of j) key disk refl proper in
      elim folder [
        | inl same ↦
            inl (record { kept = same ∙ h.kept; absent = container ∙ h.absent; known = tt })
        | inr (gone, complete) ↦
            let there = is_complete-exists P removable key disk j.dest complete in
            absurd (cc (rw (exists, h.absent) at there))
      ]

  recover_from-IsSafe :
      (records : Records) (actions : List RecoveryAction) (removed : List Text) (disk : Disk)
      → IsKnown R (record_of j) records
      → IsSafe j R (bare disk)
      → IsSafe j R (
          bare
            (recover_from P removable R.deserialize
              (listing records)
              key
              actions
              removed
              disk).disk)
  unfolding recover_from listing
  recover_from-IsSafe [] actions removed disk known h = h
  recover_from-IsSafe ((name, bytes) ∷ rest) actions removed disk (this, known) h =
      elim (Bool-cases (is_record name)) [
        | inr plain ↦
            rw (listing, recover_from, plain)
              (recover_from-IsSafe rest actions removed disk known h)
        | inl yes' ↦ elim this [
          | inl torn ↦
              rw (listing, recover_from, yes', torn)
                (recover_from-IsSafe rest actions _ disk known h)
          | inr whole ↦
              rw (listing, recover_from, yes', whole)
                (recover_from-IsSafe rest _ _ _ known (replay-IsSafe disk h))
        ]
      ]

  forgotten : (m : Moment) → IsSafe j R m → IsSafe j R (bare m.disk)
  forgotten m (inl h) = inl (record { kept = h.kept; absent = h.absent; known = tt })
  forgotten m (inr h) = inr (record {
    bytes = h.bytes;
    readonly = h.readonly;
    complete = h.complete;
    there = h.there;
    known = tt;
  })

  IsKnown-of : (m : Moment) → IsSafe j R m → IsKnown R (record_of j) m.records
  IsKnown-of m (inl h) = h.known
  IsKnown-of m (inr h) = h.known

  recovered-IsSafe : (m : Moment) → IsSafe j R m → IsSafe j R (recovered P removable R key m)
  unfolding recovered recover
  recovered-IsSafe m h = recover_from-IsSafe m.records [] [] m.disk (IsKnown-of m h) (forgotten m h)

  all_recovered :
      (ms : List Moment)
      → All (IsSafe j R) ms
      → All (λ m. IsSafe j R m × IsSafe j R (recovered P removable R key m)) ms
  all_recovered [] h = tt
  all_recovered (m ∷ ms) (this, rest) = ((this, recovered-IsSafe m this), all_recovered ms rest)

module _ (P : Primitives) (B : Bincode) (R : RecordCode) (os : Os) (removable : Text → Bool)
    (src up : List Text) (name : Text) (password key : Bytes) (opts : LockOptions) (journal : Bool)
    (r : Rng) (before : Disk) where
  -- The lock of the folder `name` in `up`.
  abbrev pub job : Locking
  job =
      locking P B R os src (sibling up (name ++ codes ".fvlt"))
        (sibling up (name ++ codes ".fvlt.tmp")) password key opts r before

  abbrev pub start : World
  start = record { now = record { disk = before; records = [] }; passed = [] }

  job-IsApart : src ≡ up ++ (name ∷ []) → IsApart job
  job-IsApart split =
      let (a, b, c) = lock_names-apart src up name split in
      record { tmp_src = a; tmp_dest = b; src_dest = c }

  -- At every moment that the disk goes through while a folder is locked, whatever the operating
  -- system refuses, and also behind a recovery at the next start, either the folder is as it was
  -- and there is no container, or the container is there with all the bytes that write_container
  -- made of the folder. The folder has a name and a parent, the journal was empty, and a record
  -- is read back from all its bytes, and from a part of them as that record or not at all.
  pub lock_folder-IsSafe :
      file_name src ≡ some name
      → parent src ≡ some up
      → IsReadBack R (record_of job)
      → All
          (λ m. IsSafe job R m × IsSafe job R (recovered P removable R key m))
          (lock_folder P B R os src password key opts journal r start).1.passed
  unfolding lock_folder Does
  lock_folder-IsSafe named above code =
      let apart = job-IsApart (split-path src up name named above) in
      all_recovered P removable R key job apart _ (
        rw (lock_folder, named, above)
          (lock_at-Does P B R os src (sibling up (name ++ codes ".fvlt"))
            (sibling up (name ++ codes ".fvlt.tmp")) password key opts r before apart code journal
            start tt (refl, tt)).0)
