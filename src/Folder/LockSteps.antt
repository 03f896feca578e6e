-- ===== src/Folder/LockSteps.antt =====
-- The steps of lock_folder of format.rs, and what they leave of the folder and its container.
use foldervault.Base.{◌≡◌, ◌≢◌, sym, ◌∙◌, ap, Bool, false, none, some, Bytes, Text, ◌⊎◌, inl, inr}
use foldervault.Vault.{Result, ok}
use foldervault.Walk.{FolderScan}
use foldervault.Container.Authorize.{set_readonly}
use foldervault.Journal.{Item, a_file, Disk, Record, lock, put, guarded, guard_path}
use foldervault.Journal.Safety.{put-same, put-other}
use foldervault.Folder.{
  Moment, Os, RecordCode, lift, change, ask, rename, guard, create_staging, write_staging,
  guard_container,
}
use foldervault.Folder.Lock.{fresh_file, stage}
use foldervault.Folder.Triple.{
  Does, Keeps, bind-Does, change-Does, lift-Does, result-Does, ask-Does,
}
use foldervault.Folder.Calls.{rename-Does, guard-Does, IsStable, put-Keeps}
use foldervault.Folder.Records.{IsKnown}

-- The names of one lock, the disk on which it began, and what `write_container` makes of the folder.
pub record Locking : Type 0 where
  pub src : Text
  pub dest : Text
  pub tmp : Text
  pub before : Disk
  pub scanned : Result FolderScan
  pub made : FolderScan → Result (Bytes × Bytes)

abbrev pub record_of : Locking → Record
record_of j = record { op = lock; folder = j.src; container = j.dest; staging = j.tmp }

pub record IsApart (j : Locking) : Type 0 where
  pub tmp_src : j.tmp ≢ j.src
  pub tmp_dest : j.tmp ≢ j.dest
  pub src_dest : j.src ≢ j.dest

-- The folder is untouched, and there is no container yet.
pub record IsWhole (j : Locking) (R : RecordCode) (m : Moment) : Type 0 where
  pub kept : m.disk j.src ≡ j.before j.src
  pub absent : m.disk j.dest ≡ none
  pub known : IsKnown R (record_of j) m.records

-- What `write_container` made.
pub record IsMade (j : Locking) (bytes : Bytes) : Type 0 where
  pub found : FolderScan
  pub uuid : Bytes
  pub scan : j.scanned ≡ ok found
  pub returned : j.made found ≡ ok (uuid, bytes)

-- The container is there with all its bytes.
pub record IsStored (j : Locking) (R : RecordCode) (m : Moment) : Type 0 where
  pub bytes : Bytes
  pub readonly : Bool
  pub complete : IsMade j bytes
  pub there : m.disk j.dest ≡ some (a_file (record { bytes = bytes; readonly = readonly }))
  pub known : IsKnown R (record_of j) m.records

-- Its staging file is complete, the folder untouched.
pub record IsStaged (j : Locking) (R : RecordCode) (m : Moment) : Type 0 where
  pub whole : IsWhole j R m
  pub bytes : Bytes
  pub complete : IsMade j bytes
  pub staged : m.disk j.tmp ≡ fresh_file bytes

abbrev pub IsSafe : Locking → RecordCode → Moment → Type 0
IsSafe j R m = IsWhole j R m ⊎ IsStored j R m

module _ (j : Locking) (apart : IsApart j) (R : RecordCode) where
  pub IsWhole-IsStable : IsStable (IsWhole j R) j.tmp
  IsWhole-IsStable m i h = record {
    kept = put-other j.tmp j.src i m.disk apart.tmp_src ∙ h.kept;
    absent = put-other j.tmp j.dest i m.disk apart.tmp_dest ∙ h.absent;
    known = h.known;
  }

  pub IsStored-IsStable : IsStable (IsStored j R) j.src
  IsStored-IsStable m i h = record {
    bytes = h.bytes;
    readonly = h.readonly;
    complete = h.complete;
    there = put-other j.src j.dest i m.disk apart.src_dest ∙ h.there;
    known = h.known;
  }

  module _ (os : Os) where
    pub stage-Does :
        (made : Result (Bytes × Bytes)) (found : FolderScan)
        → j.scanned ≡ ok found
        → made ≡ j.made found
        → Does (IsSafe j R) (IsWhole j R) (stage os j.tmp made) (λ uuid. IsStaged j R) (IsWhole j R)
    unfolding stage
    stage-Does made found seen same =
        let I = IsWhole j R in
        let S = IsSafe j R in
        let asked : (c : _) → Keeps S I (ask os c) = λ c. ask-Does S I I os c (λ m h. h) in
        bind-Does S I (ask os create_staging) I (λ u. I) _ _ (asked create_staging)
          (λ u.
            bind-Does S I (change (put j.tmp (fresh_file os.partial))) I (λ u. I) _ _
              (put-Keeps S I os j.tmp IsWhole-IsStable (λ m h. inl h) (fresh_file os.partial))
              (λ u.
                bind-Does S I (ask os write_staging) I (λ u. I) _ _ (asked write_staging)
                  (λ u.
                    bind-Does S I (lift made) I (λ r m. I m × (made ≡ ok r)) _ _
                      (result-Does S I I made (λ m h. h))
                      (λ r.
                        bind-Does S (λ m. I m × (made ≡ ok r)) (change (put j.tmp (fresh_file r.1)))
                          I (λ u. IsStaged j R) _ (λ uuid. IsStaged j R)
                          (change-Does S (λ m. I m × (made ≡ ok r)) I (put j.tmp (fresh_file r.1))
                            (IsStaged j R) (λ m h. inl (IsWhole-IsStable m _ h.0))
                            (λ m h. record {
                              whole = IsWhole-IsStable m _ h.0;
                              bytes = r.1;
                              complete = record {
                                found = found;
                                uuid = r.0;
                                scan = seen;
                                returned = sym same ∙ h.1;
                              };
                              staged = put-same j.tmp (fresh_file r.1) m.disk;
                            }))
                          (λ u.
                            lift-Does S (IsStaged j R) I (ok r.0) (λ uuid. IsStaged j R)
                              (λ m h. h))))))

    moved :
        (i : Item) (m : Moment)
        → IsStaged j R m
        → m.disk j.tmp ≡ some i
        → IsStored j R (record m { disk = put j.dest (some i) (put j.tmp none m.disk) })
    moved i m h seen = record {
      bytes = h.bytes;
      readonly = false;
      complete = h.complete;
      there = put-same j.dest (some i) (put j.tmp none m.disk) ∙ sym seen ∙ h.staged;
      known = h.whole.known;
    }

    -- The rename, from a complete staging file.
    pub rename_staging-Does :
        Does (IsSafe j R) (IsStaged j R) (rename os j.tmp j.dest) (λ u. IsStored j R) (IsWhole j R)
    rename_staging-Does =
        rename-Does (IsSafe j R) (IsStaged j R) (IsStored j R) os (λ m h. inr h) (IsWhole j R) j.tmp
          j.dest (λ m h. h.whole) moved

    -- The container is not touched any more, but for its flag.
    guard-Stored :
        (m : Moment) (flag : Bool)
        → IsStored j R m
        → IsStored j R (record m { disk = guard_path j.dest flag m.disk })
    unfolding guard_path guarded set_readonly
    guard-Stored m flag h = record {
      bytes = h.bytes;
      readonly = flag;
      complete = h.complete;
      there = put-same j.dest _ m.disk ∙ ap (guarded flag) h.there;
      known = h.known;
    }

    pub guard-Keeps :
        (flag : Bool) → Keeps (IsSafe j R) (IsStored j R) (guard os guard_container j.dest flag)
    guard-Keeps flag =
        guard-Does (IsSafe j R) (IsStored j R) (IsStored j R) os (λ m h. inr h) guard_container
          j.dest flag (λ m h. h) (λ m h. guard-Stored m flag h)
