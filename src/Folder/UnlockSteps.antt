-- ===== src/Folder/UnlockSteps.antt =====
-- The steps of unlock_container of format.rs, and what they leave of the container and its folder.
use foldervault.Base.{◌≡◌, ◌≢◌, sym, ◌∙◌, ap, Bool, true, false, List, [], none, some, Bytes, Text}
use foldervault.Vault.{Result, ok}
use foldervault.Container.Authorize.{set_readonly}
use foldervault.Container.Payload.{Made}
use foldervault.Journal.{Item, a_file, a_folder, Record, unlock, put, guarded, guard_path}
use foldervault.Journal.Safety.{put-same, put-other}
use foldervault.Folder.{
  Moment, Records, Os, RecordCode, lift, attempt, change, ask, rename, guard, write_staging,
  guard_container, rearm_container,
}
use foldervault.Folder.Unlock.{rearm_at, unpack}
use foldervault.Folder.Triple.{
  Does, Keeps, Anything, bind-Does, attempt-Does, change-Does, result-Does, ask-Does, when-Keeps,
}
use foldervault.Folder.Calls.{IsStable, rename-Does, guard-Does, put-Keeps}
use foldervault.Folder.Records.{IsKnown}

-- The names of one unlock, what the container holds behind the prologue, and what is restored of it.
pub record Unlocking : Type 0 where
  pub container : Text
  pub dest : Text
  pub tmp : Text
  pub bytes : Bytes
  pub restored : Result (List Made)

abbrev pub record_of : Unlocking → Record
record_of j = record { op = unlock; folder = j.dest; container = j.container; staging = j.tmp }

pub record IsApart (j : Unlocking) : Type 0 where
  pub tmp_dest : j.tmp ≢ j.dest
  pub tmp_container : j.tmp ≢ j.container
  pub dest_container : j.dest ≢ j.container

-- The container is there, and nothing is under way.
pub record IsUnopened (j : Unlocking) (m : Moment) : Type 0 where
  pub readonly : Bool
  pub there : m.disk j.container ≡ some (a_file (record { bytes = j.bytes; readonly = readonly }))
  pub idle : m.records ≡ []

-- The container is there, and there is no folder yet.
pub record IsKept (j : Unlocking) (R : RecordCode) (m : Moment) : Type 0 where
  pub readonly : Bool
  pub there : m.disk j.container ≡ some (a_file (record { bytes = j.bytes; readonly = readonly }))
  pub absent : m.disk j.dest ≡ none
  pub known : IsKnown R (record_of j) m.records

module _ (j : Unlocking) (R : RecordCode) (os : Os) where
  -- The folder is there with all that the container holds.
  pub record IsRestored (m : Moment) : Type 0 where
    pub made : List Made
    pub whole : j.restored ≡ ok made
    pub there : m.disk j.dest ≡ some (a_folder (os.shown made))
    pub known : IsKnown R (record_of j) m.records

  -- Its staging folder is complete.
  pub record IsUnpacked (m : Moment) : Type 0 where
    pub kept : IsKept j R m
    pub made : List Made
    pub whole : j.restored ≡ ok made
    pub staged : m.disk j.tmp ≡ some (a_folder (os.shown made))

  pub data IsSafe (m : Moment) : Type 0 where
    unopened : IsUnopened j m → IsSafe m
    kept : IsKept j R m → IsSafe m
    restored : IsRestored m → IsSafe m

module _ (j : Unlocking) (apart : IsApart j) (R : RecordCode) (os : Os) where
  pub IsKept-IsStable : IsStable (IsKept j R) j.tmp
  IsKept-IsStable m i h = record {
    readonly = h.readonly;
    there = put-other j.tmp j.container i m.disk apart.tmp_container ∙ h.there;
    absent = put-other j.tmp j.dest i m.disk apart.tmp_dest ∙ h.absent;
    known = h.known;
  }

  pub IsRestored-IsStable : IsStable (IsRestored j R os) j.container
  IsRestored-IsStable m i h = record {
    made = h.made;
    whole = h.whole;
    there =
        put-other j.container j.dest i m.disk (λ same. apart.dest_container (sym same)) ∙ h.there;
    known = h.known;
  }

  pub IsRestored-known :
      (m : Moment) (records : Records)
      → IsKnown R (record_of j) records
      → IsRestored j R os m
      → IsRestored j R os (record m { records = records })
  IsRestored-known m records known h = record {
    made = h.made;
    whole = h.whole;
    there = h.there;
    known = known;
  }

  pub IsUnpacked-known :
      (m : Moment) (records : Records)
      → IsKnown R (record_of j) records
      → IsUnpacked j R os m
      → IsUnpacked j R os (record m { records = records })
  IsUnpacked-known m records known h = record {
    kept = record {
      readonly = h.kept.readonly;
      there = h.kept.there;
      absent = h.kept.absent;
      known = known;
    };
    made = h.made;
    whole = h.whole;
    staged = h.staged;
  }

  abbrev S : Moment → Type 0
  S = IsSafe j R os

  -- The closure `rearm`, before and behind the check of the folder's name.
  guard-Unopened :
      (m : Moment) (flag : Bool)
      → IsUnopened j m
      → IsUnopened j (record m { disk = guard_path j.container flag m.disk })
  unfolding guard_path guarded set_readonly
  guard-Unopened m flag h = record {
    readonly = flag;
    there = put-same j.container _ m.disk ∙ ap (guarded flag) h.there;
    idle = h.idle;
  }

  guard-Kept :
      (m : Moment) (flag : Bool)
      → IsKept j R m
      → IsKept j R (record m { disk = guard_path j.container flag m.disk })
  unfolding guard_path guarded set_readonly
  guard-Kept m flag h = record {
    readonly = flag;
    there = put-same j.container _ m.disk ∙ ap (guarded flag) h.there;
    absent =
        put-other j.container j.dest _ m.disk (λ same. apart.dest_container (sym same)) ∙ h.absent;
    known = h.known;
  }

  guard-Restored :
      (m : Moment) (flag : Bool)
      → IsRestored j R os m
      → IsRestored j R os (record m { disk = guard_path j.container flag m.disk })
  unfolding guard_path
  guard-Restored m flag h = IsRestored-IsStable m _ h

  module _ (I : Moment → Type 0) (safe : (m : Moment) → I m → S m)
      (guarding : (m : Moment) (flag : Bool)
        → I m
        → I (record m { disk = guard_path j.container flag m.disk })) where
    guard-Keeps : (c : _) (flag : Bool) → Keeps S I (attempt (guard os c j.container flag))
    guard-Keeps c flag =
        attempt-Does S I _ I I
          (guard-Does S I I os safe c j.container flag (λ m h. h) (λ m h. guarding m flag h))

    rearm-Keeps : (was_readonly : Bool) → Keeps S I (rearm_at os j.container was_readonly)
    unfolding rearm_at
    rearm-Keeps was_readonly = when-Keeps S I was_readonly _ (guard-Keeps rearm_container true)

  pub rearm-Unopened :
      (was_readonly : Bool) → Keeps S (IsUnopened j) (rearm_at os j.container was_readonly)
  rearm-Unopened = rearm-Keeps (IsUnopened j) (λ m h. unopened h) guard-Unopened

  pub rearm-Kept :
      (was_readonly : Bool) → Keeps S (IsKept j R) (rearm_at os j.container was_readonly)
  rearm-Kept = rearm-Keeps (IsKept j R) (λ m h. kept h) guard-Kept

  pub clear-Restored :
      Keeps S (IsRestored j R os) (attempt (guard os guard_container j.container false))
  clear-Restored =
      guard-Keeps (IsRestored j R os) (λ m h. restored h) guard-Restored guard_container false

  pub unpack-Does :
      Does S (IsKept j R) (unpack os j.tmp j.restored) (λ u. IsUnpacked j R os) (IsKept j R)
  unfolding unpack
  unpack-Does =
      let I = IsKept j R in
      let safe : (m : Moment) → I m → S m = λ m h. kept h in
      bind-Does S I (change (put j.tmp (some (a_folder (os.half (os.shown [])))))) I (λ u. I) _ _
        (put-Keeps S I os j.tmp IsKept-IsStable safe _)
        (λ u.
          bind-Does S I (ask os write_staging) I (λ u. I) _ _
            (ask-Does S I I os write_staging (λ m h. h))
            (λ u.
              bind-Does S I (lift j.restored) I (λ made m. I m × (j.restored ≡ ok made)) _ _
                (result-Does S I I j.restored (λ m h. h))
                (λ made.
                  change-Does S (λ m. I m × (j.restored ≡ ok made)) I
                    (put j.tmp (some (a_folder (os.shown made)))) (IsUnpacked j R os)
                    (λ m h. kept (IsKept-IsStable m _ h.0))
                    (λ m h. record {
                      kept = IsKept-IsStable m _ h.0;
                      made = made;
                      whole = h.1;
                      staged = put-same j.tmp _ m.disk;
                    }))))

  moved :
      (i : Item) (m : Moment)
      → IsUnpacked j R os m
      → m.disk j.tmp ≡ some i
      → IsRestored j R os (record m { disk = put j.dest (some i) (put j.tmp none m.disk) })
  moved i m h seen = record {
    made = h.made;
    whole = h.whole;
    there = put-same j.dest (some i) (put j.tmp none m.disk) ∙ sym seen ∙ h.staged;
    known = h.kept.known;
  }

  pub rename_staging-Does :
      Does S (IsUnpacked j R os) (rename os j.tmp j.dest) (λ u. IsRestored j R os) Anything
  rename_staging-Does =
      rename-Does S (IsUnpacked j R os) (IsRestored j R os) os (λ m h. restored h) Anything j.tmp
        j.dest (λ m h. tt) moved
