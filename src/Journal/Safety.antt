-- ===== src/Journal/Safety.antt =====
-- The replay of a record by journal.rs, and what it does to the paths of the disk.
use foldervault.Base.{
  ◌≡◌, ◌≢◌, refl, sym, Bool, true, false, Option, none, some, arith, Bytes, Text, bytes_eq,
  bytes_eq-false, bytes_eq_refl, if◌then◌else◌, ◌⊎◌,
}
use foldervault.Primitives.{Primitives}
use foldervault.Journal.{
  Item, Disk, Record, lock, unlock, exists, put, guarded, guard_path, remove_file, remove_dir_all,
  recycle, is_complete, replay_lock, replay_unlock, replay, finished_lock,
}

pub put-other : (p q : Text) (i : Option Item) (disk : Disk) → p ≢ q → put p i disk q ≡ disk q
unfolding put
put-other p q i disk h = rw (bytes_eq-false p q h, put)

pub put-same : (p : Text) (i : Option Item) (disk : Disk) → put p i disk p ≡ i
unfolding put
put-same p i disk = rw (put, bytes_eq_refl) refl

pub exists-none : (p : Text) (disk : Disk) → exists disk p ≡ false → disk p ≡ none
unfolding exists
exists-none p disk h = ground arith

pub guard_path-other :
    (p q : Text) (flag : Bool) (disk : Disk) → p ≢ q → guard_path p flag disk q ≡ disk q
unfolding guard_path
guard_path-other p q flag disk h = put-other p q (guarded flag (disk p)) disk h

module _ (removable : Text → Bool) where
  remove_file-other : (p q : Text) (disk : Disk) → p ≢ q → remove_file removable p disk q ≡ disk q
  unfolding remove_file
  remove_file-other p q disk h = ground (arith, put-other p q none disk h)

  remove_dir_all-other :
      (p q : Text) (disk : Disk) → p ≢ q → remove_dir_all removable p disk q ≡ disk q
  unfolding remove_dir_all
  remove_dir_all-other p q disk h = ground (arith, put-other p q none disk h)

  recycle-other : (p q : Text) (disk : Disk) → p ≢ q → (recycle removable p disk).1 q ≡ disk q
  unfolding recycle
  recycle-other p q disk h = ground (arith, put-other p q none disk h)

pub is_complete-exists :
    (P : Primitives) (removable : Text → Bool) (key : Bytes) (disk : Disk) (p : Text)
    → is_complete P removable key disk p ≡ true
    → exists disk p ≡ true
unfolding is_complete exists
is_complete-exists P removable key disk p h = ground arith

-- The paths of a record, which differ.
pub record IsProper (rec : Record) : Type 0 where
  pub staging_folder : rec.staging ≢ rec.folder
  pub staging_container : rec.staging ≢ rec.container
  pub folder_container : rec.folder ≢ rec.container

module _ (P : Primitives) (removable : Text → Bool) (rec : Record) (key : Bytes) (disk : Disk) where
  replay_lock-other :
      (q : Text)
      → rec.staging ≢ q
      → rec.folder ≢ q
      → (replay_lock P removable rec key disk).1 q ≡ disk q
  unfolding replay_lock
  replay_lock-other q hs hf = ground (
    arith,
    remove_file-other removable rec.staging q disk hs,
    recycle-other removable rec.folder q disk hf,
  )

  replay_lock-folder :
      rec.staging ≢ rec.folder
      → ((replay_lock P removable rec key disk).1 rec.folder ≡ disk rec.folder)
        ⊎ ((exists disk rec.staging ≡ false)
            × (is_complete P removable key disk rec.container ≡ true))
  unfolding replay_lock
  replay_lock-folder hs = ground (arith, remove_file-other removable rec.staging rec.folder disk hs)

  replay_unlock-other :
      (q : Text)
      → rec.staging ≢ q
      → rec.container ≢ q
      → (replay_unlock P removable rec disk).1 q ≡ disk q
  unfolding replay_unlock
  replay_unlock-other q hs hc = ground (
    arith,
    remove_dir_all-other removable rec.staging q disk hs,
    recycle-other removable rec.container q (guard_path rec.container false disk) hc,
    guard_path-other rec.container q false disk hc,
  )

  replay_unlock-container :
      rec.staging ≢ rec.container
      → ((replay_unlock P removable rec disk).1 rec.container ≡ disk rec.container)
        ⊎ ((exists disk rec.staging ≡ false) × (exists disk rec.folder ≡ true))
  unfolding replay_unlock
  replay_unlock-container hs =
      ground (arith, remove_dir_all-other removable rec.staging rec.container disk hs)

module _ (P : Primitives) (removable : Text → Bool) (rec : Record) (key : Bytes) (disk : Disk) where
  -- The replay of a lock's record leaves the container as it is, and the folder too, unless the
  -- staging file is gone and the container passed the structural check: the folder is given up only
  -- for a complete container. The paths of the record differ.
  pub replay-lock :
      rec.op ≡ lock
      → IsProper rec
      → ((replay P removable rec key disk).1 rec.container ≡ disk rec.container)
        × (((replay P removable rec key disk).1 rec.folder ≡ disk rec.folder)
            ⊎ ((exists disk rec.staging ≡ false)
                × (is_complete P removable key disk rec.container ≡ true)))
  unfolding replay
  replay-lock op w = rw op (
    replay_lock-other P removable rec key disk rec.container w.staging_container w.folder_container,
    replay_lock-folder P removable rec key disk w.staging_folder,
  )

  -- The replay of an unlock's record leaves the folder as it is, and the container too, unless the
  -- staging folder is gone and the folder is there. The paths of the record differ.
  pub replay-unlock :
      rec.op ≡ unlock
      → IsProper rec
      → ((replay P removable rec key disk).1 rec.folder ≡ disk rec.folder)
        × (((replay P removable rec key disk).1 rec.container ≡ disk rec.container)
            ⊎ ((exists disk rec.staging ≡ false) × (exists disk rec.folder ≡ true)))
  unfolding replay
  replay-unlock op w = rw op (
    replay_unlock-other P removable rec key disk rec.folder w.staging_folder
        (λ same. w.folder_container (sym same)),
    replay_unlock-container P removable rec key disk w.staging_container,
  )

  -- A lock that was interrupted between its rename and the removal of the folder is finished: the
  -- folder goes, nothing else changes, and the action is reported.
  pub replay_finishes :
      (q : Text)
      → rec.op ≡ lock
      → exists disk rec.staging ≡ false
      → exists disk rec.folder ≡ true
      → is_complete P removable key disk rec.container ≡ true
      → removable rec.folder ≡ true
      → ((replay P removable rec key disk).0 ≡ some (finished_lock rec.folder))
        × ((replay P removable rec key disk).1 q ≡ (if bytes_eq rec.folder q then none else disk q))
  unfolding replay replay_lock recycle put
  replay_finishes q op staging folder complete possible =
      let there : exists disk rec.container ≡ true =
        is_complete-exists P removable key disk rec.container complete in
      rw (op, replay_lock, recycle, staging, folder, complete, possible, there) (refl, refl)
