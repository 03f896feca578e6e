-- ===== src/Tests/Journals.antt =====
-- The replay of records on a small disk.
use foldervault.Base.{◌≡◌, ◌⊎◌, refl, true, false, none, some, codes, bytes_eq}
use foldervault.Vault.{io, not_found, err}
use foldervault.Walk.{folder, end}
use foldervault.Journal.{
  recycle, guard_path, a_file, a_folder, Tree, Disk, Record, lock, unlock, exists, is_complete,
  replay,
}
use foldervault.Journal.Safety.{IsProper, replay-lock, replay-unlock}
use foldervault.Tests.Toy.{toy}

abbrev rec : Record
rec = record {
  op = lock;
  folder = codes "a";
  container = codes "a.fvlt";
  staging = codes "a.fvlt.tmp";
}

abbrev unlocking : Record
unlocking = record rec { op = unlock; staging = codes "a.__restoring" }

abbrev empty : Tree
empty = record { listing = folder 0 end; files = λ p. err (io not_found) }

-- Both copies are there, as after a crash behind the rename.
disk : Disk
disk p = elim (bytes_eq p (codes "a")) [
  | true ↦ some (a_folder empty)
  | false ↦ elim (bytes_eq p (codes "a.fvlt")) [
    | true ↦ some (a_file (record { bytes = codes "FVLT"; readonly = true }))
    | false ↦ none
  ]
]

rec-IsProper : IsProper rec
rec-IsProper = record {
  staging_folder = λ e. cc e;
  staging_container = λ e. cc e;
  folder_container = λ e. cc e;
}

unlocking-IsProper : IsProper unlocking
unlocking-IsProper = record {
  staging_folder = λ e. cc e;
  staging_container = λ e. cc e;
  folder_container = λ e. cc e;
}

replay-lock_example :
    ((replay toy (λ p. true) rec (codes "key") disk).1 rec.container ≡ disk rec.container)
    × (((replay toy (λ p. true) rec (codes "key") disk).1 rec.folder ≡ disk rec.folder)
        ⊎ ((exists disk rec.staging ≡ false)
            × (is_complete toy (λ p. true) (codes "key") disk rec.container ≡ true)))
replay-lock_example = replay-lock toy (λ p. true) rec (codes "key") disk refl rec-IsProper

replay-unlock_example :
    ((replay toy (λ p. true) unlocking (codes "key") disk).1 unlocking.folder
      ≡ disk unlocking.folder)
    × (((replay toy (λ p. true) unlocking (codes "key") disk).1 unlocking.container
          ≡ disk unlocking.container)
        ⊎ ((exists disk unlocking.staging ≡ false) × (exists disk unlocking.folder ≡ true)))
replay-unlock_example =
    replay-unlock toy (λ p. true) unlocking (codes "key") disk refl unlocking-IsProper

-- The interrupted unlock is finished: the container goes.
finished-unlock : (replay toy (λ p. true) unlocking (codes "key") disk).1 (codes "a.fvlt") ≡ none
unfolding replay disk exists bytes_eq recycle guard_path
finished-unlock = refl
