-- ===== src/Tests/Folders.antt =====
-- The small folder locked and its container unlocked.
use foldervault.Walk.{Entry, file_entry}
use foldervault.Folder.Wiped.{path_eq_refl}
use foldervault.Base.{
  sym, ap, ◌≡◌, refl, true, false, Text, List, [], ◌∷◌, none, some, arith, codes, bytes_eq, All,
  ◌↔◌,
}
use foldervault.Vault.{denied, io, Result, ok, err}
use foldervault.Crypto.{SecretKey}
use foldervault.Container.Authorize.{File, password, Opened, open_and_authorize}
use foldervault.Container.Payload.{Made, made_dir, made_file}
use foldervault.Container.Whole.{restore}
use foldervault.Journal.{a_file, a_folder}
use foldervault.Header.{Header}
use foldervault.Container.Restored.{IsMade, AreMade, all_made, made_next, restore-write_container}
use foldervault.Container.Whether.{IsJoinable}
use foldervault.Folder.Delete.{verify_and_delete_refused, verify_and_delete-authorized, deletes}
use foldervault.Folder.{World, Os, remove_copy}
use foldervault.Folder.Names.{path_text, file_name, parent, file_stem}
use foldervault.Folder.Lock.{files_at, lock_folder}
use foldervault.Folder.Unlock.{unlock_container, verify_and_delete}
use foldervault.Folder.LockSteps.{IsSafe}
use foldervault.Folder.LockSafe.{recovered, job, lock_folder-IsSafe}
use foldervault.Folder.Locks.{lock_folder_succeeds}
use foldervault.Folder.UnlockSteps
use foldervault.Folder.UnlockSafe
use foldervault.Folder.UnlockSafe.{unlock_container-IsSafe}
use foldervault.Tests.Toy.{toy, toy-IsLawful, tape}
use foldervault.Tests.Home.{
  home, tree, found, bincode, options, rec, code_of, code_of-IsReadBack, willing, disk, written,
  contents, written-ok, scanned, container, unlocking, locked, locked_disk, made_files,
}
use foldervault.Folder.Returns.{unlock_container-lock_folder, Shows, ComesBack}

lock_folder-IsSafe_example :
    All
      (λ m.
        IsSafe
          (job toy bincode
            (code_of rec)
            willing
            (λ p. true)
            home
            (codes "C:" ∷ [])
            (codes "home")
            (codes "secret")
            (codes "install")
            options
            true
            tape
            disk)
          (code_of rec)
          m
        × IsSafe
            (job toy bincode
              (code_of rec)
              willing
              (λ p. true)
              home
              (codes "C:" ∷ [])
              (codes "home")
              (codes "secret")
              (codes "install")
              options
              true
              tape
              disk)
            (code_of rec)
            (recovered toy (λ p. true) (code_of rec) (codes "install") m))
      (lock_folder toy bincode
        (code_of rec)
        willing
        home
        (codes "secret")
        (codes "install")
        options
        true
        tape
        (record { now = record { disk = disk; records = [] }; passed = [] })).1.passed
unfolding path_text file_name parent
lock_folder-IsSafe_example =
    lock_folder-IsSafe toy bincode (code_of rec) willing (λ p. true) home (codes "C:" ∷ [])
      (codes "home") (codes "secret") (codes "install") options true tape disk refl refl
      (code_of-IsReadBack rec)

lock_folder_succeeds_example :
    let after =
      lock_folder toy bincode
        (code_of rec)
        willing
        home
        (codes "secret")
        (codes "install")
        options
        true
        tape
        (record { now = record { disk = disk; records = [] }; passed = [] }) in
    (after.0 ≡ ok (codes "C:\\home.fvlt"))
    × (after.1.now.disk (codes "C:\\home.fvlt")
        ≡ some (a_file (record { bytes = (contents written).1; readonly = true })))
    × (after.1.now.disk (codes "C:\\home") ≡ none)
    × (after.1.now.disk (codes "C:\\home.fvlt.tmp") ≡ none)
    × (after.1.now.records ≡ [])
unfolding path_text file_name parent disk bytes_eq
lock_folder_succeeds_example =
    lock_folder_succeeds toy bincode (code_of rec) willing home (codes "C:" ∷ []) (codes "home")
      (codes "secret") (codes "install") options true tape disk tree found (contents written).0
      (contents written).1 (7 ∷ []) (λ c. refl) refl refl refl refl refl scanned written-ok refl

unlock_container-IsSafe_example :
    All
      (λ m.
        UnlockSteps.IsSafe
          (UnlockSafe.job toy bincode
            (code_of unlocking)
            willing
            (λ p. true)
            container
            (codes "C:" ∷ [])
            (codes "home")
            (password (codes "secret"))
            (codes "install")
            1000
            true
            locked
            locked_disk)
          (code_of unlocking)
          willing
          m
        × UnlockSteps.IsSafe
            (UnlockSafe.job toy bincode
              (code_of unlocking)
              willing
              (λ p. true)
              container
              (codes "C:" ∷ [])
              (codes "home")
              (password (codes "secret"))
              (codes "install")
              1000
              true
              locked
              locked_disk)
            (code_of unlocking)
            willing
            (recovered toy (λ p. true) (code_of unlocking) (codes "install") m))
      (unlock_container toy bincode
        (code_of unlocking)
        willing
        container
        (password (codes "secret"))
        (codes "install")
        1000
        true
        (record { now = record { disk = locked_disk; records = [] }; passed = [] })).1.passed
unfolding path_text file_name parent file_stem locked_disk bytes_eq
unlock_container-IsSafe_example =
    unlock_container-IsSafe toy bincode (code_of unlocking) willing (λ p. true) container
      (codes "C:" ∷ []) (codes "home") (password (codes "secret")) (codes "install") 1000 true
      locked locked_disk refl refl refl refl (code_of-IsReadBack unlocking)

-- A deletion with the right password, which the recycle bin takes or refuses.
abbrev locked_world : World
locked_world = record { now = record { disk = locked_disk; records = [] }; passed = [] }

abbrev no_bin : Os
no_bin = record willing { refuses = λ c. elim c [ remove_copy ↦ some denied | _ ↦ none ] }

abbrev opening : Result Opened × File
opening = open_and_authorize toy (password (codes "secret")) (codes "install") 1000 locked

abbrev fact :
    (header : Header) × (dk : SecretKey) × (open_and_authorize toy
        (password (codes "secret"))
        (codes "install")
        1000
        locked
      ≡ (
        ok (record { header = header; dk = dk; was_readonly = true }),
        record { bytes = (contents written).1; readonly = false },
      ))
    × (((made : List Made) × (restore toy bincode header dk container (contents written).1
            ≡ ok made)
          × AreMade home (files_at (some (a_folder tree))) container found.entries made)
        ↔ All (IsJoinable container) found.entries)
fact =
    restore-write_container toy toy-IsLawful bincode home (files_at (some (a_folder tree)))
      container found.entries 5 (codes "secret") (codes "install") options tape 1000 true
      (contents written).0 (contents written).1 written-ok (λ manifest serialized. refl)
      (omega arith) (omega arith)

abbrev opened : Opened
opened = record { header = fact.0; dk = fact.1; was_readonly = true }

opens : opening.0 ≡ ok opened
opens = ap (λ r. r.0) fact.2

verify_and_delete_refused_example :
    let after =
      verify_and_delete toy no_bin container
        (password (codes "secret"))
        (codes "install")
        1000
        locked_world in
    (after.0 ≡ err (io denied))
    × (after.1.now.disk (path_text container)
        ≡ some (a_file (record { bytes = opening.1.bytes; readonly = true })))
unfolding locked_disk path_text bytes_eq
verify_and_delete_refused_example =
    verify_and_delete_refused toy no_bin container (password (codes "secret")) (codes "install")
      1000 locked locked_world refl opened denied opens refl refl

verify_and_delete-authorized_example : (o : Opened) × (opening.0 ≡ ok o)
unfolding locked_disk path_text bytes_eq
verify_and_delete-authorized_example =
    verify_and_delete-authorized toy willing container (password (codes "secret")) (codes "install")
      1000 locked locked_world refl
      (deletes toy willing container (password (codes "secret")) (codes "install") 1000 locked
        locked_world refl opened opens refl refl).1

-- The folder comes back from the container.
abbrev staging : List Text
staging = codes "C:" ∷ codes "home.__restoring" ∷ []

abbrev the_entry : Entry
the_entry = file_entry (codes "x.txt") 5 100 false

shown_entry :
    (m : Made)
    → IsMade home (files_at (some (a_folder tree))) staging the_entry m
    → Shows (willing.shown (m ∷ [])) m
unfolding made_files
shown_entry (made_dir target) made = tt
shown_entry (made_file target content mtime readonly) made =
    rw (made_files, path_eq_refl target) refl

joinable : All (IsJoinable staging) found.entries
joinable = ((λ dir. absurd (cc dir)), tt)

shows :
    (made : List Made)
    → AreMade home (files_at (some (a_folder tree))) staging found.entries made
    → All (Shows (willing.shown made)) made
shows _ (made_next e m _ _ this all_made) = (shown_entry m this, tt)

unlock_container-lock_folder_example :
    let after =
      unlock_container toy bincode
        (code_of rec)
        willing
        container
        (password (codes "secret"))
        (codes "install")
        1000
        true
        locked_world in
    (made : List Made) × AreMade home (files_at (some (a_folder tree))) staging found.entries made
    × (after.0 ≡ ok (codes "C:\\home"))
    × (after.1.now.disk (codes "C:\\home") ≡ some (a_folder (willing.shown made)))
    × All (ComesBack home staging tree (willing.shown made)) found.entries
    × (after.1.now.disk (codes "C:\\home.fvlt") ≡ none)
    × (after.1.now.disk (codes "C:\\home.__restoring") ≡ none)
    × (after.1.now.records ≡ [])
unfolding path_text file_name parent disk locked_disk bytes_eq
unlock_container-lock_folder_example =
    unlock_container-lock_folder toy toy-IsLawful bincode (code_of rec) willing home
      (codes "C:" ∷ []) (codes "home") (codes "secret") (codes "install") options true tape disk
      tree found (contents written).0 (contents written).1 (7 ∷ []) (7 ∷ []) (λ c. refl) refl refl
      (λ same. cc) refl refl refl scanned written-ok refl refl (λ manifest serialized. refl)
      (omega arith) (omega arith) joinable shows locked_world 1000
      (sym
        (lock_folder_succeeds toy bincode (code_of rec) willing home (codes "C:" ∷ [])
          (codes "home") (codes "secret") (codes "install") options true tape disk tree found
          (contents written).0 (contents written).1 (7 ∷ []) (λ c. refl) refl refl refl refl refl
          scanned written-ok refl).1)
      refl refl refl
