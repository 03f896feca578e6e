-- ===== src/Folder/Calls.antt =====
-- The calls of the operating system in format.rs, on what does not speak of their path.
use foldervault.Base.{◌≡◌, refl, Bool, Option, none, some, Text}
use foldervault.Vault.{VaultError, not_found, denied, io, err}
use foldervault.Journal.{Item, a_file, a_folder, put, guard_path}
use foldervault.Folder.{
  Moment, Os, Action, OsCall, ask, change, see, ◌>>=◌, raise, delete_file_item, delete_file,
  delete_folder_item, delete_folder, send_item, send_away, guard, rename, rename_item,
  rename_staging, ◌>>◌, remove_copy,
}
use foldervault.Folder.Triple.{Does, Keeps, bind-Does, change-Does, lift-Does, see-Does, ask-Does}

-- Whatever is put at the path.
abbrev pub IsStable : (Moment → Type 0) → Text → Type 0
IsStable I p = (m : Moment) (i : Option Item) → I m → I (record m { disk = put p i m.disk })

module _ (Safe I : Moment → Type 0) (os : Os) (p : Text) (stable : IsStable I p)
    (safe : (m : Moment) → I m → Safe m) where
  pub put-Keeps : (i : Option Item) → Keeps Safe I (change (put p i))
  put-Keeps i =
      change-Does Safe I I (put p i) I (λ m h. safe _ (stable m i h)) (λ m h. stable m i h)

  ask-Keeps : (c : OsCall) → Keeps Safe I (ask os c)
  ask-Keeps c = ask-Does Safe I I os c (λ m h. h)

  raise-Keeps : (e : VaultError) → Keeps Safe I (raise {A = Unit {0}} e)
  raise-Keeps e = lift-Does Safe I I (err e) (λ u. I) (λ m h. h)

  ask-put-Keeps : (c : OsCall) → Keeps Safe I (ask os c >> change (put p none))
  ask-put-Keeps c =
      bind-Does Safe I (ask os c) I (λ u. I) _ (λ u. I) (ask-Keeps c) (λ u. put-Keeps none)

  delete_file_item-Keeps : (c : OsCall) (i : Option Item) → Keeps Safe I (delete_file_item os c p i)
  unfolding delete_file_item
  delete_file_item-Keeps c none = raise-Keeps (io not_found)
  delete_file_item-Keeps c (some (a_folder t)) = raise-Keeps (io denied)
  delete_file_item-Keeps c (some (a_file f)) = ask-put-Keeps c

  delete_folder_item-Keeps :
      (c : OsCall) (i : Option Item) → Keeps Safe I (delete_folder_item os c p i)
  unfolding delete_folder_item
  delete_folder_item-Keeps c none = raise-Keeps (io not_found)
  delete_folder_item-Keeps c (some (a_file f)) = raise-Keeps (io denied)
  delete_folder_item-Keeps c (some (a_folder t)) =
      bind-Does Safe I (change (put p (some (a_folder (os.half t))))) I (λ u. I) _ (λ u. I)
        (put-Keeps _) (λ u. ask-put-Keeps c)

  send_item-Keeps : (i : Option Item) → Keeps Safe I (send_item os p i)
  unfolding send_item
  send_item-Keeps none = raise-Keeps (io not_found)
  send_item-Keeps (some i) =
      bind-Does Safe I (ask os remove_copy) I (λ u. I) _ (λ u. I) (ask-Keeps remove_copy)
        (λ u. put-Keeps none)

  seen-Keeps :
      (f : Option Item → Action (Unit {0}))
      → ((i : Option Item) → Keeps Safe I (f i))
      → Keeps Safe I (see (λ disk. disk p) >>= f)
  seen-Keeps f kept =
      bind-Does Safe I (see (λ disk. disk p)) I (λ i. I) f (λ u. I)
        (see-Does Safe I I (λ disk. disk p) (λ i. I) (λ m h. h)) kept

  pub delete_file-Keeps : (c : OsCall) → Keeps Safe I (delete_file os c p)
  unfolding delete_file
  delete_file-Keeps c = seen-Keeps _ (delete_file_item-Keeps c)

  pub delete_folder-Keeps : (c : OsCall) → Keeps Safe I (delete_folder os c p)
  unfolding delete_folder
  delete_folder-Keeps c = seen-Keeps _ (delete_folder_item-Keeps c)

  pub send_away-Keeps : Keeps Safe I (send_away os p)
  unfolding send_away
  send_away-Keeps = seen-Keeps _ send_item-Keeps

module _ (Safe pre post : Moment → Type 0) (os : Os) (safe : (m : Moment) → post m → Safe m) where
  -- A rename of what is there.
  pub rename-Does :
      (failing : Moment → Type 0) (from to : Text)
      → ((m : Moment) → pre m → failing m)
      → ((i : Item) (m : Moment)
          → pre m
          → m.disk from ≡ some i
          → post (record m { disk = put to (some i) (put from none m.disk) }))
      → Does Safe pre (rename os from to) (λ u. post) failing
  unfolding rename rename_item
  rename-Does failing from to lost moved =
      bind-Does Safe pre (see (λ disk. disk from)) failing (λ i m. pre m × (m.disk from ≡ i)) _
        (λ u. post) (see-Does Safe pre failing (λ disk. disk from) _ (λ m h. (h, refl))) item
    where
      item :
          (i : Option Item)
          → Does Safe
              (λ m. pre m × (m.disk from ≡ i))
              (rename_item os from to i)
              (λ u. post)
              failing
      item none = lift-Does Safe _ failing (err _) (λ u. post) (λ m h. lost m h.0)
      item (some i) =
          bind-Does Safe _ (ask os rename_staging) failing (λ u m. pre m × (m.disk from ≡ some i)) _
            (λ u. post) (ask-Does Safe _ failing os rename_staging (λ m h. lost m h.0))
            (λ u.
              change-Does Safe _ failing _ post (λ m h. safe _ (moved i m h.0 h.1))
                (λ m h. moved i m h.0 h.1))

  -- A change of the read-only flag.
  pub guard-Does :
      (c : OsCall) (p : Text) (flag : Bool)
      → ((m : Moment) → pre m → post m)
      → ((m : Moment) → pre m → post (record m { disk = guard_path p flag m.disk }))
      → Does Safe pre (guard os c p flag) (λ u. post) post
  unfolding guard
  guard-Does c p flag before after =
      bind-Does Safe pre (ask os c) post (λ u. pre) _ (λ u. post)
        (ask-Does Safe pre post os c before)
        (λ u. change-Does Safe pre post (guard_path p flag) post (λ m h. safe _ (after m h)) after)
