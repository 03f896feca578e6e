-- ===== src/Folder/LockCrash.antt =====
-- lock_folder of format.rs, step by step: the folder and its container at every moment.
use foldervault.Base.{
  ◌≡◌, refl, Bool, true, false, List, Option, none, some, Bytes, Text, inl, inr, Bool-cases,
}
use foldervault.Vault.{exists_already, ok, err}
use foldervault.Primitives.{Primitives}
use foldervault.Random.{Rng}
use foldervault.Walk.{Entry, FolderScan, scan}
use foldervault.Container.Payload.{Bincode, LockOptions}
use foldervault.Container.Whole.{write_container}
use foldervault.Journal.{Item, a_file, a_folder, Disk, exists}
use foldervault.Journal.Safety.{exists-none}
use foldervault.Folder.{
  Moment, Os, RecordCode, pure, raise, lift, attempt, ◌>>=◌, ◌>>◌, or_else, when, see, delete_file,
  delete_folder, rename, guard, begin_if, complete_if, discard_staging, clear_stale, remove_copy,
  guard_container,
}
use foldervault.Folder.Names.{path_text}
use foldervault.Folder.Lock.{
  wipe_item, node_at, files_at, stage, wipe_folder, remove_source, lock_at,
}
use foldervault.Folder.Triple.{
  Does, Keeps, bind-Does, attempt-Does, or_else-Does, lift-Does, result-Does, see-Does, when-Keeps,
  forget-Does, given-Does, Anything,
}
use foldervault.Folder.Calls.{
  IsStable, put-Keeps, delete_file-Keeps, delete_folder-Keeps, send_away-Keeps,
}
use foldervault.Folder.Records.{IsKnown, IsReadBack, complete_if-Keeps, begin_if-Keeps}
use foldervault.Folder.LockSteps.{
  Locking, record_of, IsApart, IsWhole, IsStored, IsStaged, IsSafe, IsWhole-IsStable,
  IsStored-IsStable, stage-Does, rename_staging-Does, guard-Keeps,
}

module _ (S I : Moment → Type 0) (os : Os) (src : List Text) (stable : IsStable I (path_text src))
    (safe : (m : Moment) → I m → S m) where
  wipe_item-Keeps :
      (entries : List Entry) (i : Option Item) → Keeps S I (wipe_item os src entries i)
  unfolding wipe_item
  wipe_item-Keeps entries none = lift-Does S I I (ok tt) (λ u. I) (λ m h. h)
  wipe_item-Keeps entries (some (a_file f)) = lift-Does S I I (ok tt) (λ u. I) (λ m h. h)
  wipe_item-Keeps entries (some (a_folder t)) = put-Keeps S I os (path_text src) stable safe _

  wipe_folder-Keeps : (entries : List Entry) → Keeps S I (wipe_folder os src entries)
  unfolding wipe_folder
  wipe_folder-Keeps entries =
      bind-Does S I (see (λ disk. disk (path_text src))) I (λ i. I) _ (λ u. I)
        (see-Does S I I (λ disk. disk (path_text src)) (λ i. I) (λ m h. h))
        (wipe_item-Keeps entries)

  remove_source-Keeps :
      (opts : LockOptions) (entries : List Entry) → Keeps S I (remove_source os opts src entries)
  unfolding remove_source
  remove_source-Keeps opts entries = elim (Bool-cases opts.secure_delete) [
    | inl wipe ↦
        rw (remove_source, wipe)
          (bind-Does S I (wipe_folder os src entries) I (λ u. I)
            (λ u. delete_folder os remove_copy (path_text src)) (λ u. I) (wipe_folder-Keeps entries)
            (λ u. delete_folder-Keeps S I os (path_text src) stable safe remove_copy))
    | inr plain ↦ elim (Bool-cases opts.recycle_original) [
      | inl bin ↦
          rw (remove_source, plain, bin) (send_away-Keeps S I os (path_text src) stable safe)
      | inr gone ↦
          rw (remove_source, plain, gone)
            (delete_folder-Keeps S I os (path_text src) stable safe remove_copy)
    ]
  ]

module _ (P : Primitives) (B : Bincode) (R : RecordCode) (os : Os) where
  module _ (src : List Text) (dest tmp : Text) (password hmac_key : Bytes) (opts : LockOptions)
      (r : Rng) (before : Disk) where
    abbrev pub locking : Locking
    locking = record {
      src = path_text src;
      dest = dest;
      tmp = tmp;
      before = before;
      scanned = scan src (node_at (before (path_text src)));
      made = λ found.
          write_container P B src (files_at (before (path_text src))) found.entries
            found.total_bytes password hmac_key opts r;
    }

    module _ (apart : IsApart locking) (code : IsReadBack R (record_of locking)) where
      abbrev S : Moment → Type 0
      S = IsSafe locking R

      Stored-known :
          (m : Moment) (records : _)
          → IsKnown R (record_of locking) records
          → IsStored locking R m
          → IsStored locking R (record m { records = records })
      Stored-known m records known h = record {
        bytes = h.bytes;
        readonly = h.readonly;
        complete = h.complete;
        there = h.there;
        known = known;
      }

      Staged-known :
          (m : Moment) (records : _)
          → IsKnown R (record_of locking) records
          → IsStaged locking R m
          → IsStaged locking R (record m { records = records })
      Staged-known m records known h = record {
        whole = record { kept = h.whole.kept; absent = h.whole.absent; known = known };
        bytes = h.bytes;
        complete = h.complete;
        staged = h.staged;
      }

      -- From the rename on.
      commit-Does :
          (name : Option Text) (entries : List Entry)
          → Does
              (S)
              (IsStaged locking R)
              (do
                rename os tmp dest
                remove_source os opts src entries
                when opts.readonly_container (attempt (guard os guard_container dest true))
                complete_if os R name
                pure dest)
              (λ p. IsStored locking R)
              Anything
      commit-Does name entries =
          let I = IsStored locking R in
          let safe : (m : Moment) → I m → S m = λ m h. inr h in
          let guarding =
            when opts.readonly_container (attempt (guard os guard_container dest true)) in
          bind-Does S (IsStaged locking R) (rename os tmp dest) Anything (λ u. I) _ _
            (forget-Does S _ _ _ _ (rename_staging-Does locking apart R os))
            (λ u.
              bind-Does S I (remove_source os opts src entries) Anything (λ u. I) _ _
                (forget-Does S I I _ _ (
                  remove_source-Keeps S I os src (IsStored-IsStable locking apart R) safe opts
                    entries))
                (λ u.
                  bind-Does S I guarding Anything (λ u. I) _ _
                    (forget-Does S I I guarding _ (
                      when-Keeps S I opts.readonly_container _
                        (attempt-Does S I _ I I (guard-Keeps locking apart R os true))))
                    (λ u.
                      bind-Does S I (complete_if os R name) Anything (λ u. I) _ _
                        (forget-Does S I I _ _ (
                          complete_if-Keeps S I os R (record_of locking) code (λ m h. h.known)
                            Stored-known safe name))
                        (λ u. lift-Does S I Anything (ok dest) (λ p. I) (λ m h. h)))))

      abbrev Begun : Moment → Type 0
      Begun m =
          (m.disk (path_text src) ≡ before (path_text src))
          × IsKnown R (record_of locking) m.records

      absent-Does :
          (there : Bool)
          → Does
              (S)
              (λ m. Begun m × (exists m.disk dest ≡ there))
              (when there (raise (exists_already dest)))
              (λ u. IsWhole locking R)
              Anything
      absent-Does true = lift-Does S _ Anything (err _) (λ u. IsWhole locking R) (λ m h. tt)
      absent-Does false =
          lift-Does S _ Anything (ok tt) (λ u. IsWhole locking R)
            (λ m h. record { kept = h.0.0; absent = exists-none dest m.disk h.1; known = h.0.1 })

      staged-Does :
          (journal : Bool) (found : FolderScan)
          → scan src (node_at (before (path_text src))) ≡ ok found
          → Does
              (S)
              (IsWhole locking R)
              (do
                uuid ←
                    or_else
                      (stage os tmp (
                        write_container P B src
                          (files_at (before (path_text src)))
                          found.entries
                          found.total_bytes
                          password
                          hmac_key
                          opts
                          r))
                      (attempt (delete_file os discard_staging tmp))
                name ← begin_if os R journal uuid (record_of locking)
                rename os tmp dest
                remove_source os opts src found.entries
                when opts.readonly_container (attempt (guard os guard_container dest true))
                complete_if os R name
                pure dest)
              (λ p. IsStored locking R)
              Anything
      staged-Does journal found seen =
          let I = IsWhole locking R in
          let J = IsStaged locking R in
          bind-Does S I _ Anything (λ uuid. J) _ _
            (forget-Does S I I _ _ (
              or_else-Does S I (stage os tmp (locking.made found)) I (λ uuid. J) I _
                (stage-Does locking apart R os (locking.made found) found seen refl)
                (attempt-Does S I _ I I (
                  delete_file-Keeps S I os tmp (IsWhole-IsStable locking apart R) (λ m h. inl h)
                    discard_staging))))
            (λ uuid.
              bind-Does S J (begin_if os R journal uuid (record_of locking)) Anything (λ n. J) _ _
                (forget-Does S J J _ _ (
                  begin_if-Keeps S J os R (record_of locking) code (λ m h. h.whole.known)
                    Staged-known (λ m h. inl h.whole) journal uuid))
                (λ name. commit-Does name found.entries))

      scanned-Does :
          (journal : Bool) (item : Option Item)
          → item ≡ before (path_text src)
          → Does S
              (IsWhole locking R)
              (do
                found ← lift (scan src (node_at item))
                uuid ←
                    or_else
                      (stage os tmp (
                        write_container P B src
                          (files_at item)
                          found.entries
                          found.total_bytes
                          password
                          hmac_key
                          opts
                          r))
                      (attempt (delete_file os discard_staging tmp))
                name ← begin_if os R journal uuid (record_of locking)
                rename os tmp dest
                remove_source os opts src found.entries
                when opts.readonly_container (attempt (guard os guard_container dest true))
                complete_if os R name
                pure dest)
              (λ p. IsStored locking R)
              Anything
      scanned-Does journal item same =
          let I = IsWhole locking R in
          rw same (
            bind-Does S I (lift locking.scanned) Anything
              (λ found m. I m × (locking.scanned ≡ ok found)) _ _
              (result-Does S I Anything locking.scanned (λ m h. tt))
              (λ found. given-Does S I Anything _ _ _ (staged-Does journal found)))

      pub lock_at-Does :
          (journal : Bool)
          → Does
              (S)
              Begun
              (lock_at P B R os src dest tmp password hmac_key opts journal r)
              (λ p. IsStored locking R)
              Anything
      unfolding lock_at
      lock_at-Does journal =
          let I = IsWhole locking R in
          bind-Does S Begun (see (λ disk. exists disk dest)) Anything
            (λ there m. Begun m × (exists m.disk dest ≡ there)) _ _
            (see-Does S Begun Anything (λ disk. exists disk dest) _ (λ m h. (h, refl)))
            (λ there.
              bind-Does S _ (when there (raise (exists_already dest))) Anything (λ u. I) _ _
                (absent-Does there)
                (λ u.
                  bind-Does S I (see (λ disk. exists disk tmp)) Anything (λ b. I) _ _
                    (see-Does S I Anything _ _ (λ m h. h))
                    (λ stale.
                      bind-Does S I (when stale (delete_file os clear_stale tmp)) Anything (λ u. I)
                        _ _
                        (forget-Does S I I _ _ (
                          when-Keeps S I stale _ (
                            delete_file-Keeps S I os tmp (IsWhole-IsStable locking apart R)
                              (λ m h. inl h) clear_stale)))
                        (λ u.
                          bind-Does S I (see (λ disk. disk (path_text src))) Anything
                            (λ item m. I m × (item ≡ before (path_text src))) _ _
                            (see-Does S I Anything _ _ (λ m h. (h, h.kept)))
                            (λ item.
                              given-Does S I Anything (item ≡ before (path_text src)) _ _
                                (scanned-Does journal item))))))
