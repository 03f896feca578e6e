-- ===== src/Folder/UnlockCrash.antt =====
-- unlock_container of format.rs, step by step: the container and the folder at every moment.
use foldervault.Base.{◌≡◌, refl, Bool, true, false, Bytes}
use foldervault.Vault.{exists_already, ok, err}
use foldervault.Journal.{exists}
use foldervault.Journal.Safety.{exists-none}
use foldervault.Folder.{
  Moment, Os, RecordCode, raise, attempt, ◌>>◌, when, see, ask, delete_folder, send_away, rename,
  guard, begin_if, complete_if, create_staging, discard_staging, clear_stale, guard_container,
}
use foldervault.Folder.Unlock.{rearm_at, unpack, commit_unlock, restore_at}
use foldervault.Folder.Triple.{
  Does, Keeps, Anything, bind-Does, attempt-Does, or_else-Does, lift-Does, see-Does, ask-Does,
  when-Keeps, weaken-Does, forget-Does,
}
use foldervault.Folder.Calls.{delete_folder-Keeps, send_away-Keeps}
use foldervault.Folder.Records.{IsReadBack, complete_if-Keeps, begin_if-Keeps}
use foldervault.Folder.UnlockSteps.{
  Unlocking, record_of, IsApart, IsUnopened, IsKept, IsRestored, IsUnpacked, IsSafe, kept, restored,
  IsKept-IsStable, IsRestored-IsStable, IsRestored-known, IsUnpacked-known, rearm-Unopened,
  rearm-Kept, clear-Restored, unpack-Does, rename_staging-Does,
}

module _ (j : Unlocking) (apart : IsApart j) (R : RecordCode) (os : Os)
    (code : IsReadBack R (record_of j)) where
  abbrev S : Moment → Type 0
  S = IsSafe j R os

  commit-Does :
      (journal : Bool) (uuid : Bytes)
      → Does S
          (IsUnpacked j R os)
          (commit_unlock R os j.container j.dest j.tmp journal uuid)
          (λ p. IsRestored j R os)
          Anything
  unfolding commit_unlock
  commit-Does journal uuid =
      let U = IsUnpacked j R os in
      let I = IsRestored j R os in
      let safe : (m : Moment) → I m → S m = λ m h. restored h in
      bind-Does S U (begin_if os R journal uuid (record_of j)) Anything (λ n. U) _ _
        (forget-Does S U U _ _ (
          begin_if-Keeps S U os R (record_of j) code (λ m h. h.kept.known)
            (IsUnpacked-known j apart R os) (λ m h. kept h.kept) journal uuid))
        (λ name.
          bind-Does S U (rename os j.tmp j.dest) Anything (λ u. I) _ _
            (rename_staging-Does j apart R os)
            (λ u.
              bind-Does S I (attempt (guard os guard_container j.container false)) Anything (λ u. I)
                _ _ (forget-Does S I I _ _ (clear-Restored j apart R os))
                (λ u.
                  bind-Does S I (send_away os j.container) Anything (λ u. I) _ _
                    (forget-Does S I I _ _
                      (send_away-Keeps S I os j.container (IsRestored-IsStable j apart R os) safe))
                    (λ u.
                      bind-Does S I (complete_if os R name) Anything (λ u. I) _ _
                        (forget-Does S I I _ _ (
                          complete_if-Keeps S I os R (record_of j) code (λ m h. h.known)
                            (IsRestored-known j apart R os) safe name))
                        (λ u. lift-Does S I Anything (ok j.dest) (λ p. I) (λ m h. h))))))

  absent-Does :
      (there was_readonly : Bool)
      → Does S
          (λ m. IsUnopened j m × (exists m.disk j.dest ≡ there))
          (when there (rearm_at os j.container was_readonly >> raise (exists_already j.dest)))
          (λ u. IsKept j R)
          Anything
  absent-Does true was_readonly =
      bind-Does S (λ m. IsUnopened j m × (exists m.disk j.dest ≡ true))
        (rearm_at os j.container was_readonly) Anything (λ u. Anything) _ _
        (weaken-Does S (IsUnopened j) _ (IsUnopened j) Anything _ (λ u. IsUnopened j)
          (λ u. Anything) (λ m h. h.0) (λ u m h. tt) (λ m h. tt)
          (rearm-Unopened j apart R os was_readonly))
        (λ u.
          lift-Does S Anything Anything (err (exists_already j.dest)) (λ u. IsKept j R) (λ m h. tt))
  absent-Does false was_readonly =
      lift-Does S _ Anything (ok tt) (λ u. IsKept j R)
        (λ m h. record {
          readonly = h.0.readonly;
          there = h.0.there;
          absent = exists-none j.dest m.disk h.1;
          known = rw h.0.idle tt;
        })

  pub restore_at-Does :
      (was_readonly journal : Bool) (uuid : Bytes)
      → Does S
          (IsUnopened j)
          (restore_at R os j.container j.dest j.tmp was_readonly journal uuid j.restored)
          (λ p. IsRestored j R os)
          Anything
  unfolding restore_at
  restore_at-Does was_readonly journal uuid =
      let I = IsKept j R in
      let cleared : (c : _) → Keeps S I (delete_folder os c j.tmp) =
        delete_folder-Keeps S I os j.tmp (IsKept-IsStable j apart R os) (λ m h. kept h) in
      bind-Does S (IsUnopened j) (see (λ disk. exists disk j.dest)) Anything
        (λ there m. IsUnopened j m × (exists m.disk j.dest ≡ there)) _ _
        (see-Does S (IsUnopened j) Anything (λ disk. exists disk j.dest) _ (λ m h. (h, refl)))
        (λ there.
          bind-Does S _
            (when there (rearm_at os j.container was_readonly >> raise (exists_already j.dest)))
            Anything (λ u. I) _ _ (absent-Does there was_readonly)
            (λ u.
              bind-Does S I (see (λ disk. exists disk j.tmp)) Anything (λ b. I) _ _
                (see-Does S I Anything _ _ (λ m h. h))
                (λ stale.
                  bind-Does S I (when stale (delete_folder os clear_stale j.tmp)) Anything (λ u. I)
                    _ _ (forget-Does S I I _ _ (when-Keeps S I stale _ (cleared clear_stale)))
                    (λ u.
                      bind-Does S I (ask os create_staging) Anything (λ u. I) _ _
                        (ask-Does S I Anything os create_staging (λ m h. tt))
                        (λ u.
                          bind-Does S I _ Anything (λ u. IsUnpacked j R os) _ _
                            (or_else-Does S I (unpack os j.tmp j.restored) Anything
                              (λ u. IsUnpacked j R os) I _ (unpack-Does j apart R os)
                              (bind-Does S I (attempt (delete_folder os discard_staging j.tmp))
                                Anything (λ u. I) _ _
                                (attempt-Does S I _ Anything I (cleared discard_staging))
                                (λ u.
                                  weaken-Does S I I I Anything _ (λ u. I) (λ u. Anything) (λ m h. h)
                                    (λ u m h. tt) (λ m h. tt)
                                    (rearm-Kept j apart R os was_readonly))))
                            (λ u. commit-Does journal uuid))))))
