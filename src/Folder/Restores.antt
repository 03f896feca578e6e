-- ===== src/Folder/Restores.antt =====
-- The end of unlock_container of format.rs when the operating system refuses nothing.
use foldervault.Base.{
  ◌≡◌, ◌≢◌, refl, sym, ◌∙◌, ap, Bool, false, List, [], Option, none, some, Bytes, Text,
}
use foldervault.Vault.{ok, exists_already}
use foldervault.Primitives.{done}
use foldervault.Container.Authorize.{File, set_readonly}
use foldervault.Container.Payload.{Made}
use foldervault.Journal.{Item, a_file, a_folder, Record, unlock, exists, put, guarded, guard_path}
use foldervault.Journal.Safety.{put-same, put-other}
use foldervault.Folder.{
  Moment, Records, Os, RecordCode, OsCall, ◌>>◌, see, change, ask, when, attempt, raise,
  delete_folder, send_away, rename, guard, begin_if, complete_if, create_staging, write_staging,
  discard_staging, clear_stale, guard_container,
}
use foldervault.Folder.Unlock.{rearm_at, unpack, commit_unlock, restore_at}
use foldervault.Folder.Success.{records_of, begin_if-Runs, complete_if-Runs}
use foldervault.Folder.Calls.{IsStable}
use foldervault.Folder.Runs.{
  Runs, pure-Runs, skip-Runs, weaken-Runs, bind-Runs, given-Runs, or_else-Runs, attempt-Runs,
  see-Runs, change-Runs, ask-Runs, rename-Runs, guard-Runs, send_away-Runs,
}

module _ (R : RecordCode) (os : Os) (willing : (c : OsCall) → os.refuses c ≡ none)
    (container dest tmp : Text) (f : File) (made : List Made) (record_bytes : Bytes) where
  abbrev rec : Record
  rec = record { op = unlock; folder = dest; container = container; staging = tmp }

  abbrev whole : Option Item
  whole = some (a_folder (os.shown made))

  module _ (tmp_dest : tmp ≢ dest) (tmp_container : tmp ≢ container)
      (dest_container : dest ≢ container) (code : R.serialize rec ≡ done record_bytes) where
    abbrev Held : Moment → Type 0
    Held m = m.disk container ≡ some (a_file f)

    abbrev Staged : Moment → Type 0
    Staged m = Held m × (m.disk tmp ≡ whole)

    -- All but the container, behind the rename.
    abbrev Placed : Records → Moment → Type 0
    Placed records m = (m.disk dest ≡ whole) × (m.disk tmp ≡ none) × (m.records ≡ records)

    Placed-IsStable : (records : Records) → IsStable (Placed records) container
    Placed-IsStable records m i (d, s, k) = (
      put-other container dest i m.disk (λ same. dest_container (sym same)) ∙ d,
      put-other container tmp i m.disk (λ same. tmp_container (sym same)) ∙ s,
      k,
    )

    moved :
        (records : Records) (m : Moment)
        → Staged m × (m.records ≡ records)
        → let m' : Moment = record m { disk = put dest whole (put tmp none m.disk) } in
          Placed records m' × Held m'
    moved records m ((h, s), k) = (
      (
        put-same dest _ _,
        put-other dest tmp _ _ (λ same. tmp_dest (sym same)) ∙ put-same tmp none m.disk,
        k,
      ),
      put-other dest container _ _ dest_container
          ∙ put-other tmp container none m.disk tmp_container
          ∙ h,
    )

    cleared :
        (records : Records) (m : Moment)
        → Placed records m × Held m
        → let m' : Moment = record m { disk = guard_path container false m.disk } in
          Placed records m' × (m'.disk container ≡ some (a_file (set_readonly false f)))
    unfolding guard_path guarded set_readonly
    cleared records m (p, h) =
        (Placed-IsStable records m _ p, put-same container _ m.disk ∙ ap (guarded false) h)

    commit-Runs :
        (journal : Bool) (uuid : Bytes)
        → Runs
            (λ m. Staged m × (m.records ≡ []))
            (commit_unlock R os container dest tmp journal uuid)
            (λ q m. (q ≡ dest) × Placed [] m × (m.disk container ≡ none))
    unfolding commit_unlock
    commit-Runs journal uuid =
        let Gone : Records → Moment → Type 0 = λ k m. Placed k m × (m.disk container ≡ none) in
        let Left : Moment → Type 0 =
          λ m. (m.disk dest ≡ whole) × (m.disk tmp ≡ none) × (m.disk container ≡ none) in
        bind-Runs (λ m. Staged m × (m.records ≡ [])) (begin_if os R journal uuid rec)
          (λ n m. Staged m × (m.records ≡ records_of record_bytes n)) _ _
          (begin_if-Runs os willing R rec record_bytes code Staged (λ m records h. h) journal uuid)
          (λ name.
            let k = records_of record_bytes name in
            bind-Runs (λ m. Staged m × (m.records ≡ k)) (rename os tmp dest)
              (λ u m. Placed k m × Held m) _ _
              (rename-Runs os willing _ _ tmp dest (a_folder (os.shown made)) (λ m h. h.0.1)
                (moved k))
              (λ u.
                bind-Runs (λ m. Placed k m × Held m)
                  (attempt (guard os guard_container container false))
                  (λ u m. Placed k m × (m.disk container ≡ some (a_file (set_readonly false f)))) _
                  _
                  (attempt-Runs _ _ _
                    (guard-Runs os willing _ _ guard_container container false (cleared k)))
                  (λ u.
                    bind-Runs
                      (λ m. Placed k m × (m.disk container ≡ some (a_file (set_readonly false f))))
                      (send_away os container) (λ u. Gone k) _ _
                      (send_away-Runs os willing (Placed k) container (Placed-IsStable k) _)
                      (λ u.
                        bind-Runs (Gone k) (complete_if os R name) (λ u. Gone []) _ _
                          (weaken-Runs (λ m. Left m × (m.records ≡ k)) (Gone k) _
                            (λ u m. Left m × (m.records ≡ [])) (λ u. Gone [])
                            (λ n ((d, s, k), g). ((d, s, g), k))
                            (λ u n ((d, s, g), k). ((d, s, k), g))
                            (complete_if-Runs os willing R rec record_bytes code Left
                              (λ m records h. h) name))
                          (λ u. pure-Runs (Gone []) dest _ (λ n h. (refl, h.0, h.1)))))))

    -- The container is open, and nothing is under way.
    abbrev Idle : Moment → Type 0
    Idle m = Held m × (m.records ≡ [])

    Idle-IsStable : IsStable Idle tmp
    Idle-IsStable m i (h, k) = (put-other tmp container i m.disk tmp_container ∙ h, k)

    unpack-Runs : Runs Idle (unpack os tmp (ok made)) (λ u m. Staged m × (m.records ≡ []))
    unfolding unpack
    unpack-Runs =
        bind-Runs Idle (change (put tmp (some (a_folder (os.half (os.shown [])))))) (λ u. Idle) _ _
          (change-Runs Idle _ Idle (λ n h. Idle-IsStable n _ h))
          (λ u.
            bind-Runs Idle (ask os write_staging) (λ u. Idle) _ _
              (ask-Runs os willing Idle write_staging)
              (λ u. change-Runs Idle (put tmp whole) _ (λ n h.
                let (held, k) = Idle-IsStable n whole h in ((held, put-same tmp whole n.disk), k))))

    abbrev pub Ready : Moment → Type 0
    Ready m = Held m × (m.disk dest ≡ none) × (m.disk tmp ≡ none) × (m.records ≡ [])

    pub restore_at-Runs :
        (was_readonly journal : Bool) (uuid : Bytes)
        → Runs Ready
            (restore_at R os container dest tmp was_readonly journal uuid (ok made))
            (λ q m. (q ≡ dest) × Placed [] m × (m.disk container ≡ none))
    unfolding restore_at exists
    restore_at-Runs was_readonly journal uuid =
        bind-Runs Ready (see (λ disk. exists disk dest)) (λ b m. Ready m × (b ≡ false)) _ _
          (see-Runs Ready (λ disk. exists disk dest) false (λ n h. rw (exists, h.1) refl))
          (λ there. given-Runs Ready _ (there ≡ false) _ (λ absent.
            bind-Runs Ready
              (when there (rearm_at os container was_readonly >> raise (exists_already dest)))
              (λ u. Ready) _ _ (skip-Runs Ready there _ absent)
              (λ u.
                bind-Runs Ready (see (λ disk. exists disk tmp)) (λ b m. Ready m × (b ≡ false)) _ _
                  (see-Runs Ready (λ disk. exists disk tmp) false (λ n h. rw (exists, h.2) refl))
                  (λ stale. given-Runs Ready _ (stale ≡ false) _ (λ fresh.
                    bind-Runs Ready (when stale (delete_folder os clear_stale tmp)) (λ u. Idle) _ _
                      (weaken-Runs Ready Ready _ (λ u. Ready) (λ u. Idle) (λ n h. h)
                        (λ u n h. (h.0, h.3)) (skip-Runs Ready stale _ fresh))
                      (λ u.
                        bind-Runs Idle (ask os create_staging) (λ u. Idle) _ _
                          (ask-Runs os willing Idle create_staging)
                          (λ u.
                            bind-Runs Idle _ (λ u m. Staged m × (m.records ≡ [])) _ _
                              (or_else-Runs Idle (unpack os tmp (ok made))
                                (attempt (delete_folder os discard_staging tmp)
                                  >> rearm_at os container was_readonly)
                                _ unpack-Runs)
                              (λ u. commit-Runs journal uuid))))))))
