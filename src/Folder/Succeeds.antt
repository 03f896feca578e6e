-- ===== src/Folder/Succeeds.antt =====
-- What follows the names in lock_folder of format.rs, when the operating system refuses nothing.
use foldervault.Base.{
  ◌≡◌, ◌≢◌, refl, sym, ◌∙◌, ap, Bool, true, false, List, [], Option, none, some, Bytes, Text,
}
use foldervault.Vault.{ok, exists_already}
use foldervault.Primitives.{Primitives, done}
use foldervault.Random.{Rng}
use foldervault.Walk.{Entry, FolderScan, scan}
use foldervault.Container.Authorize.{set_readonly}
use foldervault.Container.Payload.{Bincode, LockOptions}
use foldervault.Container.Whole.{write_container}
use foldervault.Journal.{
  Item, a_file, a_folder, Tree, Record, lock, exists, put, guarded, guard_path,
}
use foldervault.Journal.Safety.{put-same, put-other}
use foldervault.Folder.{
  Moment, Records, Os, RecordCode, OsCall, Action, ◌>>◌, see, lift, pure, when, attempt, or_else,
  raise, delete_file, rename, guard, begin_if, complete_if, discard_staging, clear_stale,
  guard_container,
}
use foldervault.Folder.Names.{path_text}
use foldervault.Folder.Lock.{fresh_file, stage, remove_source, files_at, node_at, lock_at}
use foldervault.Folder.Success.{
  remove_source-Runs, stage-Runs, records_of, begin_if-Runs, complete_if-Runs,
}
use foldervault.Folder.Calls.{IsStable}
use foldervault.Folder.Runs.{
  Runs, pure-Runs, skip-Runs, weaken-Runs, bind-Runs, given-Runs, or_else-Runs, attempt-Runs,
  lift-Runs, see-Runs, rename-Runs, guard-Runs,
}

module _ (P : Primitives) (B : Bincode) (R : RecordCode) (os : Os)
    (willing : (c : OsCall) → os.refuses c ≡ none) (src : List Text) (dest tmp : Text)
    (password key : Bytes) (opts : LockOptions) (r : Rng) (t : Tree) (found : FolderScan)
    (uuid bytes record_bytes : Bytes) where
  abbrev p : Text
  p = path_text src

  abbrev rec : Record
  rec = record { op = lock; folder = p; container = dest; staging = tmp }

  module _ (tmp_src : tmp ≢ p) (tmp_dest : tmp ≢ dest) (src_dest : p ≢ dest)
      (scanned : scan src t.listing ≡ ok found)
      (made : write_container P B src
          (files_at (some (a_folder t)))
          found.entries
          found.total_bytes
          password
          key
          opts
          r
        ≡ ok (uuid, bytes))
      (code : R.serialize rec ≡ done record_bytes) where
    abbrev the_file : Bool → Option Item
    the_file flag = some (a_file (record { bytes = bytes; readonly = flag }))

    abbrev Staged : Moment → Type 0
    Staged m = (m.disk p ≡ some (a_folder t)) × (m.disk tmp ≡ fresh_file bytes)

    -- All but the folder, behind the rename.
    abbrev Placed : Bool → Records → Moment → Type 0
    Placed flag records m =
        (m.disk dest ≡ the_file flag) × (m.disk tmp ≡ none) × (m.records ≡ records)

    Placed-IsStable : (flag : Bool) (records : Records) → IsStable (Placed flag records) p
    Placed-IsStable flag records m i (d, s, k) = (
      put-other p dest i m.disk src_dest ∙ d,
      put-other p tmp i m.disk (λ same. tmp_src (sym same)) ∙ s,
      k,
    )

    abbrev Locked : Bool → Records → Moment → Type 0
    Locked flag records m = Placed flag records m × (m.disk p ≡ none)

    moved :
        (records : Records) (m : Moment)
        → Staged m × (m.records ≡ records)
        → let m' : Moment = record m { disk = put dest (the_file false) (put tmp none m.disk) } in
          Placed false records m' × (m'.disk p ≡ some (a_folder t))
    moved records m ((s, g), k) = (
      (
        put-same dest _ _,
        put-other dest tmp _ _ (λ same. tmp_dest (sym same)) ∙ put-same tmp none m.disk,
        k,
      ),
      put-other dest p _ _ (λ same. src_dest (sym same)) ∙ put-other tmp p none m.disk tmp_src ∙ s,
    )

    guarded-Locked :
        (records : Records) (m : Moment)
        → Locked false records m
        → Locked true records (record m { disk = guard_path dest true m.disk })
    unfolding guard_path guarded set_readonly
    guarded-Locked records m ((d, s, k), g) = (
      (
        put-same dest _ m.disk ∙ ap (guarded true) d,
        put-other dest tmp _ m.disk (λ same. tmp_dest (sym same)) ∙ s,
        k,
      ),
      put-other dest p _ m.disk (λ same. src_dest (sym same)) ∙ g,
    )

    guarding-Runs :
        (flag : Bool) (records : Records)
        → Runs
            (Locked false records)
            (when flag (attempt (guard os guard_container dest true)))
            (λ u. Locked flag records)
    guarding-Runs true records = attempt-Runs (Locked false records) _ (Locked true records) (
        guard-Runs os willing (Locked false records) (Locked true records) guard_container dest true
          (guarded-Locked records))
    guarding-Runs false records = pure-Runs (Locked false records) tt _ (λ n h. h)

    commit-Runs :
        (name : Option Text) (entries : List Entry)
        → Runs
            (λ m. Staged m × (m.records ≡ records_of record_bytes name))
            (do
              rename os tmp dest
              remove_source os opts src entries
              when opts.readonly_container (attempt (guard os guard_container dest true))
              complete_if os R name
              pure dest)
            (λ q m. (q ≡ dest) × Locked opts.readonly_container [] m)
    commit-Runs name entries =
        let k = records_of record_bytes name in
        let flag = opts.readonly_container in
        let L : Moment → Type 0 =
          λ m. (m.disk dest ≡ the_file flag) × (m.disk tmp ≡ none) × (m.disk p ≡ none) in
        bind-Runs (λ m. Staged m × (m.records ≡ k)) (rename os tmp dest)
          (λ u m. Placed false k m × (m.disk p ≡ some (a_folder t))) _ _
          (rename-Runs os willing _ _ tmp dest (a_file (record { bytes = bytes; readonly = false }))
            (λ m h. h.0.1) (moved k))
          (λ u.
            bind-Runs (λ m. Placed false k m × (m.disk p ≡ some (a_folder t)))
              (remove_source os opts src entries) (λ u. Locked false k) _ _
              (remove_source-Runs os willing (Placed false k) opts src entries t
                (Placed-IsStable false k))
              (λ u.
                bind-Runs (Locked false k)
                  (when flag (attempt (guard os guard_container dest true))) (λ u. Locked flag k) _
                  _ (guarding-Runs flag k)
                  (λ u.
                    bind-Runs (Locked flag k) (complete_if os R name) (λ u. Locked flag []) _ _
                      (weaken-Runs (λ m. L m × (m.records ≡ k)) (Locked flag k) _
                        (λ u m. L m × (m.records ≡ [])) (λ u. Locked flag [])
                        (λ n ((d, s, k), g). ((d, s, g), k)) (λ u n ((d, s, g), k). ((d, s, k), g))
                        (complete_if-Runs os willing R rec record_bytes code L (λ m records h. h)
                          name))
                      (λ u. pure-Runs (Locked flag []) dest _ (λ n h. (refl, h))))))

    abbrev Ready : Moment → Type 0
    Ready m =
        (m.disk p ≡ some (a_folder t))
        × (m.disk dest ≡ none)
        × (m.disk tmp ≡ none)
        × (m.records ≡ [])

    -- The folder is there, and nothing is under way.
    abbrev Idle : Moment → Type 0
    Idle m = (m.disk p ≡ some (a_folder t)) × (m.records ≡ [])

    Idle-IsStable : IsStable Idle tmp
    Idle-IsStable m i (s, k) = (put-other tmp p i m.disk tmp_src ∙ s, k)

    scan-Runs :
        (item : Option Item)
        → item ≡ some (a_folder t)
        → Runs Idle (lift (scan src (node_at item))) (λ f m. Idle m × (f ≡ found))
    unfolding node_at
    scan-Runs item same = rw (same, node_at, scanned) (lift-Runs Idle found)

    Staged-Runs :
        (item : Option Item) (f : FolderScan) (cleanup : Action (Unit {0}))
        → item ≡ some (a_folder t)
        → f ≡ found
        → Runs Idle
            (or_else
              (stage os tmp (
                write_container P B src
                  (files_at item)
                  f.entries
                  f.total_bytes
                  password
                  key
                  opts
                  r))
              cleanup)
            (λ u m. Staged m × (m.records ≡ []))
    Staged-Runs item f cleanup same seen =
        rw (same, seen, made)
          (or_else-Runs Idle _ cleanup (λ u m. Staged m × (m.records ≡ []))
            (weaken-Runs Idle Idle _ (λ u m. Idle m × (m.disk tmp ≡ fresh_file bytes)) _ (λ n h. h)
              (λ u n ((s, k), g). ((s, g), k))
              (stage-Runs os willing Idle tmp uuid bytes Idle-IsStable)))

    pub lock_at-Runs :
        (journal : Bool)
        → Runs Ready
            (lock_at P B R os src dest tmp password key opts journal r)
            (λ q m. (q ≡ dest) × Locked opts.readonly_container [] m)
    unfolding lock_at exists
    lock_at-Runs journal =
        let With : Records → Moment → Type 0 = λ k m. Staged m × (m.records ≡ k) in
        bind-Runs Ready (see (λ disk. exists disk dest)) (λ b m. Ready m × (b ≡ false)) _ _
          (see-Runs Ready (λ disk. exists disk dest) false (λ n h. rw (exists, h.1) refl))
          (λ there. given-Runs Ready _ (there ≡ false) _ (λ absent.
            bind-Runs Ready (when there (raise (exists_already dest))) (λ u. Ready) _ _
              (skip-Runs Ready there _ absent)
              (λ u.
                bind-Runs Ready (see (λ disk. exists disk tmp)) (λ b m. Ready m × (b ≡ false)) _ _
                  (see-Runs Ready (λ disk. exists disk tmp) false (λ n h. rw (exists, h.2) refl))
                  (λ stale. given-Runs Ready _ (stale ≡ false) _ (λ fresh.
                    bind-Runs Ready (when stale (delete_file os clear_stale tmp)) (λ u. Idle) _ _
                      (weaken-Runs Ready Ready _ (λ u. Ready) (λ u. Idle) (λ n h. h)
                        (λ u n h. (h.0, h.3)) (skip-Runs Ready stale _ fresh))
                      (λ u.
                        bind-Runs Idle (see (λ disk. disk p))
                          (λ i m. Idle m × (i ≡ some (a_folder t))) _ _
                          (see-Runs Idle (λ disk. disk p) (some (a_folder t)) (λ n h. h.0))
                          (λ item. given-Runs Idle _ (item ≡ some (a_folder t)) _ (λ same.
                            bind-Runs Idle (lift (scan src (node_at item)))
                              (λ f m. Idle m × (f ≡ found)) _ _ (scan-Runs item same)
                              (λ f. given-Runs Idle _ (f ≡ found) _ (λ seen.
                                bind-Runs Idle _ (λ u. With []) _ _
                                  (Staged-Runs item f (attempt (delete_file os discard_staging tmp))
                                    same seen)
                                  (λ id.
                                    bind-Runs (With []) (begin_if os R journal id rec)
                                      (λ n. With (records_of record_bytes n)) _ _
                                      (begin_if-Runs os willing R rec record_bytes code Staged
                                        (λ m records h. h) journal id)
                                      (λ name. commit-Runs name f.entries))))))))))))
