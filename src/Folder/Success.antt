-- ===== src/Folder/Success.antt =====
-- The calls of lock_folder of format.rs and of the journal, when the operating system refuses nothing.
use foldervault.Base.{
  ◌≡◌, refl, ◌∙◌, ap, Bool, true, false, List, [], ◌∷◌, ◌++◌, Option, none, some, Bytes, Text,
  codes, bytes_eq_refl, take, Bool-cases, inl, inr,
}
use foldervault.Vault.{ok}
use foldervault.Primitives.{done}
use foldervault.Walk.{Entry}
use foldervault.Container.Payload.{LockOptions}
use foldervault.Journal.{a_folder, Tree, Record, put}
use foldervault.Journal.Safety.{put-same}
use foldervault.Folder.{
  Moment, Records, Os, RecordCode, OsCall, see, change, ask, note, delete_folder, begin, begin_if,
  complete, complete_if, put_record, drop_record, hex, create_record, write_record, forget_record,
  create_staging, write_staging, remove_copy,
}
use foldervault.Folder.Names.{path_text}
use foldervault.Folder.Lock.{fresh_file, stage, wipe_item, wipe_folder, remove_source}
use foldervault.Folder.Wipe.{wipe_tree}
use foldervault.Folder.Calls.{IsStable}
use foldervault.Folder.Runs.{
  Runs, bind-Runs, given-Runs, attempt-Runs, pure-Runs, see-Runs, change-Runs, note-Runs, ask-Runs,
  delete_folder-Runs, send_away-Runs,
}

-- The journal with this record, or without one.
abbrev pub records_of : Bytes → Option Text → Records
records_of bytes none = []
records_of bytes (some name) = (name, bytes) ∷ []

module _ (os : Os) (willing : (c : OsCall) → os.refuses c ≡ none) where
  -- Whichever way, the folder is removed, and nothing else is touched.
  pub remove_source-Runs :
      (I : Moment → Type 0) (opts : LockOptions) (src : List Text) (entries : List Entry) (t : Tree)
      → IsStable I (path_text src)
      → Runs
          (λ m. I m × (m.disk (path_text src) ≡ some (a_folder t)))
          (remove_source os opts src entries)
          (λ u m. I m × (m.disk (path_text src) ≡ none))
  unfolding remove_source wipe_folder wipe_item
  remove_source-Runs I opts src entries t stable =
      let p = path_text src in
      let wiped : Tree = record t { files = wipe_tree os src entries t.files } in
      let Full : Moment → Type 0 = λ m. I m × (m.disk p ≡ some (a_folder t)) in
      elim (Bool-cases opts.secure_delete) [
        | inl wipe ↦
            rw (remove_source, wipe)
              (bind-Runs Full (wipe_folder os src entries)
                (λ u m. I m × (m.disk p ≡ some (a_folder wiped)))
                (λ u. delete_folder os remove_copy p) _
                (bind-Runs Full (see (λ disk. disk p)) (λ i m. Full m × (i ≡ some (a_folder t))) _ _
                  (see-Runs Full (λ disk. disk p) (some (a_folder t)) (λ n h. h.1))
                  (λ i.
                    given-Runs Full (wipe_item os src entries i) (i ≡ some (a_folder t)) _ (λ same.
                      rw (same, wipe_item)
                        (change-Runs Full (put p (some (a_folder wiped))) _
                          (λ n h. (stable n _ h.0, put-same p _ n.disk))))))
                (λ u. delete_folder-Runs os willing I p stable wiped remove_copy))
        | inr plain ↦ elim (Bool-cases opts.recycle_original) [
          | inl bin ↦
              rw (remove_source, plain, bin) (send_away-Runs os willing I p stable (a_folder t))
          | inr gone ↦
              rw (remove_source, plain, gone)
                (delete_folder-Runs os willing I p stable t remove_copy)
        ]
      ]

  -- The container is staged.
  pub stage-Runs :
      (I : Moment → Type 0) (tmp : Text) (uuid bytes : Bytes)
      → IsStable I tmp
      → Runs I (stage os tmp (ok (uuid, bytes))) (λ u m. I m × (m.disk tmp ≡ fresh_file bytes))
  unfolding stage
  stage-Runs I tmp uuid bytes stable =
      bind-Runs I (ask os create_staging) (λ u. I) _ _ (ask-Runs os willing I create_staging)
        (λ u.
          bind-Runs I (change (put tmp (fresh_file os.partial))) (λ u. I) _ _
            (change-Runs I _ I (λ n h. stable n _ h))
            (λ u.
              bind-Runs I (ask os write_staging) (λ u. I) _ _ (ask-Runs os willing I write_staging)
                (λ u.
                  bind-Runs I (change (put tmp (fresh_file bytes)))
                    (λ u m. I m × (m.disk tmp ≡ fresh_file bytes)) _ _
                    (change-Runs I _ _ (λ n h. (stable n _ h, put-same tmp _ n.disk)))
                    (λ u. pure-Runs _ uuid _ (λ n h. h)))))

  replaced_record :
      (name : Text) (a b : Bytes) → put_record name b ((name, a) ∷ []) ≡ (name, b) ∷ []
  unfolding drop_record
  replaced_record name a b = rw (drop_record, bytes_eq_refl) refl

  module _ (R : RecordCode) (rec : Record) (bytes : Bytes) (code : R.serialize rec ≡ done bytes)
      (I : Moment → Type 0)
      (free : (m : Moment) (records : Records) → I m → I (record m { records = records })) where
    abbrev With : Records → Moment → Type 0
    With records m = I m × (m.records ≡ records)

    note_to :
        (f : Records → Records) (from to : Records)
        → f from ≡ to
        → Runs (With from) (note f) (λ u. With to)
    note_to f from to h = note-Runs (With from) f (With to) (λ n g. (free n _ g.0, ap f g.1 ∙ h))

    begin-Runs :
        (uuid : Bytes) → Runs (With []) (begin os R uuid rec) (λ name. With ((name, bytes) ∷ []))
    unfolding begin drop_record
    begin-Runs uuid =
        let name = hex uuid ++ codes ".jrec" in
        let held : Bytes → Moment → Type 0 = λ b. With ((name, b) ∷ []) in
        rw (begin, code)
          (bind-Runs (With []) (ask os create_record) (λ u. With []) _ _
            (ask-Runs os willing (With []) create_record)
            (λ u.
              bind-Runs (With []) (note (put_record name [])) (λ u. held []) _ _
                (note_to _ _ _ refl)
                (λ u.
                  bind-Runs (held []) (note (put_record name (take os.written bytes)))
                    (λ u. held (take os.written bytes)) _ _
                    (note_to _ _ _ (replaced_record name _ _))
                    (λ u.
                      bind-Runs (held (take os.written bytes)) (ask os write_record)
                        (λ u. held (take os.written bytes)) _ _ (ask-Runs os willing _ write_record)
                        (λ u.
                          bind-Runs (held (take os.written bytes)) (note (put_record name bytes))
                            (λ u. held bytes) _ _ (note_to _ _ _ (replaced_record name _ _))
                            (λ u. pure-Runs (held bytes) name _ (λ n h. h)))))))

    pub begin_if-Runs :
        (journal : Bool) (uuid : Bytes)
        → Runs (With []) (begin_if os R journal uuid rec) (λ name. With (records_of bytes name))
    unfolding begin_if
    begin_if-Runs false uuid = pure-Runs (With []) none _ (λ n h. h)
    begin_if-Runs true uuid =
        bind-Runs (With []) (begin os R uuid rec) (λ name. With ((name, bytes) ∷ [])) _ _
          (begin-Runs uuid) (λ name. pure-Runs (With ((name, bytes) ∷ [])) (some name) _ (λ n h. h))

    pub complete_if-Runs :
        (name : Option Text)
        → Runs (With (records_of bytes name)) (complete_if os R name) (λ u. With [])
    unfolding complete_if complete drop_record
    complete_if-Runs none = pure-Runs (With []) tt _ (λ n h. h)
    complete_if-Runs (some name) = attempt-Runs (With ((name, bytes) ∷ [])) _ (With []) (
        bind-Runs (With ((name, bytes) ∷ [])) (ask os forget_record)
          (λ u. With ((name, bytes) ∷ [])) _ _ (ask-Runs os willing _ forget_record)
          (λ u. note_to (drop_record name) _ [] (rw (drop_record, bytes_eq_refl) refl)))
