-- ===== src/Folder/Unlocks.antt =====
-- unlock_container of format.rs when nothing is refused, from the container's own path.
use foldervault.Base.{
  ℕ, ◌≡◌, ◌≢◌, ◌∙◌, ap, Bool, List, [], ◌∷◌, ◌++◌, none, some, Bytes, Text, codes,
}
use foldervault.Vault.{ok}
use foldervault.Primitives.{Primitives, done}
use foldervault.Walk.{Entry}
use foldervault.Container.Authorize.{File, Credential, Opened, open_and_authorize}
use foldervault.Container.Payload.{Bincode, Made, extract_entries}
use foldervault.Container.Whole.{read_manifest}
use foldervault.Journal.{a_file, a_folder, Record, unlock, put}
use foldervault.Journal.Safety.{put-same, put-other}
use foldervault.Folder.{Moment, Os, RecordCode, OsCall, lift, see, change, or_else}
use foldervault.Folder.Names.{path_text, file_name, file_stem, parent, sibling}
use foldervault.Folder.Unlock.{
  authorize, authorize_item, bytes_at, rearm_at, restore_at, unlock_container,
}
use foldervault.Folder.Lock.{some_or}
use foldervault.Folder.Runs.{
  Runs, bind-Runs, given-Runs, or_else-Runs, lift-Runs, see-Runs, change-Runs,
}
use foldervault.Folder.Restores.{restore_at-Runs}

module _ (P : Primitives) (B : Bincode) (R : RecordCode) (os : Os)
    (willing : (c : OsCall) → os.refuses c ≡ none) (container up : List Text) (base : Text)
    (credential : Credential) (key : Bytes) (now_unix : ℕ) (f f' : File) (opened : Opened)
    (made : List Made) (record_bytes : Bytes) where
  abbrev name : Text
  name = base ++ codes ".fvlt"

  abbrev p : Text
  p = path_text container

  abbrev dest : Text
  dest = sibling up base

  abbrev tmpdir : List Text
  tmpdir = up ++ ((base ++ codes ".__restoring") ∷ [])

  abbrev rec : Record
  rec = record { op = unlock; folder = dest; container = p; staging = path_text tmpdir }

  abbrev Begun : Moment → Type 0
  Begun m =
      (m.disk p ≡ some (a_file f))
      × (m.disk dest ≡ none)
      × (m.disk (path_text tmpdir) ≡ none)
      × (m.records ≡ [])

  abbrev Open : Moment → Type 0
  Open m =
      (m.disk p ≡ some (a_file f'))
      × (m.disk dest ≡ none)
      × (m.disk (path_text tmpdir) ≡ none)
      × (m.records ≡ [])

  module _ (dest_p : p ≢ dest) (tmp_p : p ≢ path_text tmpdir)
      (opens : open_and_authorize P credential key now_unix f ≡ (ok opened, f')) where
    authorize_item-Runs :
        Runs Begun
          (authorize_item P os p credential key now_unix (some (a_file f)))
          (λ o m. Open m × (o ≡ opened))
    unfolding authorize_item
    authorize_item-Runs =
        rw (authorize_item, opens)
          (bind-Runs Begun (change (put p (some (a_file f')))) (λ u. Open) _ _
            (change-Runs Begun (put p (some (a_file f'))) Open (λ n (h, d, t, k). (
              put-same p _ n.disk,
              put-other p dest _ n.disk dest_p ∙ d,
              put-other p (path_text tmpdir) _ n.disk tmp_p ∙ t,
              k,
            )))
            (λ u. lift-Runs Open opened))

    authorize-Runs :
        Runs Begun (authorize P os p credential key now_unix) (λ o m. Open m × (o ≡ opened))
    unfolding authorize
    authorize-Runs =
        bind-Runs Begun (see (λ disk. disk p)) (λ i m. Begun m × (i ≡ some (a_file f)))
          (authorize_item P os p credential key now_unix) (λ o m. Open m × (o ≡ opened))
          (see-Runs Begun (λ disk. disk p) (some (a_file f)) (λ n h. h.0))
          (λ i.
            given-Runs Begun (authorize_item P os p credential key now_unix i) (i ≡ some (a_file f))
              (λ o m. Open m × (o ≡ opened)) (λ same. rw same authorize_item-Runs))

    module _ (entries : List Entry) (payload : Bytes) (named : file_name container ≡ some name)
        (above : parent container ≡ some up) (stem : file_stem name ≡ base)
        (apart : (path_text tmpdir ≢ dest) × (path_text tmpdir ≢ p) × (dest ≢ p))
        (read : read_manifest P B opened.header
            (record { key = opened.dk; uuid = opened.header.uuid })
            f'.bytes
          ≡ ok (entries, payload))
        (extracted : extract_entries P tmpdir
            (record { key = opened.dk; uuid = opened.header.uuid })
            entries
            0
            payload
          ≡ ok made)
        (code : R.serialize rec ≡ done record_bytes) where
      abbrev pub Restored : Text → Moment → Type 0
      Restored q m =
          (q ≡ dest)
          × ((m.disk dest ≡ some (a_folder (os.shown made)))
              × (m.disk (path_text tmpdir) ≡ none)
              × (m.records ≡ []))
          × (m.disk p ≡ none)

      read-Runs :
          (o : Opened) (b : Bytes)
          → o ≡ opened
          → b ≡ f'.bytes
          → Runs Open
              (or_else
                (lift (read_manifest P B o.header (record { key = o.dk; uuid = o.header.uuid }) b))
                (rearm_at os p o.was_readonly))
              (λ er m. Open m × (er ≡ (entries, payload)))
      read-Runs o b authorized same =
          rw (authorized, same, read)
            (or_else-Runs Open (lift (ok (entries, payload))) (rearm_at os p opened.was_readonly)
              (λ er m. Open m × (er ≡ (entries, payload))) (lift-Runs Open (entries, payload)))

      rest-Runs :
          (journal : Bool) (o : Opened) (er : List Entry × Bytes) (n : Text) (u : List Text)
          → o ≡ opened
          → er ≡ (entries, payload)
          → n ≡ name
          → u ≡ up
          → Runs Open
              (restore_at R os p
                (sibling u (file_stem n))
                (sibling u (file_stem n ++ codes ".__restoring"))
                o.was_readonly
                journal
                o.header.uuid
                (extract_entries P
                  (u ++ ((file_stem n ++ codes ".__restoring") ∷ []))
                  (record { key = o.dk; uuid = o.header.uuid })
                  er.0
                  0
                  er.1))
              Restored
      rest-Runs journal o er n u authorized decoded n_same u_same =
          rw (authorized, decoded, n_same, u_same, stem, extracted)
            (restore_at-Runs R os willing p dest (path_text tmpdir) f' made record_bytes apart.0
              apart.1 apart.2 code opened.was_readonly journal opened.header.uuid)

      pub unlock_container-Runs :
          (journal : Bool)
          → Runs Begun
              (unlock_container P B R os container credential key now_unix journal)
              Restored
      unfolding unlock_container bytes_at
      unlock_container-Runs journal =
          bind-Runs Begun (authorize P os p credential key now_unix) (λ o m. Open m × (o ≡ opened))
            _ _ authorize-Runs
            (λ o. given-Runs Open _ (o ≡ opened) _ (λ authorized.
              bind-Runs Open (see (λ disk. bytes_at (disk p))) (λ b m. Open m × (b ≡ f'.bytes)) _ _
                (see-Runs Open (λ disk. bytes_at (disk p)) f'.bytes (λ n h. ap bytes_at h.0))
                (λ b. given-Runs Open _ (b ≡ f'.bytes) _ (λ same.
                  bind-Runs Open
                    (or_else
                      (lift (
                        read_manifest P B o.header (record { key = o.dk; uuid = o.header.uuid }) b))
                      (rearm_at os p o.was_readonly))
                    (λ er m. Open m × (er ≡ (entries, payload))) _ _ (read-Runs o b authorized same)
                    (λ er. given-Runs Open _ (er ≡ (entries, payload)) _ (λ decoded.
                      bind-Runs Open (some_or (file_name container) (codes "container has no name"))
                        (λ n m. Open m × (n ≡ name)) _ _ (rw named (lift-Runs Open name))
                        (λ n. given-Runs Open _ (n ≡ name) _ (λ n_same.
                          bind-Runs Open
                            (some_or (parent container) (codes "container has no parent"))
                            (λ u m. Open m × (u ≡ up)) _ _ (rw above (lift-Runs Open up))
                            (λ u. given-Runs Open _ (u ≡ up) _ (λ u_same.
                              rest-Runs journal o er n u authorized decoded n_same u_same))))))))))
