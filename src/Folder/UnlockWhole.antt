-- ===== src/Folder/UnlockWhole.antt =====
-- The whole of unlock_container of format.rs, as a triple.
use foldervault.Base.{
  ℕ, ◌≡◌, refl, sym, ◌∙◌, ap, Bool, List, [], ◌∷◌, ◌++◌, Option, none, some, Bytes, Text, codes,
}
use foldervault.Vault.{other, Result, ok, err}
use foldervault.Primitives.{Primitives}
use foldervault.Walk.{Entry}
use foldervault.Container.Authorize.{File, Credential, Opened, open_and_authorize}
use foldervault.Container.Payload.{Bincode, Made, extract_entries}
use foldervault.Container.Whole.{read_manifest, restore}
use foldervault.Journal.{Item, a_file, put}
use foldervault.Journal.Safety.{put-same}
use foldervault.Folder.{Moment, Os, RecordCode, lift, see, change}
use foldervault.Folder.Names.{path_text, file_name, file_stem, parent, sibling}
use foldervault.Folder.Unlock.{authorize, authorize_item, bytes_at, restore_at, unlock_container}
use foldervault.Folder.Lock.{some_or}
use foldervault.Folder.Triple.{
  Does, Anything, bind-Does, or_else-Does, change-Does, lift-Does, result-Does, see-Does,
  weaken-Does, given-Does,
}
use foldervault.Folder.Records.{IsReadBack}
use foldervault.Folder.UnlockSteps.{
  Unlocking, record_of, IsApart, IsUnopened, IsRestored, IsSafe, unopened, rearm-Unopened,
}
use foldervault.Folder.UnlockCrash.{restore_at-Does}

-- What `restore` makes of an opened container.
unfoldable pub restored_by :
    Primitives → Bincode → List Text → Bytes → Result Opened → Result (List Made)
unfolding restore
restored_by P B tmpdir bytes (err e) = err e
restored_by P B tmpdir bytes (ok opened) = restore P B opened.header opened.dk tmpdir bytes

module _ (P : Primitives) (B : Bincode) (R : RecordCode) (os : Os) (container up : List Text)
    (name base : Text) (credential : Credential) (key : Bytes) (now_unix : ℕ) (f : File) where
  abbrev pub opening : Result Opened × File
  opening = open_and_authorize P credential key now_unix f

  abbrev pub tmpdir : List Text
  tmpdir = up ++ ((base ++ codes ".__restoring") ∷ [])

  -- The unlock of a container.
  abbrev pub unlocking : Unlocking
  unlocking = record {
    container = path_text container;
    dest = sibling up base;
    tmp = path_text tmpdir;
    bytes = opening.1.bytes;
    restored = restored_by P B tmpdir opening.1.bytes opening.0;
  }

  abbrev S : Moment → Type 0
  S = IsSafe unlocking R os

  abbrev Begun : Moment → Type 0
  Begun m = (m.disk (path_text container) ≡ some (a_file f)) × (m.records ≡ [])

  authorize_item-Does :
      (i : Option Item)
      → i ≡ some (a_file f)
      → Does S Begun
          (authorize_item P os (path_text container) credential key now_unix i)
          (λ opened m. IsUnopened unlocking m × (opening.0 ≡ ok opened))
          Anything
  unfolding authorize_item
  authorize_item-Does i same =
      let after : (m : Moment)
          → Begun m
          → IsUnopened unlocking
              (record m { disk = put (path_text container) (some (a_file opening.1)) m.disk }) =
        λ m h. record {
          readonly = opening.1.readonly;
          there = put-same (path_text container) _ m.disk;
          idle = h.1;
        } in
      rw (same, authorize_item)
        (bind-Does S Begun (change (put (path_text container) (some (a_file opening.1)))) Anything
          (λ u. IsUnopened unlocking) _ _
          (change-Does S Begun Anything (put (path_text container) (some (a_file opening.1)))
            (IsUnopened unlocking) (λ m h. unopened (after m h)) after)
          (λ u. result-Does S (IsUnopened unlocking) Anything opening.0 (λ m h. tt)))

  authorize-Does :
      Does S Begun
        (authorize P os (path_text container) credential key now_unix)
        (λ opened m. IsUnopened unlocking m × (opening.0 ≡ ok opened))
        Anything
  unfolding authorize
  authorize-Does =
      bind-Does S Begun (see (λ disk. disk (path_text container))) Anything
        (λ i m. Begun m × (i ≡ some (a_file f))) _ _
        (see-Does S Begun Anything (λ disk. disk (path_text container)) _ (λ m h. (h, h.0)))
        (λ i. given-Does S Begun Anything (i ≡ some (a_file f)) _ _ (authorize_item-Does i))

  some_or-Does :
      {A : Type 0} (pre : Moment → Type 0) (o : Option A) (message : Text)
      → Does S pre (some_or o message) (λ a m. pre m × (o ≡ some a)) Anything
  some_or-Does pre none message = lift-Does S pre Anything (err (other message)) _ (λ m h. tt)
  some_or-Does pre (some a) message = lift-Does S pre Anything (ok a) _ (λ m h. (h, refl))

  abbrev U : Moment → Type 0
  U = IsUnopened unlocking

  module _ (apart : IsApart unlocking) (code : IsReadBack R (record_of unlocking)) (journal : Bool)
      (named : file_name container ≡ some name) (above : parent container ≡ some up)
      (stem : file_stem name ≡ base) where
    -- Once the names are known.
    rest-Does :
        (opened : Opened) (er : List Entry × Bytes) (name' : Text) (up' : List Text)
        → opening.0 ≡ ok opened
        → read_manifest P B opened.header
            (record { key = opened.dk; uuid = opened.header.uuid })
            opening.1.bytes
          ≡ ok er
        → name' ≡ name
        → up' ≡ up
        → Does S U
            (restore_at R os
              (path_text container)
              (sibling up' (file_stem name'))
              (sibling up' (file_stem name' ++ codes ".__restoring"))
              opened.was_readonly
              journal
              opened.header.uuid
              (extract_entries P
                (up' ++ ((file_stem name' ++ codes ".__restoring") ∷ []))
                (record { key = opened.dk; uuid = opened.header.uuid })
                er.0
                0
                er.1))
            (λ p. IsRestored unlocking R os)
            Anything
    unfolding restored_by restore
    rest-Does opened er name' up' authorized read n u =
        let whole : unlocking.restored
            ≡ extract_entries P tmpdir (record { key = opened.dk; uuid = opened.header.uuid }) er.0
                0 er.1 =
          rw (restored_by, authorized, restore, read) refl in
        rw (n, u, stem, sym whole)
          (restore_at-Does unlocking apart R os code opened.was_readonly journal opened.header.uuid)

    pub unlock_container-Does :
        Does S Begun
          (unlock_container P B R os container credential key now_unix journal)
          (λ p. IsRestored unlocking R os)
          Anything
    unfolding unlock_container bytes_at
    unlock_container-Does =
        bind-Does S Begun (authorize P os (path_text container) credential key now_unix) Anything
          (λ opened m. U m × (opening.0 ≡ ok opened)) _ _ authorize-Does
          (λ opened. given-Does S U Anything (opening.0 ≡ ok opened) _ _ (λ authorized.
            bind-Does S U (see (λ disk. bytes_at (disk (path_text container)))) Anything
              (λ b m. U m × (b ≡ opening.1.bytes)) _ _
              (see-Does S U Anything (λ disk. bytes_at (disk (path_text container))) _
                (λ m h. (h, ap bytes_at h.there)))
              (λ b. given-Does S U Anything (b ≡ opening.1.bytes) _ _ (λ same.
                bind-Does S U _ Anything
                  (λ er m.
                    U m
                    × (read_manifest P B opened.header
                          (record { key = opened.dk; uuid = opened.header.uuid }) b
                        ≡ ok er))
                  _ _
                  (or_else-Does S U
                    (lift (
                      read_manifest P B opened.header
                        (record { key = opened.dk; uuid = opened.header.uuid }) b))
                    Anything _ U _ (result-Does S U U _ (λ m h. h))
                    (weaken-Does S U U U Anything _ (λ u. U) (λ u. Anything) (λ m h. h)
                      (λ u m h. tt) (λ m h. tt)
                      (rearm-Unopened unlocking apart R os opened.was_readonly)))
                  (λ er. given-Does S U Anything _ _ _ (λ read.
                    bind-Does S U (some_or (file_name container) (codes "container has no name"))
                      Anything (λ n m. U m × (file_name container ≡ some n)) _ _
                      (some_or-Does U _ _)
                      (λ n. given-Does S U Anything (file_name container ≡ some n) _ _ (λ named'.
                        bind-Does S U (some_or (parent container) (codes "container has no parent"))
                          Anything (λ n m. U m × (parent container ≡ some n)) _ _
                          (some_or-Does U _ _)
                          (λ up'.
                            given-Does S U Anything (parent container ≡ some up') _ _ (λ above'.
                              let n' : n ≡ name = cc in
                              let u' : up' ≡ up = cc in
                              rest-Does opened er n up' authorized
                                (ap
                                    (read_manifest P B opened.header
                                      (record { key = opened.dk; uuid = opened.header.uuid }))
                                    (sym same)
                                  ∙ read)
                                n' u'))))))))))
