-- ===== src/Folder/Unlock.antt =====
-- format.rs, `unlock_container` and `verify_and_delete`.
use foldervault.Base.{
  ℕ, Bool, true, false, List, [], ◌∷◌, ◌++◌, Option, none, some, Bytes, Text, codes,
}
use foldervault.Vault.{not_found, denied, io, exists_already, Result}
use foldervault.Primitives.{Primitives}
use foldervault.Crypto.{ChunkCipher}
use foldervault.Container.Authorize.{Credential, Opened, open_and_authorize}
use foldervault.Container.Payload.{Bincode, Made, extract_entries}
use foldervault.Container.Whole.{read_manifest}
use foldervault.Journal.{Item, a_file, a_folder, unlock, exists, put}
use foldervault.Folder.{
  Os, RecordCode, Action, pure, raise, lift, attempt, ◌>>=◌, ◌>>◌, or_else, when, see, change, ask,
  delete_folder, send_away, rename, guard, begin_if, complete_if, create_staging, write_staging,
  discard_staging, clear_stale, guard_container, rearm_container,
}
use foldervault.Folder.Names.{file_name, file_stem, parent, path_text, sibling}
use foldervault.Folder.Lock.{some_or}

module _ (os : Os) where
  -- The closure `rearm` of `unlock_container`.
  unfoldable pub rearm_at : Text → Bool → Action (Unit {0})
  unfolding guard
  rearm_at container was_readonly =
      when was_readonly (attempt (guard os rearm_container container true))

module _ (P : Primitives) (os : Os) where
  -- The prologue on what stands at the path.
  unfoldable pub authorize_item : Text → Credential → Bytes → ℕ → Option Item → Action Opened
  unfolding change put open_and_authorize
  authorize_item container credential hmac_key now_unix none = raise (io not_found)
  authorize_item container credential hmac_key now_unix (some (a_folder t)) = raise (io denied)
  authorize_item container credential hmac_key now_unix (some (a_file f)) = do
    let r = open_and_authorize P credential hmac_key now_unix f
    change (put container (some (a_file r.1)))
    lift r.0

  unfoldable pub authorize : Text → Credential → Bytes → ℕ → Action Opened
  unfolding authorize_item
  authorize container credential hmac_key now_unix =
      see (λ disk. disk container) >>= authorize_item container credential hmac_key now_unix

  -- `verify_and_delete`
  unfoldable pub verify_and_delete : List Text → Credential → Bytes → ℕ → Action (Unit {0})
  unfolding authorize guard send_away rearm_at path_text
  verify_and_delete container credential hmac_key now_unix = do
    opened ← authorize (path_text container) credential hmac_key now_unix
    attempt (guard os guard_container (path_text container) false)
    or_else (send_away os (path_text container))
        (rearm_at os (path_text container) opened.was_readonly)

-- What the open file holds.
unfoldable pub bytes_at : Option Item → Bytes
bytes_at (some (a_file f)) = f.bytes
bytes_at _ = []

module _ (os : Os) where
  -- The staging folder: new, half made, and then with all that was extracted into it.
  unfoldable pub unpack : Text → Result (List Made) → Action (Unit {0})
  unfolding change put ask
  unpack tmpdir extracted = do
    change (put tmpdir (some (a_folder (os.half (os.shown [])))))
    ask os write_staging
    made ← lift extracted
    change (put tmpdir (some (a_folder (os.shown made))))

module _ (R : RecordCode) (os : Os) where
  -- The end of `unlock_container`: the journal, the rename, and the removal of the container.
  unfoldable pub commit_unlock : Text → Text → Text → Bool → Bytes → Action Text
  unfolding begin_if rename guard send_away complete_if
  commit_unlock container dest tmpdir journal uuid = do
    name ←
        begin_if os R journal uuid
          (record { op = unlock; folder = dest; container = container; staging = tmpdir })
    rename os tmpdir dest
    attempt (guard os guard_container container false)
    send_away os container
    complete_if os R name
    pure dest

  -- What follows the check of the manifest, with the path of the folder and of its staging.
  unfoldable pub restore_at :
      Text → Text → Text → Bool → Bool → Bytes → Result (List Made) → Action Text
  unfolding delete_folder ask change put exists rearm_at unpack commit_unlock
  restore_at container dest tmpdir was_readonly journal uuid extracted = do
    there ← see (λ disk. exists disk dest)
    when there (rearm_at os container was_readonly >> raise (exists_already dest))
    stale ← see (λ disk. exists disk tmpdir)
    when stale (delete_folder os clear_stale tmpdir)
    ask os create_staging
    or_else (unpack os tmpdir extracted)
        (do attempt (delete_folder os discard_staging tmpdir); rearm_at os container was_readonly)
    commit_unlock container dest tmpdir journal uuid

module _ (P : Primitives) (B : Bincode) (R : RecordCode) (os : Os) where
  -- `unlock_container`
  unfoldable pub unlock_container : List Text → Credential → Bytes → ℕ → Bool → Action Text
  unfolding authorize rearm_at read_manifest file_name file_stem parent path_text restore_at
  unlock_container container credential hmac_key now_unix journal = do
    opened ← authorize P os (path_text container) credential hmac_key now_unix
    bytes ← see (λ disk. bytes_at (disk (path_text container)))
    let c : ChunkCipher = record { key = opened.dk; uuid = opened.header.uuid }
    (entries, r) ←
        or_else (lift (read_manifest P B opened.header c bytes))
          (rearm_at os (path_text container) opened.was_readonly)
    name ← some_or (file_name container) (codes "container has no name")
    up ← some_or (parent container) (codes "container has no parent")
    let stem = file_stem name
    let staging = stem ++ codes ".__restoring"
    restore_at R os (path_text container) (sibling up stem) (sibling up staging) opened.was_readonly
        journal opened.header.uuid (extract_entries P (up ++ (staging ∷ [])) c entries 0 r)
