-- ===== src/Folder/Delete.antt =====
-- format.rs, `verify_and_delete`: what becomes of the container.
use foldervault.Base.{
  ℕ, ◌≡◌, refl, sym, ◌∙◌, List, none, some, Bytes, Text, bytes_eq_refl, inl, inr, Bool-cases,
  Option-cases, ap, Bool, false,
}
use foldervault.Vault.{VaultError, IoError, io, Result, ok, err, Result-cases}
use foldervault.Primitives.{Primitives}
use foldervault.Container.Authorize.{File, Credential, Opened, open_and_authorize, set_readonly}
use foldervault.Container.Flags.{open_and_authorize-readonly}
use foldervault.Journal.{a_file, put, guarded, guard_path}
use foldervault.Folder.{
  World, Os, ask, change, reach, guard, send_away, send_item, remove_copy, guard_container,
  rearm_container,
}
use foldervault.Folder.Names.{path_text}
use foldervault.Folder.Unlock.{authorize, authorize_item, rearm_at, verify_and_delete}

module _ (P : Primitives) (os : Os) (container : List Text) (credential : Credential) (key : Bytes)
    (now_unix : ℕ) (f : File) (w : World)
    (there : w.now.disk (path_text container) ≡ some (a_file f)) where
  abbrev opening : Result Opened × File
  opening = open_and_authorize P credential key now_unix f

  abbrev after : Result (Unit {0}) × World
  after = verify_and_delete P os container credential key now_unix w

  refused_keeps :
      (e : VaultError)
      → opening.0 ≡ err e
      → (after.0 ≡ err e) × (after.1.now.disk (path_text container) ≡ some (a_file opening.1))
  unfolding verify_and_delete authorize authorize_item change reach put
  refused_keeps e refused =
      rw
        (
          verify_and_delete, authorize, there, authorize_item, refused, change, reach, put,
          bytes_eq_refl,
        )
        (refl, refl)

  -- The prologue tells the flag that the file had, and leaves it cleared.
  opened-readonly :
      (opened : Opened)
      → opening.0 ≡ ok opened
      → (opened.was_readonly ≡ f.readonly) × (opening.1.readonly ≡ false)
  opened-readonly = open_and_authorize-readonly P credential key now_unix f

  -- With the flag that the prologue reports.
  rearmed :
      (opened : Opened) (e : IoError)
      → opening.0 ≡ ok opened
      → os.refuses remove_copy ≡ some e
      → os.refuses rearm_container ≡ none
      → (after.0 ≡ err (io e))
        × (after.1.now.disk (path_text container)
            ≡ some (a_file (record { bytes = opening.1.bytes; readonly = opened.was_readonly })))
  unfolding verify_and_delete authorize authorize_item change reach put guard send_away send_item
      rearm_at ask guard_path guarded set_readonly
  rearmed opened e opens bin no_rearm =
      let plain : opening.1 ≡ record { bytes = opening.1.bytes; readonly = false } =
        ap (λ b. record { bytes = opening.1.bytes; readonly = b })
          (opened-readonly opened opens).1 in
      elim (Option-cases (os.refuses guard_container)) [
        | inl allowed ↦ elim (Bool-cases opened.was_readonly) [
          | inl t ↦
              rw
                (
                  verify_and_delete, authorize, there, authorize_item, opens, change, reach, guard,
                  ask, allowed, change, reach, guard_path, send_away, put, bytes_eq_refl, bin,
                  rearm_at, t, guard, ask, no_rearm, change, reach, guard_path, put, bytes_eq_refl,
                  guarded,
                )
                (refl, refl)
          | inr t ↦
              rw
                (
                  verify_and_delete, authorize, there, authorize_item, opens, change, reach, guard,
                  ask, allowed, change, reach, guard_path, send_away, put, bytes_eq_refl, bin,
                  rearm_at, t, bytes_eq_refl,
                )
                (refl, refl)
        ]
        | inr (x, refused) ↦ elim (Bool-cases opened.was_readonly) [
          | inl t ↦
              rw
                (
                  verify_and_delete, authorize, there, authorize_item, opens, change, reach, guard,
                  ask, refused, send_away, put, bytes_eq_refl, bin, rearm_at, t, guard, ask,
                  no_rearm, change, reach, guard_path, put, bytes_eq_refl, guarded,
                )
                (refl, refl)
          | inr t ↦
              rw
                (
                  verify_and_delete, authorize, there, authorize_item, opens, change, reach, guard,
                  ask, refused, send_away, put, bytes_eq_refl, bin, rearm_at, t, bytes_eq_refl,
                )
                (refl, ap (λ b. some (a_file b)) plain)
        ]
      ]

  -- If the prologue opens the container and the recycle bin refuses it, verify_and_delete returns
  -- the error and leaves the container with the bytes of the prologue and the read-only flag that
  -- the file had before the call, even if the clearing of the flag is refused. Setting the flag
  -- again is not refused.
  pub verify_and_delete_refused :
      (opened : Opened) (e : IoError)
      → opening.0 ≡ ok opened
      → os.refuses remove_copy ≡ some e
      → os.refuses rearm_container ≡ none
      → (after.0 ≡ err (io e))
        × (after.1.now.disk (path_text container)
            ≡ some (a_file (record { bytes = opening.1.bytes; readonly = f.readonly })))
  verify_and_delete_refused opened e opens bin no_rearm =
      let (failed, left) = rearmed opened e opens bin no_rearm in
      let kept = λ (b : Bool). some (a_file (record { bytes = opening.1.bytes; readonly = b })) in
      (failed, left ∙ ap kept (opened-readonly opened opens).0)

  pub deletes :
      (opened : Opened)
      → opening.0 ≡ ok opened
      → os.refuses remove_copy ≡ none
      → os.refuses guard_container ≡ none
      → (after.0 ≡ ok tt) × (after.1.now.disk (path_text container) ≡ none)
  unfolding verify_and_delete authorize authorize_item change reach put guard send_away send_item
      ask guard_path
  deletes opened opens bin no_guard =
      rw
        (
          verify_and_delete, authorize, there, authorize_item, opens, change, reach, guard, ask,
          no_guard, change, reach, guard_path, send_away, put, bytes_eq_refl, bin, put,
          bytes_eq_refl,
        )
        (refl, refl)

  -- If verify_and_delete leaves no container, then the prologue opened it: a wrong credential
  -- deletes nothing, whatever the operating system refuses.
  pub verify_and_delete-authorized :
      after.1.now.disk (path_text container) ≡ none → (opened : Opened) × (opening.0 ≡ ok opened)
  verify_and_delete-authorized gone = elim (Result-cases opening.0) [
    | inl found ↦ found
    | inr (e, refused) ↦ let kept = (refused_keeps e refused).1 in absurd (cc (sym kept ∙ gone))
  ]
