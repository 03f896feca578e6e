-- ===== src/App/Dialog.antt =====
-- crates/vault-app/src/ui.rs: the dialog as a state machine over its window messages.
use foldervault.Base.{
  ℕ, ◌+◌, ◌-◌, ◌%◌, ◌^◌, true, false, not, ◌&&◌, List, [], ◌∷◌, none, some, Bytes, Text, codes, ltb,
  ◌==◌, bytes_eq, if◌then◌else◌,
}
use foldervault.Vault.{
  VaultError, wrong_password, locked_out, exists_already, tampered, other, Result, ok, err,
}
use foldervault.Lockout.{max_attempts}
use foldervault.Container.Authorize.{Credential, password, master_code}
use foldervault.App.State.{
  lock_mode, unlock_mode, delete_mode, setup_mode, input, busy, warn, danger, ok_green, text,
  wrong_attempts_remaining, exists_status, shown_error, Job, lock_job, unlock_job, delete_job, App,
  set_status, shake, destroy, update_countdown, enter_lockout,
}

-- `on_toggle_reveal`
unfoldable pub on_toggle_reveal : App → App
on_toggle_reveal app = if app.master_mode then app else record app { reveal = not app.reveal }

-- The link of a dialog on a container.
unfoldable pub switch_master : App → App
switch_master app =
    if not app.master_available && not app.master_mode
    then set_status (text (codes "No recovery code was set up for this folder")) warn app
    else record app { master_mode = not app.master_mode; edit = [] }

-- `on_toggle_master`
unfoldable pub on_toggle_master : App → App
unfolding switch_master
on_toggle_master app = elim app.mode [
  | setup_mode code ↦ set_status (text (codes "Copied. Paste it somewhere safe now.")) ok_green app
  | unlock_mode container ↦ switch_master app
  | delete_mode container ↦ switch_master app
  | lock_mode src ↦ app
]

-- The length of a text in UTF-8, which `pw.len()` counts.
unfoldable pub utf8_length : Text → ℕ
utf8_length [] = 0
utf8_length (c ∷ rest) =
    (if ltb c 0x80 then 1 else if ltb c 0x800 then 2 else if ltb c 0x10000 then 3 else 4)
    + utf8_length rest

-- `start_busy` and `spawn_worker`
unfoldable pub start : Job → App → App
start j app = record app { phase = busy; progress_pct = 0; edits_shown = false; job = some j }

unfoldable pub submit_lock : Text → App → App
unfolding utf8_length start bytes_eq
submit_lock src app =
    if bytes_eq app.edit []
    then set_status (text (codes "Enter a password")) warn app
    else if ltb (utf8_length app.edit) 6
    then set_status (text (codes "Use at least 6 characters")) warn app
    else if not (bytes_eq app.edit app.edit2)
    then shake (set_status (text (codes "Passwords do not match")) danger app)
    else start (lock_job src app.edit) app

module _ (utf8 : Text → Bytes) where
  -- What the edit control holds, as a credential.
  abbrev pub credential_of : App → Credential
  credential_of app = if app.master_mode then master_code app.edit else password (utf8 app.edit)

  unfoldable pub submit_opening : (Credential → Job) → App → App
  unfolding start bytes_eq
  submit_opening job app =
      if bytes_eq app.edit []
      then set_status
          (text (
            if app.master_mode
            then codes "Enter your recovery code"
            else codes "Enter the password"))
          warn app
      else start (job (credential_of app)) app

  -- `on_primary`
  unfoldable pub on_primary : App → App
  unfolding submit_lock submit_opening
  on_primary app = elim app.phase [
    | input ↦ elim app.mode [
      | setup_mode code ↦ destroy (record app { succeeded = true })
      | lock_mode src ↦ submit_lock src app
      | unlock_mode container ↦ submit_opening (unlock_job container) app
      | delete_mode container ↦ submit_opening (delete_job container) app
    ]
    | _ ↦ app
  ]

-- The end of `on_done`, by the error.
unfoldable pub show_error : VaultError → ℕ → App → App
unfolding enter_lockout
show_error (wrong_password attempts_left) now app = shake (
    set_status (wrong_attempts_remaining attempts_left) danger
      (record app { fail_count = (max_attempts + (2 ^ 32 - attempts_left)) % 2 ^ 32 }))
show_error (locked_out until_unix) now app = shake (enter_lockout until_unix now app)
show_error (exists_already p) now app = set_status (exists_status p) warn app
show_error tampered now app =
    set_status (text (codes "This file is corrupt or has been tampered with")) danger app
show_error (other msg) now app = set_status (text msg) danger app
show_error e now app = set_status (shown_error e) danger app

-- `on_done`
unfoldable pub on_done : ℕ → App → App
unfolding show_error
on_done now app = elim app.result [
  | none ↦ app
  | some (ok path) ↦ destroy (record app { result = none; succeeded = true })
  | some (err e) ↦
      show_error e now
        (record app { result = none; phase = input; edits_shown = true; edit = []; edit2 = [] })
]

-- `on_timer`
unfoldable pub on_timer_shake : App → App
on_timer_shake app =
    if app.shake_step == 0
    then record app { shaking = false }
    else record app { shake_step = app.shake_step - 1 }

-- A message to the window, an edit by the user, or the end of the worker thread.
pub data Event : Type 0 where
  primary close link eye : Event
  timer_shake : Event
  timer_countdown : ℕ → Event
  progress : ℕ → Event
  done : ℕ → Event
  worker_ends : Result Text → Event
  types types_confirm : Text → Event
  wm_close : Event

module _ (utf8 : Text → Bytes) where
  -- `wndproc`
  unfoldable pub handle : Event → App → App
  unfolding on_primary on_toggle_master on_toggle_reveal on_timer_shake update_countdown on_done
  handle primary app = on_primary utf8 app
  handle close app = elim app.phase [ busy ↦ app | _ ↦ destroy app ]
  handle link app = on_toggle_master app
  handle eye app = on_toggle_reveal app
  handle timer_shake app = if app.shaking then on_timer_shake app else app
  handle (timer_countdown now) app = if app.countdown then update_countdown now app else app
  handle (progress pct) app = record app { progress_pct = pct }
  handle (done now) app = on_done now app
  handle (worker_ends r) app = elim app.job [
    | none ↦ app
    | some j ↦ record app { job = none; result = some r }
  ]
  handle (types t) app =
      if app.edit_enabled && app.edits_shown then record app { edit = t } else app
  handle (types_confirm t) app = elim app.mode [
    | lock_mode src ↦ (if app.edits_shown then record app { edit2 = t } else app)
    | _ ↦ app
  ]
  handle wm_close app = destroy app

  -- The message loop, which ends with the window.
  unfoldable pub step : Event → App → App
  unfolding handle
  step e app = if app.destroyed then app else handle e app

  unfoldable pub run : List Event → App → App
  unfolding step
  run [] app = app
  run (e ∷ es) app = run es (step e app)
