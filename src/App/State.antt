-- ===== src/App/State.antt =====
-- crates/vault-app/src/ui.rs: the state of the dialog, its status line and its beginning, and the
-- lockout's countdown. The drawing is left out, but for what decides which messages come: an edit
-- control's text, whether it is enabled and shown, the timers, and whether the window is gone.
use foldervault.Base.{
  ℕ, ◌+◌, ◌-◌, ◌/◌, ◌%◌, ◌^◌, Bool, true, false, ◌&&◌, [], Option, none, some, Bytes, Text, codes,
  ltb, leb, if◌then◌else◌,
}
use foldervault.Vault.{VaultError, Result, ok, err}
use foldervault.Lockout.{max_attempts}
use foldervault.Header.{Header}
use foldervault.Recovery.Seal.{is_enrolled}
use foldervault.Container.Authorize.{Credential}

pub data Mode : Type 0 where
  lock_mode unlock_mode delete_mode setup_mode : Text → Mode

pub data Phase : Type 0 where
  input busy : Phase
  lockout_until : ℕ → Phase

-- The colour of the status line.
pub data Colour : Type 0 where
  muted warn danger ok_green : Colour

-- The status line: a fixed text, or what a `format!` fills in.
pub data Status : Type 0 where
  text : Text → Status
  attempts_remaining wrong_attempts_remaining : ℕ → Status
  try_again_in : ℕ → ℕ → ℕ → Status
  exists_status : Text → Status
  shown_error : VaultError → Status

-- What the worker thread runs.
pub data Job : Type 0 where
  lock_job : Text → Text → Job
  unlock_job delete_job : Text → Credential → Job

pub record App : Type 0 where
  pub mode : Mode
  pub phase : Phase
  pub status : Status
  pub status_color : Colour
  pub fail_count : ℕ
  pub master_mode : Bool
  pub master_available : Bool
  pub progress_pct : ℕ
  pub reveal : Bool
  pub shake_step : ℕ
  pub succeeded : Bool
  -- The controls, with whether the first one takes typing, and the timers.
  pub edit : Text
  pub edit2 : Text
  pub edit_enabled : Bool
  pub edits_shown : Bool
  pub countdown : Bool
  pub shaking : Bool
  pub destroyed : Bool
  -- The worker thread, and the slot for its result.
  pub job : Option Job
  pub result : Option (Result Text)

abbrev pub set_status : Status → Colour → App → App
set_status t colour app = record app { status = t; status_color = colour }

abbrev pub shake : App → App
shake app = record app { shake_step = 8; shaking = true }

abbrev pub destroy : App → App
destroy app = record app { destroyed = true }

-- `update_countdown`
unfoldable pub update_countdown : ℕ → App → App
update_countdown now app = elim app.phase [
  | lockout_until until_unix ↦
      if leb until_unix now
      then set_status (text (codes "You can try again now")) muted
          (record app { phase = input; fail_count = 0; countdown = false; edit_enabled = true })
      else set_status
          (try_again_in ((until_unix - now) / 3600) ((until_unix - now) % 3600 / 60)
            ((until_unix - now) % 60))
          danger app
  | _ ↦ app
]

-- `enter_lockout`
unfoldable pub enter_lockout : ℕ → ℕ → App → App
unfolding update_countdown
enter_lockout until_unix now app = update_countdown now (record app {
  phase = lockout_until until_unix;
  fail_count = max_attempts;
  edit_enabled = app.edit_enabled && app.master_mode;
  countdown = true;
})

-- `on_create`, on what `inspect` says of the container.
unfoldable pub show_container : Result Header → ℕ → App → App
unfolding enter_lockout is_enrolled
show_container (err e) now app = app
show_container (ok h) now app =
    let fails = if h.hmac_ok then h.lockout.fail_count else max_attempts - 1 in
    let seen = record app { fail_count = fails; master_available = is_enrolled h.wrapped_dk_mk } in
    if ltb now h.lockout.locked_until
    then enter_lockout h.lockout.locked_until now seen
    else if ltb 0 fails
    then set_status (attempts_remaining ((max_attempts + (2 ^ 32 - fails)) % 2 ^ 32)) warn seen
    else seen

abbrev pub is_container_mode : Mode → Bool
is_container_mode (unlock_mode p) = true
is_container_mode (delete_mode p) = true
is_container_mode _ = false

-- The state that `run_dialog` begins with.
abbrev pub new_app : Mode → Option Bytes → App
new_app mode master_pub = record {
  mode = mode;
  phase = input;
  status = text [];
  status_color = muted;
  fail_count = 0;
  master_mode = false;
  master_available = elim master_pub [ none ↦ is_container_mode mode | some p ↦ true ];
  progress_pct = 0;
  reveal = false;
  shake_step = 0;
  succeeded = false;
  edit = [];
  edit2 = [];
  edit_enabled = true;
  edits_shown = true;
  countdown = false;
  shaking = false;
  destroyed = false;
  job = none;
  result = none;
}

unfoldable pub open_dialog : Mode → Option Bytes → Result Header → ℕ → App
unfolding show_container
open_dialog mode master_pub inspected now =
    let app = new_app mode master_pub in
    elim mode [
      | lock_mode src ↦ app
      | unlock_mode container ↦ show_container inspected now app
      | delete_mode container ↦ show_container inspected now app
      | setup_mode code ↦
          set_status
            (text (
              codes
                "Anyone with this code can unlock your folders. Store it safely — it is shown only once."))
            muted (record app { edit = code; edit_enabled = false })
    ]
