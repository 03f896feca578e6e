-- ===== src/App/Orderly.antt =====
-- The runs of the dialog of crates/vault-app/src/ui.rs: its phase and its worker.
use foldervault.Base.{
  ℕ, ◌≡◌, refl, Bool, true, false, not, ◌&&◌, ◌||◌, List, [], ◌∷◌, Option, none, some, arith, Bytes,
  Text, ◌⊎◌, inl, inr, Bool-cases, if◌then◌else◌,
}
use foldervault.Vault.{VaultError, Result, ok, err}
use foldervault.Header.{Header}
use foldervault.App.State.{
  Mode, Phase, input, busy, App, update_countdown, enter_lockout, show_container, open_dialog,
}
use foldervault.App.Dialog.{
  Event, primary, close, link, eye, timer_shake, timer_countdown, progress, done, worker_ends,
  types, types_confirm, wm_close, on_toggle_reveal, switch_master, on_toggle_master, start,
  submit_lock, submit_opening, on_primary, show_error, on_done, on_timer_shake, handle, step, run,
}

abbrev pub is_some {ℓ} : {A : Type ℓ} → Option A → Bool
is_some none = false
is_some (some a) = true

abbrev pub is_busy : Phase → Bool
is_busy busy = true
is_busy _ = false

-- While the window is there: the phase is Busy exactly while a worker runs or its result waits, never
-- both, and the dialog has not succeeded.
pub record IsOpen (app : App) : Type 0 where
  pub working : is_busy app.phase ≡ is_some app.job || is_some app.result
  pub single : is_some app.job && is_some app.result ≡ false
  pub unfinished : app.succeeded ≡ false

-- The window is gone, or all is well with it.
abbrev pub IsOrderly : App → Type 0
IsOrderly app = (app.destroyed ≡ true) ⊎ IsOpen app

-- What an open window keeps to, as one test.
unfoldable pub is_open : App → Bool
is_open app =
    (if is_some app.job || is_some app.result then is_busy app.phase else not (is_busy app.phase))
    && not (is_some app.job && is_some app.result)
    && not app.succeeded

abbrev Fine : App → Type 0
Fine app = (app.destroyed || is_open app) ≡ true

update_countdown-Fine : (now : ℕ) (app : App) → Fine app → Fine (update_countdown now app)
unfolding update_countdown is_open
update_countdown-Fine now app h = ground arith

on_primary-Fine : (utf8 : Text → Bytes) (app : App) → Fine app → Fine (on_primary utf8 app)
unfolding on_primary submit_lock submit_opening start is_open
on_primary-Fine utf8 app h = ground arith

on_toggle_master-Fine : (app : App) → Fine app → Fine (on_toggle_master app)
unfolding on_toggle_master switch_master is_open
on_toggle_master-Fine app h = ground arith

show_error-Fine :
    (e : VaultError) (now : ℕ) (app : App)
    → Fine app
    → app.phase ≡ input
    → Fine (show_error e now app)
unfolding show_error enter_lockout update_countdown is_open
show_error-Fine e now app h p = ground arith

result-Fine :
    (now : ℕ) (app : App) (r : Option (Result Text))
    → app.result ≡ r
    → Fine app
    → Fine (on_done now app)
unfolding on_done is_open
result-Fine now app none same h = rw (on_done, same) h
result-Fine now app (some (ok path)) same h = rw (on_done, same) refl
result-Fine now app (some (err e)) same h =
    rw (on_done, same) (show_error-Fine e now _ (ground arith) refl)

handle-Fine : (utf8 : Text → Bytes) (e : Event) (app : App) → Fine app → Fine (handle utf8 e app)
unfolding handle on_timer_shake on_toggle_reveal is_open
handle-Fine utf8 primary app h = on_primary-Fine utf8 app h
handle-Fine utf8 close app h = ground arith
handle-Fine utf8 link app h = on_toggle_master-Fine app h
handle-Fine utf8 eye app h = ground arith
handle-Fine utf8 timer_shake app h = ground arith
handle-Fine utf8 (timer_countdown now) app h = ground (arith, update_countdown-Fine now app h)
handle-Fine utf8 (progress pct) app h = ground arith
handle-Fine utf8 (done now) app h = result-Fine now app app.result refl h
handle-Fine utf8 (worker_ends r) app h = ground arith
handle-Fine utf8 (types t) app h = ground arith
handle-Fine utf8 (types_confirm t) app h = ground arith
handle-Fine utf8 wm_close app h = ground arith

step-Fine : (utf8 : Text → Bytes) (e : Event) (app : App) → Fine app → Fine (step utf8 e app)
unfolding step
step-Fine utf8 e app h = ground (arith, handle-Fine utf8 e app h)

run-Fine : (utf8 : Text → Bytes) (es : List Event) (app : App) → Fine app → Fine (run utf8 es app)
unfolding run
run-Fine utf8 [] app h = h
run-Fine utf8 (e ∷ es) app h = run-Fine utf8 es (step utf8 e app) (step-Fine utf8 e app h)

open_dialog-Fine :
    (mode : Mode) (master_pub : Option Bytes) (inspected : Result Header) (now : ℕ)
    → Fine (open_dialog mode master_pub inspected now)
unfolding open_dialog show_container enter_lockout update_countdown is_open
open_dialog-Fine mode master_pub inspected now = ground arith

of_test : (app : App) → Fine app → IsOrderly app
unfolding is_open
of_test app h = elim (Bool-cases app.destroyed) [
  | inl gone ↦ inl gone
  | inr here ↦
      inr (record { working = ground arith; single = ground arith; unfinished = ground arith })
]

-- Whatever messages come to a dialog, in whatever order: its window is gone, or the phase is Busy
-- exactly while a worker runs or its result waits, never both, and the dialog has not succeeded.
pub run-IsOrderly :
    (utf8 : Text → Bytes) (es : List Event) (mode : Mode) (master_pub : Option Bytes)
    (inspected : Result Header) (now : ℕ)
    → IsOrderly (run utf8 es (open_dialog mode master_pub inspected now))
run-IsOrderly utf8 es mode master_pub inspected now =
    of_test _ (run-Fine utf8 es _ (open_dialog-Fine mode master_pub inspected now))
