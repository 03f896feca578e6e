-- ===== src/App/Submit.antt =====
-- What the dialog of crates/vault-app/src/ui.rs hands to its worker, and when it succeeds.
use foldervault.Base.{
  ℕ, ◌≤◌, ◌<◌, ◌-◌, lt→ltb, ◌≡◌, ◌≢◌, ◌↔◌, refl, true, false, List, [], ◌∷◌, Option, none, some,
  arith, Bytes, Text, All, inl, inr, Bool-cases, if◌then◌else◌, ltb, bytes_eq, bytes_eq_iff,
}
use foldervault.Vault.{VaultError, Result, ok, err}
use foldervault.Lockout.{check, max_attempts}
use foldervault.Recovery.Seal.{is_enrolled}
use foldervault.Header.{Header}
use foldervault.App.State.{
  Mode, lock_mode, unlock_mode, setup_mode, Phase, input, lockout_until, App, lock_job,
  attempts_remaining, update_countdown, enter_lockout, show_container, new_app, open_dialog,
  delete_mode, is_container_mode,
}
use foldervault.App.Dialog.{
  Event, primary, timer_countdown, done, on_toggle_reveal, switch_master, on_toggle_master,
  utf8_length, start, submit_lock, submit_opening, on_primary, show_error, on_done, on_timer_shake,
  handle, step, run,
}

show_error-succeeded :
    (e : VaultError) (now : ℕ) (app : App) → (show_error e now app).succeeded ≡ app.succeeded
unfolding show_error enter_lockout update_countdown
show_error-succeeded e now app = ground arith

-- How a dialog succeeds.
pub data Success (e : Event) (app : App) : Type 0 where
  confirmed :
      (code : Text) → e ≡ primary → app.phase ≡ input → app.mode ≡ setup_mode code → Success e app
  returned : (now : ℕ) (path : Text) → e ≡ done now → app.result ≡ some (ok path) → Success e app

-- The other messages.
idle-succeeded :
    (utf8 : Text → Bytes) (e : Event) (app : App)
    → e ≢ primary
    → ((now : ℕ) → e ≢ done now)
    → (step utf8 e app).succeeded ≡ app.succeeded
unfolding step handle on_timer_shake on_toggle_reveal update_countdown on_toggle_master
    switch_master
idle-succeeded utf8 primary app p d = absurd (p refl)
idle-succeeded utf8 (done now) app p d = absurd (d now refl)
idle-succeeded utf8 e app p d = ground arith

primary-Success :
    (utf8 : Text → Bytes) (app : App) (p : Phase) (m : Mode)
    → app.phase ≡ p
    → app.mode ≡ m
    → app.succeeded ≡ false
    → (on_primary utf8 app).succeeded ≡ true
    → Success primary app
unfolding on_primary submit_lock submit_opening start
primary-Success utf8 app input (setup_mode code) p m before after = confirmed code refl p m
primary-Success utf8 app phase mode p m before after = absurd (ground arith)

done-Success :
    (now : ℕ) (app : App) (r : Option (Result Text))
    → app.result ≡ r
    → app.succeeded ≡ false
    → (on_done now app).succeeded ≡ true
    → Success (done now) app
unfolding on_done
done-Success now app none h before after = absurd (cc (rw (on_done, h) at after))
done-Success now app (some (ok path)) h before after = returned now path refl h
done-Success now app (some (err e)) h before after =
    absurd (cc (rw (on_done, h, show_error-succeeded) at after))

-- A message makes a dialog succeed only if it is the primary button of the setup in its input
-- phase, or the end of a worker whose result is a path.
pub step-Success :
    (utf8 : Text → Bytes) (e : Event) (app : App)
    → app.succeeded ≡ false
    → (step utf8 e app).succeeded ≡ true
    → Success e app
unfolding step handle
step-Success utf8 primary app before after =
    primary-Success utf8 app app.phase app.mode refl refl before (ground arith)
step-Success utf8 (done now) app before after =
    done-Success now app app.result refl before (ground arith)
step-Success utf8 e app before after =
    absurd (cc (idle-succeeded utf8 e app (λ h. cc) (λ now h. cc)))

-- No clock reaches the end of the lockout.
abbrev pub Before : ℕ → Event → Type 0
Before u (timer_countdown now) = now < u
Before u _ = Unit {0}

locked_step :
    (utf8 : Text → Bytes) (u : ℕ) (e : Event) (app : App)
    → Before u e
    → app.phase ≡ lockout_until u
    → app.job ≡ none
    → app.result ≡ none
    → ((step utf8 e app).phase ≡ lockout_until u)
      × ((step utf8 e app).job ≡ none)
      × ((step utf8 e app).result ≡ none)
unfolding step handle on_timer_shake on_toggle_reveal update_countdown on_toggle_master
    switch_master on_primary on_done
locked_step utf8 u e app b p j r = ground arith

locked_run :
    (utf8 : Text → Bytes) (u : ℕ) (es : List Event) (app : App)
    → All (Before u) es
    → app.phase ≡ lockout_until u
    → app.job ≡ none
    → app.result ≡ none
    → ((run utf8 es app).phase ≡ lockout_until u) × ((run utf8 es app).job ≡ none)
unfolding run
locked_run utf8 u [] app b p j r = (p, j)
locked_run utf8 u (e ∷ es) app (b, bs) p j r =
    let (p', j', r') = locked_step utf8 u e app b p j r in
    locked_run utf8 u es (step utf8 e app) bs p' j' r'

enter_lockout-phase :
    (u now : ℕ) (app : App)
    → now < u
    → ((enter_lockout u now app).phase ≡ lockout_until u)
      × ((enter_lockout u now app).job ≡ app.job)
      × ((enter_lockout u now app).result ≡ app.result)
unfolding enter_lockout update_countdown
enter_lockout-phase u now app h = ground arith

utf8_length-zero : (t : Text) → t ≡ [] → utf8_length t ≡ 0
unfolding utf8_length
utf8_length-zero t h = rw (h, utf8_length) refl

seen_locked :
    (utf8 : Text → Bytes) (mode : Mode) (master_pub : Option Bytes) (h : Header) (now : ℕ)
    (es : List Event)
    → now < h.lockout.locked_until
    → All (Before h.lockout.locked_until) es
    → let seen : App = record (new_app mode master_pub) {
      fail_count = if h.hmac_ok then h.lockout.fail_count else max_attempts - 1;
      master_available = is_enrolled h.wrapped_dk_mk;
    } in
      let app = run utf8 es (enter_lockout h.lockout.locked_until now seen) in
      (app.phase ≡ lockout_until h.lockout.locked_until) × (app.job ≡ none)
seen_locked utf8 mode master_pub h now es locked before =
    let u = h.lockout.locked_until in
    let seen : App = record (new_app mode master_pub) {
      fail_count = if h.hmac_ok then h.lockout.fail_count else max_attempts - 1;
      master_available = is_enrolled h.wrapped_dk_mk;
    } in
    let (p, j, r) = enter_lockout-phase u now seen locked in
    locked_run utf8 u es (enter_lockout u now seen) before p j r

-- A dialog that opens to unlock or to delete a container whose lockout has not ended stays in the
-- lockout and starts no worker, whatever messages come, the recovery code included, until the clock
-- of a countdown reaches the end.
pub opened_locked :
    (utf8 : Text → Bytes) (mode : Mode) (master_pub : Option Bytes) (h : Header) (now : ℕ)
    (es : List Event)
    → is_container_mode mode ≡ true
    → now < h.lockout.locked_until
    → All (Before h.lockout.locked_until) es
    → let app = run utf8 es (open_dialog mode master_pub (ok h) now) in
      (app.phase ≡ lockout_until h.lockout.locked_until) × (app.job ≡ none)
unfolding open_dialog show_container
opened_locked utf8 (lock_mode src) master_pub h now es opens locked before = absurd (cc opens)
opened_locked utf8 (setup_mode code) master_pub h now es opens locked before = absurd (cc opens)
opened_locked utf8 (unlock_mode container) master_pub h now es opens locked before =
    rw (open_dialog, show_container, lt→ltb now h.lockout.locked_until locked)
      (seen_locked utf8 (unlock_mode container) master_pub h now es locked before)
opened_locked utf8 (delete_mode container) master_pub h now es opens locked before =
    rw (open_dialog, show_container, lt→ltb now h.lockout.locked_until locked)
      (seen_locked utf8 (delete_mode container) master_pub h now es locked before)

submit_lock_iff :
    (src : Text) (app : App)
    → app.job ≡ none
    → ((submit_lock src app).job ≡ some (lock_job src app.edit))
      ↔ ((6 ≤ utf8_length app.edit) × (app.edit ≡ app.edit2))
unfolding submit_lock start
submit_lock_iff src app free = elim (Bool-cases (bytes_eq app.edit [])) [
  | inl nothing ↦
      let e : app.edit ≡ [] = (bytes_eq_iff app.edit []).0 nothing in
      let z : utf8_length app.edit ≡ 0 = utf8_length-zero app.edit e in
      rw (submit_lock, nothing, free) (λ h. absurd cc, λ h. absurd (omega (arith, z, h.0)))
  | inr more ↦ elim (Bool-cases (ltb (utf8_length app.edit) 6)) [
    | inl few ↦ rw (submit_lock, more, few, free) (λ h. absurd cc, λ h. absurd (ground arith))
    | inr enough ↦ elim (Bool-cases (bytes_eq app.edit app.edit2)) [
      | inl same ↦
          rw (submit_lock, more, enough, same, start)
            (λ h. (ground arith, (bytes_eq_iff app.edit app.edit2).0 same), λ h. refl)
      | inr apart ↦
          rw (submit_lock, more, enough, apart, free)
            (
              λ h. absurd cc,
              λ h.
                  let same : bytes_eq app.edit app.edit2 ≡ true =
                    (bytes_eq_iff app.edit app.edit2).1 h.1 in
                  absurd cc,
            )
    ]
  ]
]

-- In the input phase of a lock dialog, the primary button starts the worker with the typed
-- password if and only if the password has six bytes or more in UTF-8 and its confirmation is the
-- same. The window is there, and no worker runs.
pub lock_submitted_iff :
    (utf8 : Text → Bytes) (src : Text) (app : App)
    → app.destroyed ≡ false
    → app.mode ≡ lock_mode src
    → app.phase ≡ input
    → app.job ≡ none
    → ((step utf8 primary app).job ≡ some (lock_job src app.edit))
      ↔ ((6 ≤ utf8_length app.edit) × (app.edit ≡ app.edit2))
unfolding step handle on_primary
lock_submitted_iff utf8 src app alive mode phase free =
    rw (step, alive, handle, on_primary, phase, mode) (submit_lock_iff src app free)

-- A lockout of this install that has ended is shown as no attempt remaining, although the lockout
-- lets a password through.
expired_shows_none :
    (container : Text) (master_pub : Option Bytes) (h : Header) (now : ℕ)
    → h.hmac_ok ≡ true
    → h.lockout.fail_count ≡ max_attempts
    → h.lockout.locked_until ≤ now
    → ((open_dialog (unlock_mode container) master_pub (ok h) now).status ≡ attempts_remaining 0)
      × (check h.lockout now ≡ ok tt)
unfolding open_dialog show_container check
expired_shows_none container master_pub h now own full past = ground arith
