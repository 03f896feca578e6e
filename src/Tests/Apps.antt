-- ===== src/Tests/Apps.antt =====
-- Runs of the dialog, the registry, the secrets of an install, and a wiped file.
use foldervault.Base.{
  ℕ, ◌≤◌, ◌≡◌, ◌↔◌, refl, Bool, true, false, List, [], ◌∷◌, Option, none, some, arith, Bytes, codes,
  zeros, All, bytes_eq, ◌⊎◌, ◌++◌, drop,
}
use foldervault.Vault.{Result, ok, err, io, not_found, VaultError}
use foldervault.Random.{Rng, fill_bytes}
use foldervault.Crypto.{default_kdf}
use foldervault.Header.{Header}
use foldervault.Recovery.Seal.{generate}
use foldervault.Paths.{location}
use foldervault.Folder.Wipe.{Files, wipe_file}
use foldervault.Folder.Wiped.{wipe_file-zeros}
use foldervault.Secrets.{
  Dpapi, Store, absent, read_protected, write_new, create_key, load_or_create_install_key,
  load_master_pub, save_master_pub,
}
use foldervault.Secrets.Kept.{install_key_persists}
use foldervault.App.State.{
  lock_mode, lockout_until, App, lock_job, new_app, open_dialog, delete_mode,
}
use foldervault.App.Dialog.{
  Event, primary, close, link, done, worker_ends, types, types_confirm, timer_countdown,
  utf8_length, step, run,
}
use foldervault.App.Orderly.{IsOrderly, run-IsOrderly}
use foldervault.App.Submit.{Success, step-Success, opened_locked, lock_submitted_iff}
use foldervault.App.Shell.{Registry, values, register, register_if_needed}
use foldervault.App.Registered.{register-settled}
use foldervault.App.Main.{Desktop, run_setup}
use foldervault.App.Setup.{run_setup-enrolled}
use foldervault.Tests.Toy.{toy, toy-IsLawful, tape}
use foldervault.Tests.Home.{willing}

abbrev header : ℕ → Header
header until = record {
  uuid = zeros 16;
  salt = zeros 16;
  kdf = default_kdf;
  wrapped_dk_pw = zeros 60;
  wrapped_dk_mk = zeros 92;
  lockout = record { fail_count = 3; locked_until = until };
  entry_count = 0;
  payload_len = 0;
  hmac_ok = true;
}

-- A lock that is submitted, cannot be closed while it runs, and ends.
abbrev messages : List Event
messages =
    types (codes "secret")
    ∷ types_confirm (codes "secret")
    ∷ primary
    ∷ close
    ∷ worker_ends (ok (codes "home.fvlt"))
    ∷ done 5
    ∷ []

run-IsOrderly_example :
    IsOrderly
      (run (λ t. t) messages (open_dialog (lock_mode (codes "home")) none (err (io not_found)) 0))
run-IsOrderly_example =
    run-IsOrderly (λ t. t) messages (lock_mode (codes "home")) none (err (io not_found)) 0

ends :
    (run
      (λ t. t)
      messages
      (open_dialog (lock_mode (codes "home")) none (err (io not_found)) 0)).succeeded
    ≡ true
unfolding run open_dialog utf8_length bytes_eq
ends = refl

abbrev finished : App
finished = record (new_app (lock_mode (codes "home")) none) {
  result = some (ok (codes "home.fvlt"));
}

finished-succeeds : (step (λ t. t) (done 5) finished).succeeded ≡ true
unfolding step
finished-succeeds = refl

step-Success_example : Success (done 5) finished
step-Success_example = step-Success (λ t. t) (done 5) finished refl finished-succeeds

opened_locked_example :
    let app =
      run
        (λ t. t)
        (link ∷ types (codes "X") ∷ primary ∷ timer_countdown 900 ∷ [])
        (open_dialog (delete_mode (codes "home.fvlt")) none (ok (header 1000)) 500) in
    (app.phase ≡ lockout_until 1000) × (app.job ≡ none)
opened_locked_example =
    opened_locked (λ t. t) (delete_mode (codes "home.fvlt")) none (header 1000) 500
      (link ∷ types (codes "X") ∷ primary ∷ timer_countdown 900 ∷ []) refl (omega arith)
      (tt, (tt, (tt, (omega arith, tt))))

abbrev typed : App
typed = record (new_app (lock_mode (codes "home")) none) {
  edit = codes "secret";
  edit2 = codes "secret";
}

lock_submitted_iff_example :
    ((step (λ t. t) primary typed).job ≡ some (lock_job (codes "home") (codes "secret")))
    ↔ ((6 ≤ utf8_length (codes "secret")) × (codes "secret" ≡ codes "secret"))
lock_submitted_iff_example = lock_submitted_iff (λ t. t) (codes "home") typed refl refl refl refl

abbrev empty_registry : Registry
empty_registry subkey name = none

register-settled_example :
    let reg = (register (λ k n. false) (codes "C:\\fv.exe") empty_registry).1 in
    All (λ v. reg v.subkey v.name ≡ some v.content) (values (codes "C:\\fv.exe"))
    × (register_if_needed (λ k n. true) (codes "C:\\fv.exe") reg ≡ reg)
register-settled_example =
    register-settled (λ k n. false) (λ k n. true) (codes "C:\\fv.exe") empty_registry (λ k n. refl)

abbrev dpapi : Dpapi
dpapi = record {
  protect = λ b. some b;
  unprotect = λ b. some b;
  no_dir = none;
  no_write = λ name. none;
}

abbrev new_store : Store
new_store name = absent

dpapi-unprotects :
    (plain blob : Bytes) → dpapi.protect plain ≡ some blob → dpapi.unprotect blob ≡ some plain
dpapi-unprotects plain blob h = cc

abbrev first : Result Bytes × Store × Rng
first = load_or_create_install_key dpapi new_store tape

first-ok : first.0 ≡ ok (fill_bytes 32 tape).0
unfolding load_or_create_install_key read_protected create_key write_new
first-ok = refl

install_key_persists_example :
    load_or_create_install_key dpapi first.1 first.2 ≡ (ok (fill_bytes 32 tape).0, first.1, first.2)
install_key_persists_example =
    install_key_persists dpapi dpapi-unprotects new_store tape first.2 (fill_bytes 32 tape).0
      first-ok

abbrev desk : Desktop
desk = record {
  store = new_store;
  registry = empty_registry;
  rng = tape;
  messages = [];
  dialogs = [];
  recovered = true;
}

desk-new : load_master_pub dpapi new_store ≡ none
unfolding load_master_pub
desk-new = refl

abbrev setup : Bool → Option Bytes × Desktop
setup answer =
    run_setup toy dpapi (λ k n. false) (λ t. false) (λ c. answer) true (codes "fv") (codes "k") desk

run_setup-enrolled_example :
    let pair = (generate toy tape).0 in
    ((true ≡ true)
      × ((setup true).0 ≡ some pair.public)
      × (load_master_pub dpapi (setup true).1.store ≡ some pair.public))
    ⊎ (((true ≡ false)
          ⊎ ((e : VaultError) × ((save_master_pub dpapi pair.public new_store).0 ≡ err e)))
        × ((setup true).0 ≡ none)
        × ((setup true).1.store ≡ new_store))
run_setup-enrolled_example =
    run_setup-enrolled toy toy-IsLawful dpapi dpapi-unprotects (λ k n. false) (λ t. false)
      (λ c. true) true (codes "fv") (codes "k") desk desk-new

abbrev files : Files
files p = ok (record { bytes = codes "hello"; readonly = true })

wipe_file-zeros_example :
    wipe_file willing (location []) 5 files (location [])
    ≡ ok (record { bytes = zeros 5 ++ drop 5 (codes "hello"); readonly = false })
wipe_file-zeros_example =
    wipe_file-zeros willing (location []) 5 files
      (record { bytes = codes "hello"; readonly = true }) refl
