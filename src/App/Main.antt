-- ===== src/App/Main.antt =====
-- crates/vault-app/src/main.rs: the dispatch on the arguments, and the setup of the master key. The
-- dialogs and the recovery of the journal are parameters.
use foldervault.Base.{
  Bool, List, [], ◌∷◌, ◌++◌, Option, none, some, Bytes, Text, codes, bytes_eq, if◌then◌else◌,
}
use foldervault.Vault.{ok, err, VaultError}
use foldervault.Primitives.{Primitives}
use foldervault.Random.{Rng}
use foldervault.Recovery.Seal.{generate}
use foldervault.Secrets.{Dpapi, Store, load_or_create_install_key, load_master_pub, save_master_pub}
use foldervault.App.State.{Mode, lock_mode, unlock_mode, delete_mode, setup_mode}
use foldervault.App.Shell.{Registry, register, register_if_needed, unregister}

-- What `msgbox` shows.
pub data Message : Type 0 where
  no_data_directory cannot_register : Message
  cannot_save : VaultError → Message

pub record Desktop : Type 0 where
  pub store : Store
  pub registry : Registry
  pub rng : Rng
  pub messages : List Message
  -- The dialogs that were run, with the keys they got.
  pub dialogs : List (Mode × Bytes × Option Bytes)
  -- Whether the journal was replayed.
  pub recovered : Bool

abbrev pub msgbox : Message → Desktop → Desktop
msgbox m d = record d { messages = d.messages ++ (m ∷ []) }

abbrev pub run_dialog : Mode → Bytes → Option Bytes → Desktop → Desktop
run_dialog mode hmac_key public d = record d {
  dialogs = d.dialogs ++ ((mode, hmac_key, public) ∷ []);
}

module _ (P : Primitives) (D : Dpapi) (refuses : Text → Text → Bool) (keeps : Text → Bool)
    (confirms : Text → Bool) (journal_opens : Bool) where
  -- The part of `run_setup` behind the registration and the look for a key.
  unfoldable pub enroll : Bytes → Desktop → Option Bytes × Desktop
  unfolding generate save_master_pub
  enroll hmac_key d =
      let pair = generate P d.rng in
      let shown = run_dialog (setup_mode pair.0.code) hmac_key none (record d { rng = pair.1 }) in
      let saved = save_master_pub D pair.0.public shown.store in
      if confirms pair.0.code
      then elim saved.0 [
        | ok u ↦ (some pair.0.public, record shown { store = saved.1 })
        | err e ↦ (none, msgbox (cannot_save e) (record shown { store = saved.1 }))
      ]
      else (none, shown)

  -- The registration, with its message.
  unfoldable pub with_registration : Text → Desktop → Desktop
  unfolding register
  with_registration exe d =
      let r = register refuses exe d.registry in
      let d' = record d { registry = r.1 } in if r.0 then d' else msgbox cannot_register d'

  -- `run_setup`
  unfoldable pub run_setup : Text → Bytes → Desktop → Option Bytes × Desktop
  unfolding with_registration load_master_pub enroll
  run_setup exe hmac_key d = elim (load_master_pub D (with_registration exe d).store) [
    | some existing ↦ (some existing, with_registration exe d)
    | none ↦ enroll hmac_key (with_registration exe d)
  ]

  unfoldable pub lock_verb : Text → Bytes → Text → Desktop → Desktop
  unfolding register_if_needed run_setup load_master_pub
  lock_verb exe hmac_key path d =
      let d' = record d { registry = register_if_needed refuses exe d.registry } in
      let s : Option Bytes × Desktop = elim (load_master_pub D d'.store) [
        | some p ↦ (some p, d')
        | none ↦ run_setup exe hmac_key d'
      ] in
      run_dialog (lock_mode path) hmac_key s.0 s.1

  -- The `match` of `main`.
  unfoldable pub dispatch : Text → Bytes → List Text → Desktop → Desktop
  unfolding lock_verb register_if_needed unregister run_setup bytes_eq
  dispatch exe hmac_key (verb ∷ path ∷ rest) d =
      if bytes_eq verb (codes "lock")
      then lock_verb exe hmac_key path d
      else if bytes_eq verb (codes "open")
      then run_dialog (unlock_mode path) hmac_key none
          (record d { registry = register_if_needed refuses exe d.registry })
      else if bytes_eq verb (codes "delete")
      then run_dialog (delete_mode path) hmac_key none
          (record d { registry = register_if_needed refuses exe d.registry })
      else if bytes_eq verb (codes "unregister")
      then record d { registry = unregister keeps d.registry }
      else (run_setup exe hmac_key d).1
  dispatch exe hmac_key (verb ∷ []) d =
      if bytes_eq verb (codes "unregister")
      then record d { registry = unregister keeps d.registry }
      else (run_setup exe hmac_key d).1
  dispatch exe hmac_key [] d = (run_setup exe hmac_key d).1

  -- `main`
  unfoldable pub main : Text → List Text → Desktop → Desktop
  unfolding load_or_create_install_key dispatch
  main exe args d =
      let k = load_or_create_install_key D d.store d.rng in
      let d' = record d { store = k.1; rng = k.2 } in
      elim k.0 [
        | err e ↦ msgbox no_data_directory d'
        | ok hmac_key ↦ dispatch exe hmac_key args (record d' { recovered = journal_opens })
      ]
