-- ===== src/App/Registered.antt =====
-- What register of crates/vault-app/src/shell.rs leaves in the registry.
use foldervault.Base.{
  ◌≡◌, refl, ap, Bool, true, false, List, [], ◌∷◌, none, some, Text, All, bytes_eq, bytes_eq_refl,
}
use foldervault.App.Shell.{
  Registry, Value, values, set_value, set_values, register, read_registered_exe,
  delete_verb_present, is_registered, register_if_needed, is_within, delete_tree, unregister,
}

set_values-willing :
    (refuses : Text → Text → Bool) (vs : List Value) (reg : Registry)
    → ((subkey name : Text) → refuses subkey name ≡ false)
    → set_values refuses vs reg ≡ set_values (λ subkey name. false) vs reg
unfolding set_values
set_values-willing refuses [] reg willing = refl
set_values-willing refuses (v ∷ vs) reg willing =
    rw (set_values, willing) (set_values-willing refuses vs (set_value v reg) willing)

-- The registration to which nothing is refused.
abbrev done : Text → Registry → Registry
done exe reg = (register (λ subkey name. false) exe reg).1

written :
    (exe : Text) (reg : Registry)
    → All (λ v. done exe reg v.subkey v.name ≡ some v.content) (values exe)
unfolding register set_values values set_value bytes_eq
written exe reg =
    (refl, (refl, (refl, (refl, (refl, (refl, (refl, (refl, (refl, (refl, (refl, tt)))))))))))

settled : (exe : Text) (reg : Registry) → is_registered exe (done exe reg) ≡ true
unfolding is_registered read_registered_exe register set_values values set_value bytes_eq
settled exe reg = bytes_eq_refl exe

verb : (exe : Text) (reg : Registry) → delete_verb_present (done exe reg) ≡ true
unfolding delete_verb_present register set_values values set_value bytes_eq
verb exe reg = refl

register-willing :
    (refuses : Text → Text → Bool) (exe : Text) (reg : Registry)
    → ((subkey name : Text) → refuses subkey name ≡ false)
    → (register refuses exe reg).1 ≡ done exe reg
unfolding register
register-willing refuses exe reg willing =
    ap (λ r. r.1) (set_values-willing refuses (values exe) reg willing)

again :
    (later : Text → Text → Bool) (exe : Text) (reg : Registry)
    → is_registered exe reg ≡ true
    → delete_verb_present reg ≡ true
    → register_if_needed later exe reg ≡ reg
unfolding register_if_needed
again later exe reg here there = rw (register_if_needed, here, there) refl

-- After a registration to which nothing is refused, each of its values is in the registry, and a
-- further register_if_needed with this program changes nothing, whatever is refused to it.
pub register-settled :
    (refuses later : Text → Text → Bool) (exe : Text) (reg : Registry)
    → ((subkey name : Text) → refuses subkey name ≡ false)
    → let reg' = (register refuses exe reg).1 in
      All (λ v. reg' v.subkey v.name ≡ some v.content) (values exe)
      × (register_if_needed later exe reg' ≡ reg')
register-settled refuses later exe reg willing =
    rw (register-willing refuses exe reg willing)
      (written exe reg, again later exe (done exe reg) (settled exe reg) (verb exe reg))

-- Unregistering removes each value that a registration sets, if no removal is refused.
unregister-clean :
    (exe : Text) (reg : Registry)
    → All (λ v. unregister (λ tree. false) reg v.subkey v.name ≡ none) (values exe)
unfolding unregister delete_tree is_within values
unregister-clean exe reg =
    (refl, (refl, (refl, (refl, (refl, (refl, (refl, (refl, (refl, (refl, (refl, tt)))))))))))
