-- ===== src/App/Shell.antt =====
-- crates/vault-app/src/shell.rs: the entries in the registry for Explorer. The registry maps a key
-- below HKEY_CURRENT_USER and a value's name to a text; the default value has the empty name.
use foldervault.Base.{
  Bool, true, false, not, ◌&&◌, ◌||◌, List, [], ◌∷◌, ◌++◌, Option, none, some, Text, codes, ◌==◌,
  bytes_eq, if◌then◌else◌,
}

abbrev pub Registry : Type 0
Registry = Text → Text → Option Text

-- One call of `set_value`.
pub record Value : Type 0 where
  pub subkey : Text
  pub name : Text
  pub content : Text

abbrev container_key : Text
container_key = codes "Software\\Classes\\FolderVault.Container"

abbrev delete_key : Text
delete_key = container_key ++ codes "\\shell\\FolderVault.Delete"

abbrev lock_key : Text
lock_key = codes "Software\\Classes\\Directory\\shell\\FolderVault.Lock"

abbrev own_key : Text
own_key = codes "Software\\FolderVault"

-- `"{exe}" verb "%1"`
unfoldable pub command : Text → Text → Text
command exe verb = codes "\"" ++ (exe ++ (codes "\" " ++ (verb ++ codes " \"%1\"")))

-- `"{exe}",index`
unfoldable pub icon : Text → Text → Text
icon exe index = codes "\"" ++ (exe ++ (codes "\"," ++ index))

abbrev value : Text → Text → Text → Value
value subkey name content = record { subkey = subkey; name = name; content = content }

-- The values that `register` sets, in order.
unfoldable pub values : Text → List Value
unfolding command icon
values exe =
    value (codes "Software\\Classes\\.fvlt") [] (codes "FolderVault.Container")
    ∷ value container_key [] (codes "Locked folder (FolderVault)")
    ∷ value (container_key ++ codes "\\DefaultIcon") [] (icon exe (codes "-2"))
    ∷ value (container_key ++ codes "\\shell\\open\\command") [] (command exe (codes "open"))
    ∷ value delete_key [] (codes "Delete with FolderVault")
    ∷ value delete_key (codes "Icon") (icon exe (codes "-1"))
    ∷ value (delete_key ++ codes "\\command") [] (command exe (codes "delete"))
    ∷ value lock_key [] (codes "Lock with FolderVault")
    ∷ value lock_key (codes "Icon") (icon exe (codes "-1"))
    ∷ value (lock_key ++ codes "\\command") [] (command exe (codes "lock"))
    ∷ value own_key (codes "RegisteredExe") exe
    ∷ []

-- `set_value`
unfoldable pub set_value : Value → Registry → Registry
unfolding bytes_eq
set_value v reg subkey name =
    if bytes_eq v.subkey subkey && bytes_eq v.name name then some v.content else reg subkey name

module _ (refuses : Text → Text → Bool) where
  -- The calls of `set_value` with `?`: whether all succeeded.
  unfoldable pub set_values : List Value → Registry → Bool × Registry
  unfolding set_value
  set_values [] reg = (true, reg)
  set_values (v ∷ vs) reg =
      let rest = set_values vs (set_value v reg) in
      if refuses v.subkey v.name then (false, reg) else rest

  -- `register`
  unfoldable pub register : Text → Registry → Bool × Registry
  unfolding set_values values
  register exe reg = set_values (values exe) reg

-- `read_registered_exe`
unfoldable pub read_registered_exe : Registry → Option Text
read_registered_exe reg = reg own_key (codes "RegisteredExe")

-- `delete_verb_present`
unfoldable pub delete_verb_present : Registry → Bool
delete_verb_present reg = elim (reg (delete_key ++ codes "\\command") []) [
  | none ↦ false
  | some t ↦ true
]

-- `read_registered_exe().as_deref() != Some(want)`
unfoldable pub is_registered : Text → Registry → Bool
unfolding read_registered_exe bytes_eq
is_registered exe reg = elim (read_registered_exe reg) [ none ↦ false | some t ↦ bytes_eq t exe ]

-- `register_if_needed`
unfoldable pub register_if_needed : (Text → Text → Bool) → Text → Registry → Registry
unfolding register is_registered delete_verb_present
register_if_needed refuses exe reg =
    if not (is_registered exe reg) || not (delete_verb_present reg)
    then (register refuses exe reg).1
    else reg

-- The key itself, or one below it.
unfoldable pub is_within : Text → Text → Bool
is_within [] [] = true
is_within [] (c ∷ rest) = c == b'\\'
is_within (a ∷ tree) [] = false
is_within (a ∷ tree) (c ∷ rest) = a == c && is_within tree rest

-- `RegDeleteTreeW`, unless it is refused.
unfoldable pub delete_tree : (Text → Bool) → Text → Registry → Registry
unfolding is_within
delete_tree keeps tree reg subkey name =
    if is_within tree subkey && not (keeps tree) then none else reg subkey name

-- `unregister`
unfoldable pub unregister : (Text → Bool) → Registry → Registry
unfolding delete_tree
unregister keeps reg = delete_tree keeps own_key (
    delete_tree keeps (codes "Software\\Classes\\.fvlt")
      (delete_tree keeps container_key (delete_tree keeps lock_key reg)))
