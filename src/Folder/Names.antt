-- ===== src/Folder/Names.antt =====
-- The parts of `std::path::Path` that lock_folder and unlock_container of format.rs use. A path is
-- the list of its components; the disk knows it by its text.
use foldervault.Base.{
  ◌≡◌, ◌≢◌, refl, sym, ap, ℕ, suc, ◌+◌, ◌<◌, arith, length, length-append, Option-cases, inl, inr,
  List, [], ◌∷◌, ◌++◌, Option, none, some, Text, codes, ◌==◌, if◌then◌else◌,
}

unfoldable pub path_text : List Text → Text
path_text [] = []
path_text (p ∷ []) = p
path_text (p ∷ q ∷ ps) = p ++ (b'\\' ∷ path_text (q ∷ ps))

-- `Path::file_name`
unfoldable pub file_name : List Text → Option Text
file_name [] = none
file_name (p ∷ []) = some p
file_name (p ∷ q ∷ ps) = file_name (q ∷ ps)

-- `Path::parent`
unfoldable pub parent : List Text → Option (List Text)
parent [] = none
parent (p ∷ []) = some []
parent (p ∷ q ∷ ps) = elim (parent (q ∷ ps)) [ none ↦ none | some up ↦ some (p ∷ up) ]

-- The text before the last dot, if there is one.
unfoldable pub before_last_dot : Text → Option Text
before_last_dot [] = none
before_last_dot (c ∷ rest) = elim (before_last_dot rest) [
  | some t ↦ some (c ∷ t)
  | none ↦ (if c == b'.' then some [] else none)
]

-- `Path::file_stem`, of a name: a name without a dot, or with a leading one only, is its own stem.
unfoldable pub file_stem : Text → Text
unfolding before_last_dot
file_stem name = elim (before_last_dot name) [
  | none ↦ name
  | some [] ↦ name
  | some (c ∷ rest) ↦ c ∷ rest
]

abbrev pub sibling : List Text → Text → Text
sibling up name = path_text (up ++ (name ∷ []))

pub split-path :
    (path up : List Text) (name : Text)
    → file_name path ≡ some name
    → parent path ≡ some up
    → path ≡ up ++ (name ∷ [])
unfolding file_name parent
split-path [] up name h g = absurd cc
split-path (p ∷ []) up name h g = cc
split-path (p ∷ q ∷ ps) up name h g = elim (Option-cases (parent (q ∷ ps))) [
  | inl nothing ↦ absurd (cc (rw (parent, nothing) at g))
  | inr (up', above) ↦
      let same : p ∷ up' ≡ up = cc (rw (parent, above) at g) in
      rw (split-path (q ∷ ps) up' name h above, sym same) refl
]

-- Siblings differ in length as their names do.
pub length-sibling :
    (up : List Text) → (n : ℕ) × ((name : Text) → length (sibling up name) ≡ n + length name)
unfolding path_text
length-sibling [] = (0, λ name. omega arith)
length-sibling (p ∷ []) = (suc (length p), λ name. omega (arith, length-append p (b'\\' ∷ name)))
length-sibling (p ∷ q ∷ ps) =
    let (n, h) = length-sibling (q ∷ ps) in
    (suc (length p + n), λ name. omega (arith, length-append p _, h name))

-- Longer names name other paths.
pub sibling-apart :
    (up : List Text) (name name' : Text)
    → length name < length name'
    → sibling up name ≢ sibling up name'
sibling-apart up name name' h same =
    let (n, count) = length-sibling up in omega (arith, h, count name, count name', ap length same)

-- The names of a lock: the staging file, the folder and the container.
pub lock_names-apart :
    (path up : List Text) (name : Text)
    → path ≡ up ++ (name ∷ [])
    → (sibling up (name ++ codes ".fvlt.tmp") ≢ path_text path)
      × (sibling up (name ++ codes ".fvlt.tmp") ≢ sibling up (name ++ codes ".fvlt"))
      × (path_text path ≢ sibling up (name ++ codes ".fvlt"))
lock_names-apart path up name split =
    let len : (more : Text) → length (name ++ more) ≡ length name + length more =
      length-append name in
    let apart = sibling-apart up in
    (
      λ same. apart name (name ++ codes ".fvlt.tmp") (omega (arith, len)) (rw (same, split) refl),
      λ same.
          apart (name ++ codes ".fvlt") (name ++ codes ".fvlt.tmp") (omega (arith, len)) (sym same),
      λ same. apart name (name ++ codes ".fvlt") (omega (arith, len)) (rw split at same),
    )

-- The names of an unlock: the staging folder, the folder and the container.
pub unlock_names-apart :
    (up : List Text) (base : Text)
    → (sibling up (base ++ codes ".__restoring") ≢ sibling up base)
      × (sibling up (base ++ codes ".__restoring") ≢ sibling up (base ++ codes ".fvlt"))
      × (sibling up base ≢ sibling up (base ++ codes ".fvlt"))
unlock_names-apart up base =
    let len : (more : Text) → length (base ++ more) ≡ length base + length more =
      length-append base in
    let apart = sibling-apart up in
    let name = base ++ codes ".fvlt" in
    let staging = base ++ codes ".__restoring" in
    (
      λ same. apart base staging (omega (arith, len)) (sym same),
      λ same. apart name staging (omega (arith, len)) (sym same),
      apart base name (omega (arith, len)),
    )

-- A path in its directory.
pub file_name-append : (up : List Text) (name : Text) → file_name (up ++ (name ∷ [])) ≡ some name
unfolding file_name
file_name-append [] name = refl
file_name-append (p ∷ []) name = refl
file_name-append (p ∷ q ∷ ps) name = file_name-append (q ∷ ps) name

pub parent-append : (up : List Text) (name : Text) → parent (up ++ (name ∷ [])) ≡ some up
unfolding parent
parent-append [] name = refl
parent-append (p ∷ []) name = refl
parent-append (p ∷ q ∷ ps) name = rw (parent, parent-append (q ∷ ps) name) refl

before_last_dot-append : (base : Text) → before_last_dot (base ++ codes ".fvlt") ≡ some base
unfolding before_last_dot
before_last_dot-append [] = refl
before_last_dot-append (c ∷ rest) = rw (before_last_dot, before_last_dot-append rest) refl

-- The stem of a container's name is the folder's name.
pub file_stem-append : (base : Text) → base ≢ [] → file_stem (base ++ codes ".fvlt") ≡ base
unfolding file_stem
file_stem-append [] some_name = absurd (some_name refl)
file_stem-append (c ∷ rest) some_name = rw (file_stem, before_last_dot-append (c ∷ rest)) refl
