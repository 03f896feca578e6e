-- ===== src/Paths/Join.antt =====
-- What `safe_join` of format.rs returns, and which paths it joins.
use foldervault.Base.{
  sym, ℕ, ◌≤◌, ◌≡◌, ◌≢◌, refl, ap, ◌∙◌, true, false, ◌||◌, List, [], ◌∷◌, ◌++◌, append_assoc,
  append-nil, arith, Text, codes, bytes_eq, bytes_eq_iff, All, Bool-cases, inl, inr, map,
}
use foldervault.Vault.{ok}
use foldervault.Paths.{
  Component, prefix, root_dir, cur_dir, parent_dir, normal, PathBuf, location, has_drive, has_root,
  push, is_safe_component, has_forbidden, join_components, safe_join, components,
}

-- A name that means one entry of a directory: no separator, no colon and no control character.
abbrev pub IsPlain : ℕ → Type 0
IsPlain c = (c ≢ b'/') × (c ≢ b'\\') × (c ≢ b':') × (32 ≤ c)

pub record IsEntry (name : Text) : Type 0 where
  pub characters : All IsPlain name
  pub named : name ≢ []
  pub not_self : name ≢ codes "."
  pub not_parent : name ≢ codes ".."

has_forbidden-IsPlain : (name : Text) → has_forbidden name ≡ false → All IsPlain name
unfolding has_forbidden
has_forbidden-IsPlain [] h = tt
has_forbidden-IsPlain (c ∷ name) h = (ground arith, has_forbidden-IsPlain name (ground arith))

pub is_safe_component-IsEntry : (name : Text) → is_safe_component name ≡ true → IsEntry name
unfolding is_safe_component
is_safe_component-IsEntry name h = record {
  characters = has_forbidden-IsPlain name (ground arith);
  named = ground (arith, bytes_eq_iff name []);
  not_self = ground (arith, bytes_eq_iff name (codes "."));
  not_parent = ground (arith, bytes_eq_iff name (codes ".."));
}

-- Such a name has neither a drive nor a root, so that it is pushed below the path.
pub no_drive : (name : Text) → All IsPlain name → (has_drive name || has_root name) ≡ false
unfolding has_drive has_root
no_drive [] h = refl
no_drive (a ∷ []) h = ground arith
no_drive (a ∷ b ∷ rest) h = ground arith

pub push-location :
    (ps : List Text) (name : Text)
    → IsEntry name
    → push (location ps) name ≡ location (ps ++ (name ∷ []))
unfolding push
push-location ps name e = rw (push, no_drive name e.characters)

-- A path below `root`: the names that lead to it are names of entries.
abbrev pub IsBelow : List Text → PathBuf → List Text → Type 0
IsBelow root p names = (p ≡ location (root ++ names)) × All IsEntry names

-- The loop accepts nothing but names, and joins them in order.
join_components_lem :
    (cs : List Component) (root : List Text) (p : PathBuf)
    → join_components (location root) cs ≡ ok p
    → (names : List Text) × IsBelow root p names × (cs ≡ map normal names)
unfolding join_components
join_components_lem [] root p h = ([], (ground (arith, append-nil root), tt), refl)
join_components_lem (normal name ∷ rest) root p h = elim (Bool-cases (is_safe_component name)) [
  | inl safe ↦
      let entry = is_safe_component-IsEntry name safe in
      let (names, (e, all), c) =
        join_components_lem rest (root ++ (name ∷ [])) p
          (rw (safe, push-location root name entry) at h) in
      (name ∷ names, (e ∙ ap location (append_assoc root (name ∷ []) names), (entry, all)), cc c)
  | inr unsafe ↦ absurd (ground arith)
]
join_components_lem (prefix ∷ rest) root p h = absurd (cc)
join_components_lem (root_dir ∷ rest) root p h = absurd (cc)
join_components_lem (cur_dir ∷ rest) root p h = absurd (cc)
join_components_lem (parent_dir ∷ rest) root p h = absurd (cc)

-- No relative path leads out of the root: what `safe_join` returns lies below it, by names that each
-- mean one entry of a directory, with no separator, colon or control character and neither empty nor
-- a dot or two, and these names are the path's components.
pub safe_join-IsBelow :
    (root : List Text) (rel : Text) (p : PathBuf)
    → safe_join root rel ≡ ok p
    → (names : List Text) × IsBelow root p names × (components rel ≡ map normal names)
unfolding safe_join
safe_join-IsBelow root rel p h = elim (Bool-cases (bytes_eq rel [])) [
  | inl empty ↦ absurd (ground arith)
  | inr more ↦ join_components_lem (components rel) root p (ground arith)
]

join_components_moved :
    (cs : List Component) (root root' : List Text) (p : PathBuf)
    → join_components (location root) cs ≡ ok p
    → (names : List Text) × (join_components (location root') cs ≡ ok (location (root' ++ names)))
unfolding join_components
join_components_moved [] root root' p h = ([], ap (λ t. ok (location t)) (sym (append-nil root')))
join_components_moved (normal name ∷ rest) root root' p h =
    elim (Bool-cases (is_safe_component name)) [
      | inl safe ↦
          let entry = is_safe_component-IsEntry name safe in
          let (names, moved) =
            join_components_moved rest (root ++ (name ∷ [])) (root' ++ (name ∷ [])) p
              (rw (safe, push-location root name entry) at h) in
          (
            name ∷ names,
            rw (safe, push-location root' name entry)
                (moved ∙ ap (λ t. ok (location t)) (append_assoc root' (name ∷ []) names)),
          )
      | inr unsafe ↦ absurd (ground arith)
    ]
join_components_moved (prefix ∷ rest) root root' p h = absurd (cc)
join_components_moved (root_dir ∷ rest) root root' p h = absurd (cc)
join_components_moved (cur_dir ∷ rest) root root' p h = absurd (cc)
join_components_moved (parent_dir ∷ rest) root root' p h = absurd (cc)

-- A path that is joined to one root is joined to every root.
pub safe_join_moved :
    (root root' : List Text) (rel : Text) (p : PathBuf)
    → safe_join root rel ≡ ok p
    → (names : List Text) × (safe_join root' rel ≡ ok (location (root' ++ names)))
unfolding safe_join
safe_join_moved root root' rel p h = elim (Bool-cases (bytes_eq rel [])) [
  | inl empty ↦ absurd (ground arith)
  | inr more ↦
      let (names, moved) = join_components_moved (components rel) root root' p (ground arith) in
      (names, rw (safe_join, more) moved)
]
