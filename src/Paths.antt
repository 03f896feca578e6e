-- ===== src/Paths.antt =====
-- Relative paths from a manifest: format.rs, `is_safe_component` and `safe_join`, with the parts of
-- `std::path` on Windows that they use.
pub mod Join
use foldervault.Base.{
  ℕ, ◌+◌, Bool, true, false, not, ◌&&◌, ◌||◌, List, [], ◌∷◌, ◌++◌, Text, codes, ltb, leb, ◌==◌,
  bytes_eq, if◌then◌else◌,
}
use foldervault.Vault.{VaultError, tampered, Result, ok, err}

abbrev pub is_separator : ℕ → Bool
is_separator c = c == b'/' || c == b'\\'

-- `std::path::Component`
pub data Component : Type 0 where
  prefix root_dir cur_dir parent_dir : Component
  normal : Text → Component

-- The texts between separators.
unfoldable pub pieces : Text → List Text
pieces [] = [] ∷ []
pieces (c ∷ rest) =
    let more = pieces rest in
    if is_separator c then [] ∷ more else elim more [ [] ↦ (c ∷ []) ∷ [] | p ∷ ps ↦ (c ∷ p) ∷ ps ]

abbrev is_letter : ℕ → Bool
is_letter c = leb b'a' c && leb c b'z' || (leb b'A' c && leb c b'Z')

-- A drive, `C:`.
unfoldable pub has_drive : Text → Bool
has_drive (a ∷ b ∷ rest) = is_letter a && b == b':'
has_drive _ = false

unfoldable pub has_root : Text → Bool
has_root [] = false
has_root (c ∷ rest) = is_separator c

-- What follows two leading separators names a server and a share, or a device, if its first two
-- pieces are not empty.
unfoldable pub names_share : List Text → Bool
names_share ((a ∷ server) ∷ (b ∷ share) ∷ rest) = true
names_share _ = false

unfoldable pub is_share : Text → Bool
unfolding pieces names_share
is_share (a ∷ b ∷ rest) = is_separator a && is_separator b && names_share (pieces rest)
is_share _ = false

-- The component that a piece gives. Empty pieces and dots behind the first piece give none.
unfoldable pub piece : Text → List Component
unfolding bytes_eq
piece p =
    if bytes_eq p [] || bytes_eq p (codes ".")
    then []
    else if bytes_eq p (codes "..")
    then parent_dir ∷ []
    else normal p ∷ []

unfoldable pub body_components : List Text → List Component
unfolding piece
body_components [] = []
body_components (p ∷ ps) = piece p ++ body_components ps

-- A leading dot is kept.
unfoldable pub first_components : List Text → List Component
unfolding body_components
first_components [] = []
first_components (p ∷ ps) =
    if bytes_eq p (codes ".") then cur_dir ∷ body_components ps else piece p ++ body_components ps

-- `Path::components`. Of a path that begins with a drive, a share or a device only that prefix is
-- given, since the caller stops there.
unfoldable pub components : Text → List Component
unfolding pieces has_drive has_root is_share first_components
components t =
    if has_drive t || is_share t
    then prefix ∷ []
    else if has_root t
    then root_dir ∷ body_components (pieces t)
    else first_components (pieces t)

-- A path on the disk: the components of a location, or what a `push` put in its place.
pub data PathBuf : Type 0 where
  location : List Text → PathBuf
  replaced : Text → PathBuf

-- `PathBuf::push`: a text with a prefix or a root takes the place of the path.
unfoldable pub push : PathBuf → Text → PathBuf
unfolding has_drive has_root
push (location ps) name =
    if has_drive name || has_root name then replaced name else location (ps ++ (name ∷ []))
push (replaced t) name =
    if has_drive name || has_root name then replaced name else replaced (t ++ (b'\\' ∷ name))

abbrev pub reserved_names : List Text
reserved_names =
    codes "CON"
    ∷ codes "PRN"
    ∷ codes "AUX"
    ∷ codes "NUL"
    ∷ codes "COM1"
    ∷ codes "COM2"
    ∷ codes "COM3"
    ∷ codes "COM4"
    ∷ codes "COM5"
    ∷ codes "COM6"
    ∷ codes "COM7"
    ∷ codes "COM8"
    ∷ codes "COM9"
    ∷ codes "LPT1"
    ∷ codes "LPT2"
    ∷ codes "LPT3"
    ∷ codes "LPT4"
    ∷ codes "LPT5"
    ∷ codes "LPT6"
    ∷ codes "LPT7"
    ∷ codes "LPT8"
    ∷ codes "LPT9"
    ∷ []

-- The characters that the `any` of `is_safe_component` finds.
abbrev pub is_forbidden : ℕ → Bool
is_forbidden c =
    c == b':'
    || c == b'\\'
    || c == b'/'
    || c == b'<'
    || c == b'>'
    || c == b'"'
    || c == b'|'
    || c == b'?'
    || c == b'*'
    || ltb c 0x20

unfoldable pub has_forbidden : Text → Bool
has_forbidden [] = false
has_forbidden (c ∷ rest) = is_forbidden c || has_forbidden rest

-- `name.split('.').next()`
unfoldable pub stem : Text → Text
stem [] = []
stem (c ∷ rest) = if c == b'.' then [] else c ∷ stem rest

abbrev to_lower : ℕ → ℕ
to_lower c = if leb b'A' c && leb c b'Z' then c + 32 else c

-- `eq_ignore_ascii_case`
unfoldable pub eq_ignore_case : Text → Text → Bool
eq_ignore_case [] [] = true
eq_ignore_case (a ∷ s) (b ∷ t) = to_lower a == to_lower b && eq_ignore_case s t
eq_ignore_case _ _ = false

unfoldable pub is_reserved : List Text → Text → Bool
unfolding eq_ignore_case
is_reserved [] name = false
is_reserved (r ∷ rs) name = eq_ignore_case r name || is_reserved rs name

-- `name.ends_with(c)`
unfoldable pub ends_with : ℕ → Text → Bool
ends_with c [] = false
ends_with c (a ∷ []) = a == c
ends_with c (a ∷ b ∷ rest) = ends_with c (b ∷ rest)

-- `is_safe_component`
unfoldable pub is_safe_component : Text → Bool
unfolding bytes_eq has_forbidden stem is_reserved ends_with
is_safe_component name =
    if bytes_eq name [] || bytes_eq name (codes ".") || bytes_eq name (codes "..")
    then false
    else if has_forbidden name
    then false
    else if is_reserved reserved_names (stem name)
    then false
    else not (ends_with b' ' name || ends_with b'.' name)

-- The loop of `safe_join`.
unfoldable pub join_components : PathBuf → List Component → Result PathBuf
unfolding push is_safe_component
join_components out [] = ok out
join_components out (normal name ∷ rest) =
    let joined = join_components (push out name) rest in
    if is_safe_component name then joined else err tampered
join_components out (_ ∷ rest) = err tampered

-- `safe_join`, below a root given by its components.
unfoldable pub safe_join : List Text → Text → Result PathBuf
unfolding components join_components
safe_join root rel =
    if bytes_eq rel [] then err tampered else join_components (location root) (components rel)
