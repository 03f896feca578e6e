-- ===== src/Walk/Relative.antt =====
-- The relative paths that `rel_path` writes are those that `safe_join` reads.
use foldervault.Base.{
  ℕ, ◌≡◌, ◌≢◌, refl, sym, ap, ◌∙◌, append-nil, append_assoc, true, false, List, [], ◌∷◌, ◌++◌, map,
  arith, Text, codes, bytes_eq-false, All,
}
use foldervault.Vault.{ok}
use foldervault.Paths.{
  normal, location, pieces, piece, has_drive, has_root, is_share, body_components, first_components,
  components, is_safe_component, join_components, safe_join,
}
use foldervault.Paths.Join.{IsPlain, IsEntry, is_safe_component-IsEntry, push-location}
use foldervault.Walk.{slash_join}

pieces-plain : (n : Text) → All IsPlain n → pieces n ≡ n ∷ []
unfolding pieces
pieces-plain [] h = refl
pieces-plain (c ∷ n) (hc, h) = rw (pieces-plain n h) (ground arith)

pieces-slash : (n t : Text) → All IsPlain n → pieces (n ++ (b'/' ∷ t)) ≡ n ∷ pieces t
unfolding pieces
pieces-slash [] t h = refl
pieces-slash (c ∷ n) t (hc, h) = rw (pieces-slash n t h) (ground arith)

pieces-slash_join :
    (n : Text) (ns : List Text) → All IsEntry (n ∷ ns) → pieces (slash_join (n ∷ ns)) ≡ n ∷ ns
unfolding slash_join
pieces-slash_join n [] (h, _) = pieces-plain n h.characters
pieces-slash_join n (m ∷ ns) (h, hs) =
    pieces-slash n (slash_join (m ∷ ns)) h.characters ∙ ap (λ t. n ∷ t) (pieces-slash_join m ns hs)

piece-IsEntry : (n : Text) → IsEntry n → piece n ≡ normal n ∷ []
unfolding piece
piece-IsEntry n h = rw (
  piece,
  bytes_eq-false n [] h.named,
  bytes_eq-false n (codes ".") h.not_self,
  bytes_eq-false n (codes "..") h.not_parent,
)

body_components-IsEntry : (ns : List Text) → All IsEntry ns → body_components ns ≡ map normal ns
unfolding body_components
body_components-IsEntry [] h = refl
body_components-IsEntry (n ∷ ns) (h, hs) = rw (piece-IsEntry n h, body_components-IsEntry ns hs)

first_components-IsEntry :
    (n : Text) (ns : List Text)
    → All IsEntry (n ∷ ns)
    → first_components (n ∷ ns) ≡ map normal (n ∷ ns)
unfolding first_components
first_components-IsEntry n ns (h, hs) = rw (
  bytes_eq-false n (codes ".") h.not_self,
  bytes_eq-false n [] h.named,
  bytes_eq-false n (codes "..") h.not_parent,
  body_components-IsEntry ns hs,
)

-- A text begins with an entry's name: with no drive, share or root.
abbrev StartsPlain : Text → Type 0
StartsPlain t = (has_drive t ≡ false) × (is_share t ≡ false) × (has_root t ≡ false)

starts_one : (a : ℕ) → IsPlain a → StartsPlain (a ∷ [])
unfolding has_drive is_share has_root
starts_one a h = ground arith

starts_two : (a b : ℕ) (t : Text) → IsPlain a → b ≢ b':' → StartsPlain (a ∷ b ∷ t)
unfolding has_drive is_share has_root
starts_two a b t h hb = ground arith

starts_plain :
    (n : Text) (ns : List Text) → All IsEntry (n ∷ ns) → StartsPlain (slash_join (n ∷ ns))
unfolding slash_join
starts_plain [] ns (h, hs) = absurd (h.named refl)
starts_plain (a ∷ []) [] (h, hs) = starts_one a h.characters.0
starts_plain (a ∷ []) (m ∷ ns) (h, hs) =
    starts_two a b'/' (slash_join (m ∷ ns)) h.characters.0 (omega arith)
starts_plain (a ∷ b ∷ n) [] (h, hs) = starts_two a b n h.characters.0 h.characters.1.0.2
starts_plain (a ∷ b ∷ n) (m ∷ ns) (h, hs) =
    starts_two a b (n ++ (b'/' ∷ slash_join (m ∷ ns))) h.characters.0 h.characters.1.0.2

slash_join-ne_nil : (n : Text) (ns : List Text) → All IsEntry (n ∷ ns) → slash_join (n ∷ ns) ≢ []
unfolding slash_join
slash_join-ne_nil [] ns (h, hs) e = h.named refl
slash_join-ne_nil (a ∷ n) [] h e = cc
slash_join-ne_nil (a ∷ n) (m ∷ ns) h e = cc

components-slash_join :
    (n : Text) (ns : List Text)
    → All IsEntry (n ∷ ns)
    → components (slash_join (n ∷ ns)) ≡ map normal (n ∷ ns)
unfolding components
components-slash_join n ns h =
    let (d, s, r) = starts_plain n ns h in
    rw (components, d, s, r, pieces-slash_join n ns h) (first_components-IsEntry n ns h)

join_components-safe :
    (ns root : List Text)
    → All (λ n. is_safe_component n ≡ true) ns
    → join_components (location root) (map normal ns) ≡ ok (location (root ++ ns))
unfolding join_components
join_components-safe [] root h = ap (λ t. ok (location t)) (sym (append-nil root))
join_components-safe (n ∷ ns) root (h, hs) =
    rw (push-location root n (is_safe_component-IsEntry n h), h)
      (join_components-safe ns (root ++ (n ∷ [])) hs
        ∙ ap (λ t. ok (location t)) (append_assoc root (n ∷ []) ns))

All-IsEntry : (ns : List Text) → All (λ n. is_safe_component n ≡ true) ns → All IsEntry ns
All-IsEntry [] h = tt
All-IsEntry (n ∷ ns) (h, hs) = (is_safe_component-IsEntry n h, All-IsEntry ns hs)

-- The relative path of names that are all safe, joined by slashes as the scan writes it, is joined
-- back to the same names below any root.
pub safe_join-slash_join :
    (root : List Text) (n : Text) (ns : List Text)
    → All (λ m. is_safe_component m ≡ true) (n ∷ ns)
    → safe_join root (slash_join (n ∷ ns)) ≡ ok (location (root ++ (n ∷ ns)))
unfolding safe_join
safe_join-slash_join root n ns h =
    rw
      (
        safe_join,
        bytes_eq-false (slash_join (n ∷ ns)) [] (slash_join-ne_nil n ns (All-IsEntry (n ∷ ns) h)),
        components-slash_join n ns (All-IsEntry (n ∷ ns) h),
      )
      (join_components-safe (n ∷ ns) root h)
