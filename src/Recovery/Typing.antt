-- ===== src/Recovery/Typing.antt =====
-- decode_code of recovery.rs on a recovery code that is typed in other ways than it was printed.
use foldervault.Base.{
  ℕ, ◌+◌, ◌≤◌, ◌≡◌, ◌⊎◌, inl, inr, refl, sym, ap, ◌∙◌, List, [], ◌∷◌, Option, some, arith, Bytes,
  Text, IsArray,
}
use foldervault.Primitives.{Primitives, IsLawful}
use foldervault.Recovery.Base32.{
  Reading, skipped, read_char, absorb, read_symbols, encode_code, decode_code, to_ascii_uppercase,
}
use foldervault.Recovery.Code.{decode_code-encode_code}

-- The second text is the first one typed: separators come and go, letters may be small, and the
-- look-alikes I, L and O stand for 1 and 0.
pub data Retyped : Text → Text → Type 0 where
  done : Retyped [] []
  keep : {t u : Text} (c : ℕ) → Retyped t u → Retyped (c ∷ t) (c ∷ u)
  separate : {t u : Text} (c : ℕ) → (c ≡ b'-') ⊎ (c ≡ b' ') → Retyped t u → Retyped t (c ∷ u)
  join : {t u : Text} (c : ℕ) → (c ≡ b'-') ⊎ (c ≡ b' ') → Retyped t u → Retyped (c ∷ t) u
  lower : {t u : Text} (c : ℕ) → b'A' ≤ c → c ≤ b'Z' → Retyped t u → Retyped (c ∷ t) ((c + 32) ∷ u)
  one :
      {t u : Text} (c d : ℕ)
      → c ≡ b'1'
      → (d ≡ b'I') ⊎ (d ≡ b'L') ⊎ (d ≡ b'i') ⊎ (d ≡ b'l')
      → Retyped t u
      → Retyped (c ∷ t) (d ∷ u)
  null :
      {t u : Text} (c d : ℕ)
      → c ≡ b'0'
      → (d ≡ b'O') ⊎ (d ≡ b'o')
      → Retyped t u
      → Retyped (c ∷ t) (d ∷ u)

read_char_at : (c d : ℕ) → c ≡ d → read_char c ≡ read_char d
read_char_at c d e = ap read_char e

read_separator : (c : ℕ) → (c ≡ b'-') ⊎ (c ≡ b' ') → read_char c ≡ skipped
unfolding read_char
read_separator c (inl e) = rw e
read_separator c (inr e) = rw e

read_lower : (c : ℕ) → b'A' ≤ c → c ≤ b'Z' → read_char (c + 32) ≡ read_char c
unfolding read_char
read_lower c lo hi =
    let up : to_ascii_uppercase (c + 32) ≡ to_ascii_uppercase c = ground arith in rw (up, read_char)

read_one :
    (c d : ℕ)
    → c ≡ b'1'
    → (d ≡ b'I') ⊎ (d ≡ b'L') ⊎ (d ≡ b'i') ⊎ (d ≡ b'l')
    → read_char c ≡ read_char d
unfolding read_char
read_one c d e (inl f) = rw (e, f)
read_one c d e (inr (inl f)) = rw (e, f)
read_one c d e (inr (inr (inl f))) = rw (e, f)
read_one c d e (inr (inr (inr f))) = rw (e, f)

read_null : (c d : ℕ) → c ≡ b'0' → (d ≡ b'O') ⊎ (d ≡ b'o') → read_char c ≡ read_char d
unfolding read_char
read_null c d e (inl f) = rw (e, f)
read_null c d e (inr f) = rw (e, f)

absorb-cong : (r s : Reading) (o o' : Option (List ℕ)) → r ≡ s → o ≡ o' → absorb r o ≡ absorb s o'
absorb-cong r s o o' p q = cc

read_symbols-Retyped : {t u : Text} → Retyped t u → read_symbols t ≡ read_symbols u
unfolding read_symbols
read_symbols-Retyped done = refl
read_symbols-Retyped (keep c r) = ap (absorb (read_char c)) (read_symbols-Retyped r)
read_symbols-Retyped (separate {u = u} c s r) = read_symbols-Retyped r ∙ rw (read_separator c s)
read_symbols-Retyped (join c s r) = rw (read_separator c s) (read_symbols-Retyped r)
read_symbols-Retyped (lower c lo hi r) =
    absorb-cong _ _ _ _ (sym (read_lower c lo hi)) (read_symbols-Retyped r)
read_symbols-Retyped (one c d e f r) =
    absorb-cong _ _ _ _ (read_one c d e f) (read_symbols-Retyped r)
read_symbols-Retyped (null c d e f r) =
    absorb-cong _ _ _ _ (read_null c d e f) (read_symbols-Retyped r)

-- However the printed code is typed, with other separators, small letters, or I and L for 1 and O
-- for 0, it decodes to the 32-byte secret.
pub decode_code-Retyped :
    (P : Primitives)
    → IsLawful P
    → (secret : Bytes) {typed : Text} → IsArray 32 secret
    → Retyped (encode_code P secret) typed
    → decode_code P typed ≡ some secret
unfolding decode_code
decode_code-Retyped P L secret w r =
    rw (decode_code, ← read_symbols-Retyped r) (decode_code-encode_code P L secret w)
