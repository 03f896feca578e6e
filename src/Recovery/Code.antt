-- ===== src/Recovery/Code.antt =====
-- encode_code of recovery.rs, and then decode_code.
use foldervault.Base.{
  ℕ, zero, suc, ◌+◌, ◌*◌, ◌/◌, ◌%◌, ◌^◌, ◌<◌, ◌≡◌, refl, ap, ◌∙◌, Bool, true, false, List, [], ◌∷◌,
  ◌++◌, map, append_assoc, some, arith, Bytes, Text, ◌==◌, length, length-append, take, take-append,
  drop-append, length-take, All, IsArray, All-append, all_below, all_below_sound, bytes_eq_refl,
  eq→==,
}
use foldervault.Primitives.{Primitives, IsLawful}
use foldervault.Recovery.Base32.{
  symbol, Reading, value, skipped, unknown, read_char, absorb, read_symbols, dashed, encode_base32,
  check_symbols, encode_code, decode_symbols, decode_code, decode_run,
}
use foldervault.Recovery.Quintets.{quintets, finished-quintets}
use foldervault.Recovery.Regroup.{decode_run-quintets}

abbrev IsDigit : ℕ → Type 0
IsDigit v = v < 32

abbrev reads : Reading → ℕ → Bool
reads skipped v = false
reads unknown v = false
reads (value w) v = w == v

symbol_table : all_below (λ v. reads (read_char (symbol v)) v) 32 ≡ true
unfolding all_below read_char symbol
symbol_table = refl

reads_sound : (r : Reading) (v : ℕ) → reads r v ≡ true → r ≡ value v
reads_sound skipped v h = cc
reads_sound unknown v h = cc
reads_sound (value w) v h = ground arith

-- Each symbol is read as the value that it was printed for.
read_char-symbol : (v : ℕ) → IsDigit v → read_char (symbol v) ≡ value v
read_char-symbol v h =
    reads_sound (read_char (symbol v)) v
      (all_below_sound (λ u. reads (read_char (symbol u)) u) 32 v h symbol_table)

read_symbols-map-symbol : (vs : List ℕ) → All IsDigit vs → read_symbols (map symbol vs) ≡ some vs
unfolding read_symbols
read_symbols-map-symbol [] h = refl
read_symbols-map-symbol (v ∷ vs) (hv, hvs) =
    rw (read_char-symbol v hv, read_symbols-map-symbol vs hvs)

-- The dashes between the groups are skipped.
read_symbols-dashed : (xs : Text) → read_symbols (dashed xs) ≡ read_symbols xs
unfolding read_symbols dashed
read_symbols-dashed (a ∷ b ∷ c ∷ d ∷ e ∷ rest) =
    ap
      (λ o.
        absorb (read_char a) (absorb (read_char b) (absorb (read_char c) (absorb (read_char d) o))))
      (read_symbols-dashed (e ∷ rest))
read_symbols-dashed _ = refl

quintets-IsDigit : (bs : Bytes) (k a : ℕ) → All IsDigit (quintets k a bs)
unfolding quintets
quintets-IsDigit [] zero a = tt
quintets-IsDigit [] (suc k) a = omega arith
quintets-IsDigit (b ∷ bs) zero a = (omega arith, quintets-IsDigit bs 3 (b % 8))
quintets-IsDigit (b ∷ bs) (suc zero) a = (omega arith, quintets-IsDigit bs 4 ((a * 256 + b) % 16))
quintets-IsDigit (b ∷ bs) (suc (suc k)) a =
    (omega arith, (omega arith, quintets-IsDigit bs k ((a * 256 + b) % 2 ^ k)))

length-quintets :
    (bs : Bytes) (k a : ℕ) → k < 5 → length (quintets k a bs) ≡ (8 * length bs + k + 4) / 5
unfolding quintets
length-quintets [] zero a h = refl
length-quintets [] (suc k) a h = omega arith
length-quintets (b ∷ bs) zero a h = omega (arith, length-quintets bs 3 (b % 8) (omega arith))
length-quintets (b ∷ bs) (suc zero) a h =
    omega (arith, length-quintets bs 4 ((a * 256 + b) % 16) (omega arith))
length-quintets (b ∷ bs) (suc (suc k)) a h =
    omega (arith, length-quintets bs k ((a * 256 + b) % 2 ^ k) (omega arith))

encode_base32-quintets :
    (secret : Bytes)
    → IsArray 32 secret
    → encode_base32 secret 52 [] ≡ map symbol (quintets 0 0 secret)
unfolding encode_base32
encode_base32-quintets secret w = finished-quintets secret 0 0 0 [] (omega arith) w.1 (omega arith)

-- Three bytes fill four symbols.
abbrev Checks : (Bytes → Bytes) → Type 0
Checks f =
    (vs : List ℕ) × (length vs ≡ 4)
    × All IsDigit vs
    × ((out : Bytes) → f out ≡ out ++ map symbol vs)

encode_three : (xs : Bytes) → length xs ≡ 3 → Checks (encode_base32 xs 4)
unfolding encode_base32
encode_three [] h = absurd (omega arith)
encode_three (a ∷ []) h = absurd (omega arith)
encode_three (a ∷ b ∷ []) h = absurd (omega arith)
encode_three (a ∷ b ∷ c ∷ []) h =
    let x : ℕ = 0 * 256 % 2 ^ 32 + a in
    let y : ℕ = x * 256 % 2 ^ 32 + b in
    let z : ℕ = y * 256 % 2 ^ 32 + c in
    (
      x / 2 ^ 3 % 32 ∷ y / 2 ^ 6 % 32 ∷ y / 2 ^ 1 % 32 ∷ z / 2 ^ 4 % 32 ∷ [],
      refl,
      omega arith,
      λ out. simp append_assoc,
    )
encode_three (a ∷ b ∷ c ∷ d ∷ xs) h = absurd (omega arith)

map-append_symbol : (xs ys : List ℕ) → map symbol xs ++ map symbol ys ≡ map symbol (xs ++ ys)
map-append_symbol [] ys = refl
map-append_symbol (x ∷ xs) ys = ap (λ t. symbol x ∷ t) (map-append_symbol xs ys)

module _ (P : Primitives) where
  -- The symbols' values of the data and of the checksum decode to the secret.
  decode_symbols-quintets :
      (secret : Bytes) (vs : List ℕ)
      → IsArray 32 secret
      → length vs ≡ 4
      → check_symbols P secret [] ≡ map symbol vs
      → decode_symbols P (quintets 0 0 secret ++ vs) ≡ some secret
  unfolding decode_symbols
  decode_symbols-quintets secret vs w hv checked =
      let size : length (quintets 0 0 secret) ≡ 52 =
        omega (arith, length-quintets secret 0 0 (omega arith)) in
      let decoded : decode_run 0 0 [] (quintets 0 0 secret) ≡ secret =
        decode_run-quintets secret 0 0 0 [] (omega arith) (omega arith) (omega arith) w.1
          (omega arith) in
      rw (
        decode_symbols,
        eq→== (length (quintets 0 0 secret ++ vs)) 56
            (omega (arith, length-append (quintets 0 0 secret) vs)),
        take-append 52 (quintets 0 0 secret) vs size,
        drop-append 52 (quintets 0 0 secret) vs size,
        decoded,
        eq→== (length secret) 32 w.0,
        checked,
        bytes_eq_refl (map symbol vs),
      )

  -- The values of the symbols of a printed code: the data's, and those of the checksum.
  read_symbols-encode_code :
      (secret : Bytes) (vs : List ℕ)
      → IsArray 32 secret
      → All IsDigit vs
      → ((out : Bytes) → encode_base32 (take 3 (P.sha256 secret)) 4 out ≡ out ++ map symbol vs)
      → read_symbols (encode_code P secret) ≡ some (quintets 0 0 secret ++ vs)
  unfolding encode_code check_symbols
  read_symbols-encode_code secret vs w digits prints =
      read_symbols-dashed (encode_base32 (take 3 (P.sha256 secret)) 4 (encode_base32 secret 52 []))
      ∙ ap read_symbols (
          prints (encode_base32 secret 52 [])
          ∙ ap (λ t. t ++ map symbol vs) (encode_base32-quintets secret w)
          ∙ map-append_symbol (quintets 0 0 secret) vs)
      ∙ read_symbols-map-symbol (quintets 0 0 secret ++ vs)
          (All-append IsDigit (quintets 0 0 secret) vs (quintets-IsDigit secret 0 0) digits)

  -- The code printed for a 32-byte secret decodes to that secret.
  pub decode_code-encode_code :
      IsLawful P
      → (secret : Bytes) → IsArray 32 secret
      → decode_code P (encode_code P secret) ≡ some secret
  unfolding decode_code check_symbols
  decode_code-encode_code L secret w =
      let (vs, four, digits, prints) =
        encode_three (take 3 (P.sha256 secret))
          (omega (arith, length-take 3 (P.sha256 secret), (L.sha256-IsArray secret).0)) in
      rw (decode_code, read_symbols-encode_code secret vs w digits prints)
        (decode_symbols-quintets secret vs w four (prints []))
