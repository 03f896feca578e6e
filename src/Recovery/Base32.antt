-- ===== src/Recovery/Base32.antt =====
-- recovery.rs: `encode_base32`, `encode_code` and `decode_code`, the Crockford form of a 256-bit secret.
use foldervault.Base.{
  ℕ, zero, suc, ◌+◌, ◌-◌, ◌*◌, ◌/◌, ◌%◌, ◌^◌, true, false, not, ◌&&◌, ◌||◌, List, [], ◌∷◌, ◌++◌,
  Option, none, some, map, Bytes, Text, codes, ltb, leb, ◌==◌, bytes_eq, if◌then◌else◌, length,
  take, drop, get_or,
}
use foldervault.Primitives.{Primitives}

abbrev pub crockford : Bytes
crockford = codes "0123456789ABCDEFGHJKMNPQRSTVWXYZ"

abbrev pub code_data_chars : ℕ
code_data_chars = 52

abbrev pub code_check_chars : ℕ
code_check_chars = 4

-- `CROCKFORD[v]`
unfoldable pub symbol : ℕ → ℕ
symbol v = get_or crockford v 0

-- The variables of the loop of `encode_base32`.
pub record Encoder : Type 0 where
  pub acc : ℕ
  pub bits : ℕ
  pub emitted : ℕ
  pub out : Bytes

-- `while bits >= 5 && emitted < n_chars`. A round takes five bits, so `bits` rounds are enough.
unfoldable pub drain : ℕ → ℕ → Encoder → Encoder
unfolding symbol
drain zero n_chars s = s
drain (suc fuel) n_chars s = elim (leb 5 s.bits && ltb s.emitted n_chars) [
  | true ↦ drain fuel n_chars (record s {
    bits = s.bits - 5;
    out = s.out ++ (symbol (s.acc / 2 ^ (s.bits - 5) % 32) ∷ []);
    emitted = s.emitted + 1;
  })
  | false ↦ s
]

-- One round of `for &b in bytes`. The shift of the `u32` drops its top bits and leaves room for `b`.
unfoldable pub push_byte : ℕ → Encoder → ℕ → Encoder
unfolding drain
push_byte n_chars s b =
    drain (s.bits + 8) n_chars (record s { acc = s.acc * 256 % 2 ^ 32 + b; bits = s.bits + 8 })

unfoldable pub push_bytes : ℕ → Encoder → Bytes → Encoder
unfolding push_byte
push_bytes n_chars s [] = s
push_bytes n_chars s (b ∷ bs) = push_bytes n_chars (push_byte n_chars s b) bs

-- The flush of the remaining bits, left-aligned.
unfoldable pub flush : ℕ → Encoder → Bytes
unfolding symbol
flush n_chars s =
    if ltb s.emitted n_chars
    then s.out ++ (symbol (s.acc * 2 ^ (5 - s.bits) % 2 ^ 32 % 32) ∷ [])
    else s.out

-- `encode_base32`
unfoldable pub encode_base32 : Bytes → ℕ → Bytes → Bytes
unfolding push_bytes flush
encode_base32 bytes n_chars out =
    flush n_chars (push_bytes n_chars (record { acc = 0; bits = 0; emitted = 0; out = out }) bytes)

-- `chars.chunks(4)` joined by dashes.
unfoldable pub dashed : Bytes → Text
dashed (a ∷ b ∷ c ∷ d ∷ e ∷ rest) = a ∷ b ∷ c ∷ d ∷ b'-' ∷ dashed (e ∷ rest)
dashed rest = rest

module _ (P : Primitives) where
  -- The checksum symbols of a secret.
  unfoldable pub check_symbols : Bytes → Bytes → Bytes
  unfolding encode_base32
  check_symbols secret out = encode_base32 (take 3 (P.sha256 secret)) code_check_chars out

  -- `encode_code`
  unfoldable pub encode_code : Bytes → Text
  unfolding encode_base32 check_symbols dashed
  encode_code secret = dashed (check_symbols secret (encode_base32 secret code_data_chars []))

-- `to_ascii_uppercase`
unfoldable pub to_ascii_uppercase : ℕ → ℕ
to_ascii_uppercase c = if leb b'a' c && leb c b'z' then c - 32 else c

-- The place of a byte in a list, counted from `i`.
unfoldable pub position : ℕ → Bytes → ℕ → Option ℕ
position c [] i = none
position c (a ∷ rest) i = if a == c then some i else position c rest (i + 1)

-- What one character of a code stands for: nothing, a symbol's value, or an error.
pub data Reading : Type 0 where
  skipped : Reading
  value : ℕ → Reading
  unknown : Reading

unfoldable pub found : Option ℕ → Reading
found none = unknown
found (some v) = value v

-- The body of the loop over `code.chars()`. `c as u8` keeps the low eight bits.
unfoldable pub read_char : ℕ → Reading
unfolding to_ascii_uppercase position found
read_char ch =
    let c = to_ascii_uppercase ch in
    if c == b'-' || c == b' '
    then skipped
    else (let c' = if c == b'I' || c == b'L' then b'1' else if c == b'O' then b'0' else c in
        found (position (c' % 256) crockford 0))

-- One round of the loop, before the values that the rest of the text gives.
unfoldable pub absorb : Reading → Option (List ℕ) → Option (List ℕ)
absorb skipped tail = tail
absorb unknown tail = none
absorb (value v) none = none
absorb (value v) (some vs) = some (v ∷ vs)

-- The loop: the values of the symbols, or `None`.
unfoldable pub read_symbols : Text → Option (List ℕ)
unfolding read_char absorb
read_symbols [] = some []
read_symbols (c ∷ rest) = absorb (read_char c) (read_symbols rest)

-- The loop over the data symbols: the bytes written to `secret[..idx]`.
unfoldable pub decode_run : ℕ → ℕ → Bytes → List ℕ → Bytes
decode_run acc bits secret [] = secret
decode_run acc bits secret (v ∷ vs) =
    let acc' = acc * 32 % 2 ^ 32 + v in
    let full = leb 8 (bits + 5) in
    decode_run acc' (if full then bits + 5 - 8 else bits + 5)
      (if full && ltb (length secret) 32
        then secret ++ (acc' / 2 ^ (bits + 5 - 8) % 256 ∷ [])
        else secret)
      vs

module _ (P : Primitives) where
  -- The rest of `decode_code`, once the symbols are read.
  unfoldable pub decode_symbols : List ℕ → Option Bytes
  unfolding decode_run check_symbols
  decode_symbols vals =
      if not (length vals == code_data_chars + code_check_chars)
      then none
      else (let secret = decode_run 0 0 [] (take code_data_chars vals) in
          if not (length secret == 32)
          then none
          else if not
              (bytes_eq (map symbol (drop code_data_chars vals)) (check_symbols P secret []))
          then none
          else some secret)

  -- `decode_code`
  unfoldable pub decode_code : Text → Option Bytes
  unfolding read_symbols decode_symbols
  decode_code code = elim (read_symbols code) [ none ↦ none | some vals ↦ decode_symbols vals ]
