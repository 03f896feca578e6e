-- ===== src/Base/Arrays.antt =====
-- Fixed arrays: zeroed, written in part by `copy_from_slice`, and read by ranges.
use Prim.Native.Nat.{ℕ, zero, suc, ◌+◌, ◌-◌, ◌<◌}
use mathlib.Core.Path.{◌≡◌, refl, sym, ap, ◌∙◌}
use mathlib.Core.List.{List, [], ◌∷◌, ◌++◌, append_assoc}
use native.Mathlib.Omega.{arith}
use native.Mathlib.Nat.{zero-add, suc-add, sub-zero}
use foldervault.Base.Lists.{length, length-append, take, drop, take-append, drop-append, replicate}
use foldervault.Base.Lists.{length-replicate, get_or, All}
use foldervault.Base.Words.{Bytes, IsByte}

-- `[0u8; n]`
unfoldable pub zeros : ℕ → Bytes
zeros n = replicate n 0

-- `b[off..off + src.len()].copy_from_slice(src)`
unfoldable pub copy_at : ℕ → Bytes → Bytes → Bytes
copy_at off src b = take off b ++ (src ++ drop (off + length src) b)

-- `b[lo..hi]`
unfoldable pub slice : ℕ → ℕ → Bytes → Bytes
slice lo hi b = take (hi - lo) (drop lo b)

-- `b[lo..]`
unfoldable pub slice_from : ℕ → Bytes → Bytes
slice_from lo b = drop lo b

pub length-zeros : (n : ℕ) → length (zeros n) ≡ n
unfolding zeros
length-zeros n = length-replicate n 0

replicate-IsByte : (n : ℕ) → All IsByte (replicate n 0)
unfolding replicate
replicate-IsByte zero = tt
replicate-IsByte (suc n) = (omega arith, replicate-IsByte n)

pub zeros-IsByte : (n : ℕ) → All IsByte (zeros n)
unfolding zeros
zeros-IsByte n = replicate-IsByte n

pub zeros-add : (k n : ℕ) → zeros (k + n) ≡ zeros k ++ zeros n
unfolding zeros replicate
zeros-add zero n = rw zero-add
zeros-add (suc k) n = rw suc-add (ap (λ t. 0 ∷ t) (zeros-add k n))

-- An array of which `off` bytes are written, `pre`, and the other `n` are zero.
pub record IsFilled (b pre : Bytes) (off n : ℕ) : Type 0 where
  pub content : b ≡ pre ++ zeros n
  pub written : length pre ≡ off

pub IsFilled-zeros : (n : ℕ) → IsFilled (zeros n) [] 0 n
IsFilled-zeros n = record { content = refl; written = refl }

-- Writing the next bytes, and leaving some zero.
pub copy_at-IsFilled :
    (off k m n : ℕ) (pre src b : Bytes)
    → length src ≡ k
    → k + n ≡ m
    → IsFilled b pre off m
    → IsFilled (copy_at off src b) (pre ++ src) (off + k) n
unfolding copy_at
copy_at-IsFilled off k m n pre src b hk hm s = record {
  content =
      rw
        (
          s.content,
          ← hm,
          zeros-add,
          take-append off pre _ s.written,
          ← append_assoc pre (zeros k),
          hk,
          drop-append (off + k) (pre ++ zeros k) (zeros n)
              (omega (arith, length-append pre (zeros k), length-zeros k)),
        )
        (sym (append_assoc pre src (zeros n)));
  written = omega (arith, length-append pre src);
}

pub skip-IsFilled :
    (off k m n : ℕ) (pre b : Bytes)
    → k + n ≡ m
    → IsFilled b pre off m
    → IsFilled b (pre ++ zeros k) (off + k) n
skip-IsFilled off k m n pre b hm s = record {
  content = rw (s.content, ← hm, zeros-add) (sym (append_assoc pre (zeros k) (zeros n)));
  written = omega (arith, length-append pre (zeros k), length-zeros k);
}

-- The concatenation of the fields of a layout.
abbrev pub fields : List Bytes → Bytes
fields [] = []
fields (f ∷ fs) = f ++ fields fs

-- Their lengths, added up.
abbrev pub total : List Bytes → ℕ
total [] = 0
total (f ∷ fs) = length f + total fs

pub length-fields : (fs : List Bytes) → length (fields fs) ≡ total fs
length-fields [] = refl
length-fields (f ∷ fs) = omega (arith, length-append f (fields fs), length-fields fs)

fields-append :
    (front : List Bytes) (f : Bytes) (back : List Bytes) (rest : Bytes)
    → fields (front ++ (f ∷ back)) ++ rest ≡ fields front ++ (f ++ (fields back ++ rest))
fields-append [] f back rest = append_assoc f (fields back) rest
fields-append (g ∷ front) f back rest =
    append_assoc g (fields (front ++ (f ∷ back))) rest
    ∙ ap (λ t. g ++ t) (fields-append front f back rest)
    ∙ sym (append_assoc g (fields front) (f ++ (fields back ++ rest)))

-- The range of a field of a layout, found by the lengths of the fields before it.
slice-fields :
    (lo hi : ℕ) (front : List Bytes) (f : Bytes) (back : List Bytes) (rest : Bytes)
    → total front ≡ lo
    → lo + length f ≡ hi
    → slice lo hi (fields (front ++ (f ∷ back)) ++ rest) ≡ f
unfolding slice
slice-fields lo hi front f back rest hl hh =
    rw
      (
        fields-append front f back rest,
        drop-append lo (fields front) (f ++ (fields back ++ rest))
            (omega (arith, length-fields front)),
      )
      (take-append (hi - lo) f (fields back ++ rest) (omega arith))

-- The fields before and behind the one at an index.
abbrev pub before : ℕ → List Bytes → List Bytes
before i [] = []
before zero (f ∷ fs) = []
before (suc i) (f ∷ fs) = f ∷ before i fs

abbrev after : ℕ → List Bytes → List Bytes
after i [] = []
after zero (f ∷ fs) = fs
after (suc i) (f ∷ fs) = after i fs

split_at :
    (i : ℕ) (fs : List Bytes) → i < length fs → before i fs ++ (get_or fs i [] ∷ after i fs) ≡ fs
split_at i [] h = absurd (omega arith)
split_at zero (f ∷ fs) h = refl
split_at (suc i) (f ∷ fs) h = ap (λ t. f ∷ t) (split_at i fs (omega arith))

-- The range of the field at an index.
pub slice-field_at :
    (i lo hi : ℕ) (fs : List Bytes) (rest : Bytes)
    → i < length fs
    → total (before i fs) ≡ lo
    → lo + length (get_or fs i []) ≡ hi
    → slice lo hi (fields fs ++ rest) ≡ get_or fs i []
slice-field_at i lo hi fs rest h hl hh =
    ap (λ t. slice lo hi (fields t ++ rest)) (sym (split_at i fs h))
    ∙ slice-fields lo hi (before i fs) (get_or fs i []) (after i fs) rest hl hh

pub slice-all :
    (hi : ℕ) (fs : List Bytes) (rest : Bytes)
    → total fs ≡ hi
    → slice 0 hi (fields fs ++ rest) ≡ fields fs
unfolding slice drop
slice-all hi fs rest h =
    rw sub-zero (take-append hi (fields fs) rest (omega (arith, length-fields fs)))

pub slice_from-fields :
    (lo : ℕ) (fs : List Bytes) (rest : Bytes)
    → total fs ≡ lo
    → slice_from lo (fields fs ++ rest) ≡ rest
unfolding slice_from
slice_from-fields lo fs rest h = drop-append lo (fields fs) rest (omega (arith, length-fields fs))

pub IsFilled-fields :
    (off n : ℕ) (fs : List Bytes)
    → total fs ≡ off
    → IsFilled (fields fs ++ zeros n) (fields fs) off n
IsFilled-fields off n fs h = record { content = refl; written = omega (arith, length-fields fs) }
