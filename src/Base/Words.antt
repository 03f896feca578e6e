-- ===== src/Base/Words.antt =====
-- Bytes, machine words as numbers with their wrap-around, and text as code points.
use Prim.Native.Nat.{ℕ, zero, suc, ◌+◌, ◌*◌, ◌/◌, ◌%◌, ◌^◌, ◌<◌}
use Prim.Native.Char.{code}
use Prim.Native.String.{String}
use mathlib.Core.Path.{◌≡◌, refl, ap}
use mathlib.Core.List.{List, [], ◌∷◌}
use native.Mathlib.Omega.{arith}
use foldervault.Base.Lists.{length, All}

abbrev pub Bytes : Type 0
Bytes = List ℕ

-- A text is the list of its code points.
abbrev pub Text : Type 0
Text = List ℕ

abbrev pub codes : String → Text
codes String.[] = []
codes (String.◌∷◌ c s) = code c ∷ codes s

abbrev pub IsByte : ℕ → Type 0
IsByte b = b < 256

abbrev pub IsU32 : ℕ → Type 0
IsU32 v = v < 2 ^ 32

abbrev pub IsU64 : ℕ → Type 0
IsU64 v = v < 2 ^ 64

-- A Rust array `[u8; n]`.
abbrev pub IsArray : ℕ → Bytes → Type 0
IsArray n xs = (length xs ≡ n) × All IsByte xs

-- `to_le_bytes` of a word of `w` bytes.
unfoldable pub to_le_bytes : ℕ → ℕ → Bytes
to_le_bytes zero v = []
to_le_bytes (suc w) v = (v % 256) ∷ to_le_bytes w (v / 256)

-- `from_le_bytes`
unfoldable pub from_le_bytes : Bytes → ℕ
from_le_bytes [] = 0
from_le_bytes (b ∷ bs) = b + 256 * from_le_bytes bs

pub length-to_le_bytes : (w v : ℕ) → length (to_le_bytes w v) ≡ w
unfolding to_le_bytes
length-to_le_bytes zero v = refl
length-to_le_bytes (suc w) v = ap suc (length-to_le_bytes w (v / 256))

pub to_le_bytes-IsByte : (w v : ℕ) → All IsByte (to_le_bytes w v)
unfolding to_le_bytes
to_le_bytes-IsByte zero v = tt
to_le_bytes-IsByte (suc w) v = (omega arith, to_le_bytes-IsByte w (v / 256))

pub from_le_bytes-to_le_bytes_u32 : (v : ℕ) → IsU32 v → from_le_bytes (to_le_bytes 4 v) ≡ v
unfolding to_le_bytes from_le_bytes
from_le_bytes-to_le_bytes_u32 v h = omega arith

pub from_le_bytes-to_le_bytes_u64 : (v : ℕ) → IsU64 v → from_le_bytes (to_le_bytes 8 v) ≡ v
unfolding to_le_bytes from_le_bytes
from_le_bytes-to_le_bytes_u64 v h = omega arith
