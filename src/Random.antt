-- ===== src/Random.antt =====
-- The operating system's random generator: an unknown tape of bytes, read in order.
use foldervault.Base.{
  ℕ, zero, suc, ◌+◌, ◌≡◌, refl, ap, [], ◌∷◌, Bytes, IsByte, IsArray, All, length,
}

pub record Rng : Type 0 where
  pub tape : ℕ → ℕ
  pub position : ℕ

pub tape_bytes : (ℕ → ℕ) → ℕ → ℕ → Bytes
tape_bytes tape i zero = []
tape_bytes tape i (suc n) = tape i ∷ tape_bytes tape (i + 1) n

-- `OsRng.fill_bytes` on a buffer of `n` bytes.
unfoldable pub fill_bytes : ℕ → Rng → Bytes × Rng
unfolding tape_bytes
fill_bytes n r = (tape_bytes r.tape r.position n, record r { position = r.position + n })

-- What the tape holds are bytes.
abbrev pub IsRandom : Rng → Type 0
IsRandom r = (i : ℕ) → IsByte (r.tape i)

length-tape_bytes : (tape : ℕ → ℕ) (i n : ℕ) → length (tape_bytes tape i n) ≡ n
unfolding tape_bytes
length-tape_bytes tape i zero = refl
length-tape_bytes tape i (suc n) = ap suc (length-tape_bytes tape (i + 1) n)

tape_bytes-IsByte :
    (tape : ℕ → ℕ) → ((j : ℕ) → IsByte (tape j)) → (i n : ℕ) → All IsByte (tape_bytes tape i n)
unfolding tape_bytes
tape_bytes-IsByte tape h i zero = tt
tape_bytes-IsByte tape h i (suc n) = (h i, tape_bytes-IsByte tape h (i + 1) n)

pub length-fill_bytes : (n : ℕ) (r : Rng) → length (fill_bytes n r).0 ≡ n
unfolding fill_bytes
length-fill_bytes n r = length-tape_bytes r.tape r.position n

pub fill_bytes-IsArray : (n : ℕ) (r : Rng) → IsRandom r → IsArray n (fill_bytes n r).0
unfolding fill_bytes
fill_bytes-IsArray n r h =
    (length-tape_bytes r.tape r.position n, tape_bytes-IsByte r.tape h r.position n)

pub fill_bytes-IsRandom : (n : ℕ) (r : Rng) → IsRandom r → IsRandom (fill_bytes n r).1
unfolding fill_bytes
fill_bytes-IsRandom n r h = h
