-- ===== src/Folder/Wiped.antt =====
-- What wipe_tree of format.rs makes of one file.
use foldervault.Base.{
  ℕ, zero, suc, ◌+◌, ◌-◌, ◌≤◌, ◌≡◌, refl, sym, ◌∙◌, true, false, List, [], ◌∷◌, ◌++◌, arith, Bytes,
  Text, ltb, leb, bytes_eq_refl, append_assoc, zeros, zeros-add, replicate, min, drop, Bool-cases,
  inl, inr, if◌then◌else◌,
}
use native.Mathlib.Nat.{zero-add, suc-add}
use foldervault.Vault.{chunk_size, ok}
use foldervault.Paths.{PathBuf, location, replaced}
use foldervault.Container.Authorize.{File, set_readonly}
use foldervault.Folder.{Os}
use foldervault.Folder.Wipe.{Files, texts_eq, path_eq, store, overwrite, wipe_file}

drop-nil : (n : ℕ) → drop {A = ℕ} n [] ≡ []
unfolding drop
drop-nil zero = refl
drop-nil (suc n) = refl

drop-drop : (m n : ℕ) (xs : Bytes) → drop n (drop m xs) ≡ drop (m + n) xs
unfolding drop
drop-drop zero n xs = rw zero-add refl
drop-drop (suc m) n [] = drop-nil n ∙ sym (drop-nil (suc m + n))
drop-drop (suc m) n (x ∷ xs) = rw suc-add (drop-drop m n xs)

nothing-left : (old : Bytes) (n : ℕ) → n ≡ 0 → old ≡ zeros n ++ drop n old
unfolding zeros drop replicate
nothing-left old n h = rw h refl

-- The loop ends within the file's size, whatever the chunks are: it has written zeros over what
-- was asked for, or over what the disk took of it.
overwrite-zeros :
    (fuel room remaining : ℕ) (old : Bytes)
    → remaining ≤ fuel
    → let k = min remaining room in overwrite fuel room remaining old ≡ zeros k ++ drop k old
unfolding overwrite
overwrite-zeros zero room remaining old f = nothing-left old (min remaining room) (ground arith)
overwrite-zeros (suc fuel) room remaining old f = elim (Bool-cases (ltb 0 remaining)) [
  | inr done ↦ rw (overwrite, done) (nothing-left old (min remaining room) (ground arith))
  | inl more ↦
      let n = min remaining chunk_size in
      elim (Bool-cases (leb n room)) [
        | inr full ↦
            let all : min remaining room ≡ room = ground arith in rw (overwrite, more, full, all)
        | inl fits ↦
            let rest =
              overwrite-zeros fuel (room - n) (remaining - n) (drop n old) (ground arith) in
            let k = min (remaining - n) (room - n) in
            let all : n + k ≡ min remaining room = ground arith in
            rw
              (
                overwrite,
                more,
                fits,
                rest,
                drop-drop n k old,
                sym (append_assoc (zeros n) (zeros k) (drop (n + k) old)),
                sym (zeros-add n k),
                all,
              )
              refl
      ]
]

texts_eq_refl : (ts : List Text) → texts_eq ts ts ≡ true
unfolding texts_eq
texts_eq_refl [] = refl
texts_eq_refl (t ∷ ts) = rw (texts_eq, bytes_eq_refl, texts_eq_refl ts) refl

pub path_eq_refl : (p : PathBuf) → path_eq p p ≡ true
unfolding path_eq
path_eq_refl (location ts) = texts_eq_refl ts
path_eq_refl (replaced t) = bytes_eq_refl t

-- The wipe of a file ends, however many chunks it has. A file that does not open for writing keeps
-- its bytes; in another one, zeros stand over the first bytes, as many as the scan counted or, where
-- these are fewer, as the disk took, and what is behind them stays. The read-only flag is cleared.
pub wipe_file-zeros :
    (os : Os) (path : PathBuf) (size : ℕ) (files : Files) (f : File)
    → files path ≡ ok f
    → let k = if os.writable path then min size (os.accepts path) else 0 in
      wipe_file os path size files path
      ≡ ok (record { bytes = zeros k ++ drop k f.bytes; readonly = false })
unfolding wipe_file store set_readonly zeros replicate drop
wipe_file-zeros os path size files f there = elim (Bool-cases (os.writable path)) [
  | inl opens ↦
      rw
        (
          wipe_file,
          there,
          store,
          path_eq_refl path,
          opens,
          overwrite-zeros size (os.accepts path) size f.bytes (omega arith),
        )
        refl
  | inr shut ↦ rw (wipe_file, there, store, path_eq_refl path, shut) refl
]
