-- ===== src/Recovery/Regroup.antt =====
-- The decoder of recovery.rs on the groups of five bits that `quintets` makes.
use foldervault.Base.{
  ℕ, zero, suc, ◌+◌, ◌-◌, ◌*◌, ◌/◌, ◌%◌, ◌^◌, ◌≤◌, ◌<◌, ◌≡◌, refl, ◌∙◌, List, [], ◌∷◌, ◌++◌,
  append_assoc, append-nil, arith, Bytes, length, length-append, IsByte, All,
}
use foldervault.Recovery.Base32.{decode_run}
use foldervault.Recovery.Quintets.{quintets}

-- The decoder lags behind by the pending bits: of the byte `last` it holds the bits above them.
abbrev lagging : ℕ → ℕ → Bytes
lagging zero last = []
lagging (suc k) last = last ∷ []

-- A symbol that completes a byte, and one that does not.
decode_full :
    (acc bits v : ℕ) (secret : Bytes) (vs : List ℕ)
    → 3 ≤ bits
    → length secret < 32
    → decode_run acc bits secret (v ∷ vs)
      ≡ decode_run
          (acc * 32 % 2 ^ 32 + v)
          (bits + 5 - 8)
          (secret ++ ((acc * 32 % 2 ^ 32 + v) / 2 ^ (bits + 5 - 8) % 256 ∷ []))
          vs
unfolding decode_run
decode_full acc bits v secret vs h l = ground arith

decode_part :
    (acc bits v : ℕ) (secret : Bytes) (vs : List ℕ)
    → bits < 3
    → decode_run acc bits secret (v ∷ vs) ≡ decode_run (acc * 32 % 2 ^ 32 + v) (bits + 5) secret vs
unfolding decode_run
decode_part acc bits v secret vs h = ground arith

-- The decoder gives back the pending byte and all that follow.
pub decode_run-quintets :
    (bs : Bytes) (k last acc : ℕ) (secret : Bytes)
    → k < 5
    → last < 256
    → acc % 2 ^ ((8 - k) % 8) ≡ last / 2 ^ k % 2 ^ ((8 - k) % 8)
    → All IsByte bs
    → length secret + 1 + length bs ≤ 32 + (1 - k)
    → decode_run acc ((8 - k) % 8) secret (quintets k (last % 2 ^ k) bs)
      ≡ secret ++ (lagging k last ++ bs)
unfolding quintets
decode_run-quintets [] zero last acc secret hk hl ha hb h =
    rw append-nil (unfold decode_run in refl)
decode_run-quintets [] (suc zero) last acc secret hk hl ha hb h =
    let sym : ℕ = last % 2 * 16 % 32 in
    let done : (acc * 32 % 2 ^ 32 + sym) / 16 % 256 ≡ last = omega arith in
    rw (decode_full acc 7 sym secret [] (omega arith) (omega arith), done)
      (unfold decode_run in refl)
decode_run-quintets [] (suc (suc zero)) last acc secret hk hl ha hb h =
    let sym : ℕ = last % 4 * 8 % 32 in
    let done : (acc * 32 % 2 ^ 32 + sym) / 8 % 256 ≡ last = omega arith in
    rw (decode_full acc 6 sym secret [] (omega arith) (omega arith), done)
      (unfold decode_run in refl)
decode_run-quintets [] (suc (suc (suc zero))) last acc secret hk hl ha hb h =
    let sym : ℕ = last % 8 * 4 % 32 in
    let done : (acc * 32 % 2 ^ 32 + sym) / 4 % 256 ≡ last = omega arith in
    rw (decode_full acc 5 sym secret [] (omega arith) (omega arith), done)
      (unfold decode_run in refl)
decode_run-quintets [] (suc (suc (suc (suc zero)))) last acc secret hk hl ha hb h =
    let sym : ℕ = last % 16 * 2 % 32 in
    let done : (acc * 32 % 2 ^ 32 + sym) / 2 % 256 ≡ last = omega arith in
    rw (decode_full acc 4 sym secret [] (omega arith) (omega arith), done)
      (unfold decode_run in refl)
decode_run-quintets (b ∷ bs) zero last acc secret hk hl ha hb h =
    let next : (acc * 32 % 2 ^ 32 + b / 8 % 32) % 2 ^ 5 ≡ b / 8 % 2 ^ 5 = omega arith in
    rw (decode_part acc 0 (b / 8 % 32) secret _ (omega arith)) (
      decode_run-quintets bs 3 b (acc * 32 % 2 ^ 32 + b / 8 % 32) secret (omega arith) hb.0 next
        hb.1 (omega arith))
decode_run-quintets (b ∷ bs) (suc zero) last acc secret hk hl ha hb h =
    let x : ℕ = last % 2 * 256 + b in
    let acc' : ℕ = acc * 32 % 2 ^ 32 + x / 16 % 32 in
    let done : acc' / 16 % 256 ≡ last = omega arith in
    let next : acc' % 2 ^ 4 ≡ b / 16 % 2 ^ 4 = omega arith in
    let low : x % 16 ≡ b % 2 ^ 4 = omega arith in
    rw (decode_full acc 7 (x / 16 % 32) secret _ (omega arith) (omega arith), done, low)
      (decode_run-quintets bs 4 b acc' (secret ++ (last ∷ [])) (omega arith) hb.0 next hb.1
          (omega (arith, length-append secret (last ∷ [])))
        ∙ append_assoc secret (last ∷ []) (b ∷ bs))
decode_run-quintets (b ∷ bs) (suc (suc (suc zero))) last acc secret hk hl ha hb h =
    let x : ℕ = last % 8 * 256 + b in
    let acc' : ℕ = acc * 32 % 2 ^ 32 + x / 64 % 32 in
    let acc'' : ℕ = acc' * 32 % 2 ^ 32 + x / 2 % 32 in
    let done : acc' / 4 % 256 ≡ last = omega arith in
    let next : acc'' % 2 ^ 7 ≡ b / 2 % 2 ^ 7 = omega arith in
    let low : x % 2 ≡ b % 2 ^ 1 = omega arith in
    rw
      (
        decode_full acc 5 (x / 64 % 32) secret _ (omega arith) (omega arith),
        done,
        low,
        decode_part acc' 2 (x / 2 % 32) (secret ++ (last ∷ [])) _ (omega arith),
      )
      (decode_run-quintets bs 1 b acc'' (secret ++ (last ∷ [])) (omega arith) hb.0 next hb.1
          (omega (arith, length-append secret (last ∷ [])))
        ∙ append_assoc secret (last ∷ []) (b ∷ bs))
decode_run-quintets (b ∷ bs) (suc (suc (suc (suc zero)))) last acc secret hk hl ha hb h =
    let x : ℕ = last % 16 * 256 + b in
    let acc' : ℕ = acc * 32 % 2 ^ 32 + x / 128 % 32 in
    let acc'' : ℕ = acc' * 32 % 2 ^ 32 + x / 4 % 32 in
    let done : acc' / 2 % 256 ≡ last = omega arith in
    let next : acc'' % 2 ^ 6 ≡ b / 4 % 2 ^ 6 = omega arith in
    let low : x % 4 ≡ b % 2 ^ 2 = omega arith in
    rw
      (
        decode_full acc 4 (x / 128 % 32) secret _ (omega arith) (omega arith),
        done,
        low,
        decode_part acc' 1 (x / 4 % 32) (secret ++ (last ∷ [])) _ (omega arith),
      )
      (decode_run-quintets bs 2 b acc'' (secret ++ (last ∷ [])) (omega arith) hb.0 next hb.1
          (omega (arith, length-append secret (last ∷ [])))
        ∙ append_assoc secret (last ∷ []) (b ∷ bs))
decode_run-quintets (b ∷ bs) (suc (suc zero)) last acc secret hk hl ha hb h =
    let x : ℕ = last % 4 * 256 + b in
    let acc' : ℕ = acc * 32 % 2 ^ 32 + x / 32 % 32 in
    let acc'' : ℕ = acc' * 32 % 2 ^ 32 + x / 1 % 32 in
    let done : acc' / 8 % 256 ≡ last = omega arith in
    let done' : acc'' / 1 % 256 ≡ b = omega arith in
    let low : x % 1 ≡ b % 2 ^ 0 = omega arith in
    let size : length (secret ++ (last ∷ [])) < 32 =
      omega (arith, length-append secret (last ∷ [])) in
    rw
      (
        decode_full acc 6 (x / 32 % 32) secret _ (omega arith) (omega arith),
        done,
        low,
        decode_full acc' 3 (x / 1 % 32) (secret ++ (last ∷ [])) _ (omega arith) size,
        done',
      )
      (decode_run-quintets bs 0 b acc'' ((secret ++ (last ∷ [])) ++ (b ∷ [])) (omega arith) hb.0
          (omega arith) hb.1
          (omega (
            arith,
            length-append secret (last ∷ []),
            length-append (secret ++ (last ∷ [])) (b ∷ []),
          ))
        ∙ append_assoc (secret ++ (last ∷ [])) (b ∷ []) bs
        ∙ append_assoc secret (last ∷ []) (b ∷ bs))
decode_run-quintets (b ∷ bs) (suc (suc (suc (suc (suc k))))) last acc secret hk hl ha hb h =
    absurd (omega arith)
decode_run-quintets [] (suc (suc (suc (suc (suc k))))) last acc secret hk hl ha hb h =
    absurd (omega arith)
