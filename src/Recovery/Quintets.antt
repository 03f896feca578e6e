-- ===== src/Recovery/Quintets.antt =====
-- The streaming base32 of recovery.rs against a plain recursion on the pending bits: `k` of them, of
-- value `a`, are waiting when the next byte arrives.
use foldervault.Base.{
  ℕ, zero, suc, ◌+◌, ◌-◌, ◌*◌, ◌/◌, ◌%◌, ◌^◌, ◌<◌, ◌≡◌, List, [], ◌∷◌, ◌++◌, map, append_assoc,
  arith, Bytes, length, IsByte, All, lt→ltb,
}
use foldervault.Recovery.Base32.{Encoder, symbol, push_byte, push_bytes, flush}

unfoldable pub quintets : ℕ → ℕ → Bytes → List ℕ
quintets zero a [] = []
quintets (suc k) a [] = a * 2 ^ (4 - k) % 32 ∷ []
quintets zero a (b ∷ bs) = b / 8 % 32 ∷ quintets 3 (b % 8) bs
quintets (suc zero) a (b ∷ bs) = let x = a * 256 + b in x / 16 % 32 ∷ quintets 4 (x % 16) bs
quintets (suc (suc k)) a (b ∷ bs) =
    let x = a * 256 + b in x / 2 ^ (k + 5) % 32 ∷ x / 2 ^ k % 32 ∷ quintets k (x % 2 ^ k) bs

-- One byte arrives at an encoder with `k` pending bits.
abbrev encoder : ℕ → ℕ → ℕ → Bytes → Encoder
encoder acc k emitted out = record { acc = acc; bits = k; emitted = emitted; out = out }

abbrev shifted : ℕ → ℕ → ℕ
shifted acc b = acc * 256 % 2 ^ 32 + b

push_zero :
    (acc e b : ℕ) (out : Bytes)
    → e < 52
    → push_byte 52 (encoder acc 0 e out) b
      ≡ encoder (shifted acc b) 3 (e + 1) (out ++ (symbol (shifted acc b / 8 % 32) ∷ []))
unfolding push_byte
push_zero acc e b out h = ground arith

push_one :
    (acc e b : ℕ) (out : Bytes)
    → e < 52
    → push_byte 52 (encoder acc 1 e out) b
      ≡ encoder (shifted acc b) 4 (e + 1) (out ++ (symbol (shifted acc b / 16 % 32) ∷ []))
unfolding push_byte
push_one acc e b out h = ground arith

push_two :
    (acc e b : ℕ) (out : Bytes)
    → e + 1 < 52
    → push_byte 52 (encoder acc 2 e out) b
      ≡ encoder (shifted acc b) 0 (e + 1 + 1) (
          (out ++ (symbol (shifted acc b / 32 % 32) ∷ []))
          ++ (symbol (shifted acc b / 1 % 32) ∷ []))
unfolding push_byte
push_two acc e b out h = ground arith

push_three :
    (acc e b : ℕ) (out : Bytes)
    → e + 1 < 52
    → push_byte 52 (encoder acc 3 e out) b
      ≡ encoder (shifted acc b) 1 (e + 1 + 1) (
          (out ++ (symbol (shifted acc b / 64 % 32) ∷ []))
          ++ (symbol (shifted acc b / 2 % 32) ∷ []))
unfolding push_byte
push_three acc e b out h = ground arith

push_four :
    (acc e b : ℕ) (out : Bytes)
    → e + 1 < 52
    → push_byte 52 (encoder acc 4 e out) b
      ≡ encoder (shifted acc b) 2 (e + 1 + 1) (
          (out ++ (symbol (shifted acc b / 128 % 32) ∷ []))
          ++ (symbol (shifted acc b / 4 % 32) ∷ []))
unfolding push_byte
push_four acc e b out h = ground arith

-- The whole of `encode_base32` on the rest of a 32-byte secret.
abbrev finished : ℕ → ℕ → ℕ → Bytes → Bytes → Bytes
finished acc k e out bs = flush 52 (push_bytes 52 (encoder acc k e out) bs)

finished_nil :
    (acc e : ℕ) (out : Bytes)
    → e < 52
    → flush 52 (encoder acc 1 e out) ≡ out ++ map symbol (acc % 2 * 16 % 32 ∷ [])
unfolding flush
finished_nil acc e out h =
    let v : acc * 2 ^ (5 - 1) % 2 ^ 32 % 32 ≡ acc % 2 * 16 % 32 = omega arith in
    rw (lt→ltb e 52 h, v)

pub finished-quintets :
    (bs : Bytes) (k acc e : ℕ) (out : Bytes)
    → k < 5
    → All IsByte bs
    → 5 * e + k + 8 * length bs ≡ 256
    → finished acc k e out bs ≡ out ++ map symbol (quintets k (acc % 2 ^ k) bs)
unfolding quintets push_bytes
finished-quintets [] zero acc e out hk hb h = absurd (omega arith)
finished-quintets [] (suc zero) acc e out hk hb h = finished_nil acc e out (omega arith)
finished-quintets [] (suc (suc k)) acc e out hk hb h = absurd (omega arith)
finished-quintets (b ∷ bs) zero acc e out hk hb h =
    let v : shifted acc b / 8 % 32 ≡ b / 8 % 32 = omega arith in
    let a : shifted acc b % 2 ^ 3 ≡ b % 8 = omega arith in
    rw (
      push_zero acc e b out (omega arith),
      finished-quintets bs 3 (shifted acc b) (e + 1) _ (omega arith) hb.1 (omega arith),
      v,
      a,
      append_assoc,
    )
finished-quintets (b ∷ bs) (suc zero) acc e out hk hb h =
    let v : shifted acc b / 16 % 32 ≡ (acc % 2 * 256 + b) / 16 % 32 = omega arith in
    let a : shifted acc b % 2 ^ 4 ≡ (acc % 2 * 256 + b) % 16 = omega arith in
    rw (
      push_one acc e b out (omega arith),
      finished-quintets bs 4 (shifted acc b) (e + 1) _ (omega arith) hb.1 (omega arith),
      v,
      a,
      append_assoc,
    )
finished-quintets (b ∷ bs) (suc (suc zero)) acc e out hk hb h =
    let v : shifted acc b / 32 % 32 ≡ (acc % 4 * 256 + b) / 32 % 32 = omega arith in
    let w : shifted acc b / 1 % 32 ≡ (acc % 4 * 256 + b) / 1 % 32 = omega arith in
    let a : shifted acc b % 2 ^ 0 ≡ (acc % 4 * 256 + b) % 1 = omega arith in
    rw (
      push_two acc e b out (omega arith),
      finished-quintets bs 0 (shifted acc b) (e + 1 + 1) _ (omega arith) hb.1 (omega arith),
      v,
      w,
      a,
      append_assoc,
      append_assoc,
    )
finished-quintets (b ∷ bs) (suc (suc (suc zero))) acc e out hk hb h =
    let v : shifted acc b / 64 % 32 ≡ (acc % 8 * 256 + b) / 64 % 32 = omega arith in
    let w : shifted acc b / 2 % 32 ≡ (acc % 8 * 256 + b) / 2 % 32 = omega arith in
    let a : shifted acc b % 2 ^ 1 ≡ (acc % 8 * 256 + b) % 2 = omega arith in
    rw (
      push_three acc e b out (omega arith),
      finished-quintets bs 1 (shifted acc b) (e + 1 + 1) _ (omega arith) hb.1 (omega arith),
      v,
      w,
      a,
      append_assoc,
      append_assoc,
    )
finished-quintets (b ∷ bs) (suc (suc (suc (suc zero)))) acc e out hk hb h =
    let v : shifted acc b / 128 % 32 ≡ (acc % 16 * 256 + b) / 128 % 32 = omega arith in
    let w : shifted acc b / 4 % 32 ≡ (acc % 16 * 256 + b) / 4 % 32 = omega arith in
    let a : shifted acc b % 2 ^ 2 ≡ (acc % 16 * 256 + b) % 4 = omega arith in
    rw (
      push_four acc e b out (omega arith),
      finished-quintets bs 2 (shifted acc b) (e + 1 + 1) _ (omega arith) hb.1 (omega arith),
      v,
      w,
      a,
      append_assoc,
      append_assoc,
    )
finished-quintets (b ∷ bs) (suc (suc (suc (suc (suc k))))) acc e out hk hb h = absurd (omega arith)
