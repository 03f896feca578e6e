-- ===== src/Recovery/Unseal.antt =====
-- seal_dk of recovery.rs, and then open_dk with the recovery code.
use foldervault.Base.{◌≡◌, some, take-append, drop-append}
use foldervault.Primitives.{Primitives, IsLawful}
use foldervault.Random.{Rng, fill_bytes, IsRandom, fill_bytes-IsArray}
use foldervault.Crypto.{SecretKey, wrap_key}
use foldervault.Crypto.Seal.{unwrap_key-wrap_key}
use foldervault.Recovery.Code.{decode_code-encode_code}
use foldervault.Recovery.Seal.{generate, seal_dk, open_dk, kek_from_shared}

module _ (P : Primitives) (L : IsLawful P) where
  -- What was sealed to the public key of a generated pair opens with the pair's code, whatever the
  -- random generator gave for the pair and for the sealing.
  pub open_dk-seal_dk :
      (r r' : Rng) (dk : SecretKey)
      → IsRandom r
      → open_dk P (generate P r).0.code (seal_dk P (generate P r).0.public dk r').0 ≡ some dk
  unfolding generate seal_dk open_dk
  open_dk-seal_dk r r' dk h =
      let sk = (fill_bytes 32 r).0 in
      let eph = (fill_bytes 32 r').0 in
      let kek = kek_from_shared P (P.diffie_hellman eph (P.public_key sk)) in
      let wrapped = (wrap_key P kek dk (fill_bytes 32 r').1).0 in
      rw
        (
          open_dk,
          decode_code-encode_code P L sk (fill_bytes-IsArray 32 r h),
          take-append 32 (P.public_key eph) wrapped (L.public_key-IsArray eph).0,
          drop-append 32 (P.public_key eph) wrapped (L.public_key-IsArray eph).0,
          L.diffie_hellman_comm sk eph,
        )
        (unwrap_key-wrap_key P L kek dk (fill_bytes 32 r').1)
