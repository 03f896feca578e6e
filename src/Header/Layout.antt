-- ===== src/Header/Layout.antt =====
-- The header's bytes as the fields of docs/SPEC.md, one behind the other.
use foldervault.Base.{
  ◌≡◌, refl, ◌∙◌, List, [], ◌∷◌, ◌++◌, append_assoc, append-nil, arith, length, length-append,
  Bytes, IsU32, IsU64, to_le_bytes, length-to_le_bytes, zeros, length-zeros, IsFilled-zeros,
  copy_at-IsFilled, skip-IsFilled, fields, total, slice-all, length-fields, IsFilled-fields,
  replicate,
}
use foldervault.Vault.{magic, version}
use foldervault.Primitives.{Primitives, IsLawful}
use foldervault.Header.{Header, body, to_bytes}

-- A header whose arrays have their lengths and whose words are in range, as the Rust types have it.
pub record IsHeader (h : Header) : Type 0 where
  pub uuid_length : length h.uuid ≡ 16
  pub salt_length : length h.salt ≡ 16
  pub pw_length : length h.wrapped_dk_pw ≡ 60
  pub mk_length : length h.wrapped_dk_mk ≡ 92
  pub m_cost_range : IsU32 h.kdf.m_cost_kib
  pub t_cost_range : IsU32 h.kdf.t_cost
  pub lanes_range : IsU32 h.kdf.lanes
  pub fail_count_range : IsU32 h.lockout.fail_count
  pub locked_until_range : IsU64 h.lockout.locked_until
  pub entry_count_range : IsU64 h.entry_count
  pub payload_len_range : IsU64 h.payload_len

abbrev pub layout : Header → List Bytes
layout h =
    magic
    ∷ to_le_bytes 4 version
    ∷ h.uuid
    ∷ h.salt
    ∷ to_le_bytes 4 h.kdf.m_cost_kib
    ∷ to_le_bytes 4 h.kdf.t_cost
    ∷ to_le_bytes 4 h.kdf.lanes
    ∷ h.wrapped_dk_pw
    ∷ h.wrapped_dk_mk
    ∷ to_le_bytes 4 h.lockout.fail_count
    ∷ zeros 4
    ∷ to_le_bytes 8 h.lockout.locked_until
    ∷ to_le_bytes 8 h.entry_count
    ∷ to_le_bytes 8 h.payload_len
    ∷ []

-- The lengths of the words' fields.
pub layout-lengths :
    (h : Header)
    → (length (to_le_bytes 4 version) ≡ 4)
      × (length (to_le_bytes 4 h.kdf.m_cost_kib) ≡ 4)
      × (length (to_le_bytes 4 h.kdf.t_cost) ≡ 4)
      × (length (to_le_bytes 4 h.kdf.lanes) ≡ 4)
      × (length (to_le_bytes 4 h.lockout.fail_count) ≡ 4)
      × (length (zeros 4) ≡ 4)
      × (length (to_le_bytes 8 h.lockout.locked_until) ≡ 8)
      × (length (to_le_bytes 8 h.entry_count) ≡ 8)
      × (length (to_le_bytes 8 h.payload_len) ≡ 8)
layout-lengths h = (
  length-to_le_bytes 4 _,
  length-to_le_bytes 4 _,
  length-to_le_bytes 4 _,
  length-to_le_bytes 4 _,
  length-to_le_bytes 4 _,
  length-zeros 4,
  length-to_le_bytes 8 _,
  length-to_le_bytes 8 _,
  length-to_le_bytes 8 _,
)

pub total-layout : (h : Header) → IsHeader h → total (layout h) ≡ 236
total-layout h w = omega (arith, layout-lengths h)

pub body-fields : (h : Header) → IsHeader h → body h ≡ fields (layout h) ++ zeros 32
unfolding body
body-fields h w =
    let s0 = IsFilled-zeros 268 in
    let s1 = copy_at-IsFilled 0 4 268 264 _ magic _ refl refl s0 in
    let s2 =
      copy_at-IsFilled 4 4 264 260 _ (to_le_bytes 4 version) _ (length-to_le_bytes 4 version) refl
        s1 in
    let s3 = copy_at-IsFilled 8 16 260 244 _ h.uuid _ w.uuid_length refl s2 in
    let s4 = copy_at-IsFilled 24 16 244 228 _ h.salt _ w.salt_length refl s3 in
    let s5 =
      copy_at-IsFilled 40 4 228 224 _ (to_le_bytes 4 h.kdf.m_cost_kib) _
        (length-to_le_bytes 4 h.kdf.m_cost_kib) refl s4 in
    let s6 =
      copy_at-IsFilled 44 4 224 220 _ (to_le_bytes 4 h.kdf.t_cost) _
        (length-to_le_bytes 4 h.kdf.t_cost) refl s5 in
    let s7 =
      copy_at-IsFilled 48 4 220 216 _ (to_le_bytes 4 h.kdf.lanes) _
        (length-to_le_bytes 4 h.kdf.lanes) refl s6 in
    let s8 = copy_at-IsFilled 52 60 216 156 _ h.wrapped_dk_pw _ w.pw_length refl s7 in
    let s9 = copy_at-IsFilled 112 92 156 64 _ h.wrapped_dk_mk _ w.mk_length refl s8 in
    let s10 =
      copy_at-IsFilled 204 4 64 60 _ (to_le_bytes 4 h.lockout.fail_count) _
        (length-to_le_bytes 4 h.lockout.fail_count) refl s9 in
    let s11 = skip-IsFilled 208 4 60 56 _ _ refl s10 in
    let s12 =
      copy_at-IsFilled 212 8 56 48 _ (to_le_bytes 8 h.lockout.locked_until) _
        (length-to_le_bytes 8 h.lockout.locked_until) refl s11 in
    let s13 =
      copy_at-IsFilled 220 8 48 40 _ (to_le_bytes 8 h.entry_count) _
        (length-to_le_bytes 8 h.entry_count) refl s12 in
    let s14 =
      copy_at-IsFilled 228 8 40 32 _ (to_le_bytes 8 h.payload_len) _
        (length-to_le_bytes 8 h.payload_len) refl s13 in
    s14.content ∙ simp (append_assoc, append-nil)

module _ (P : Primitives) (L : IsLawful P) where
  -- The bytes of a header are its fields and the MAC over them.
  pub to_bytes-fields :
      (h : Header) (key : Bytes)
      → IsHeader h
      → to_bytes P h key ≡ fields (layout h) ++ P.hmac key (fields (layout h))
  unfolding to_bytes zeros replicate
  to_bytes-fields h key w =
      let size = total-layout h w in
      rw (body-fields h w, slice-all 236 (layout h) (zeros 32) size)
        ((copy_at-IsFilled 236 32 32 0 (fields (layout h)) (P.hmac key (fields (layout h)))
            (fields (layout h) ++ zeros 32) (L.hmac-IsArray key _).0 refl
            (IsFilled-fields 236 32 (layout h) size)).content
          ∙ append-nil _)

  pub length-to_bytes : (h : Header) (key : Bytes) → IsHeader h → length (to_bytes P h key) ≡ 268
  length-to_bytes h key w = rw (to_bytes-fields h key w) (
      omega (
        arith,
        length-append (fields (layout h)) (P.hmac key (fields (layout h))),
        length-fields (layout h),
        total-layout h w,
        (L.hmac-IsArray key (fields (layout h))).0,
      ))
