-- ===== src/Header/RoundTrip.antt =====
-- `to_bytes` of format.rs, and then `from_bytes`.
use foldervault.Base.{
  ◌≡◌, refl, ap, ◌∙◌, true, false, ◌++◌, arith, Bytes, bytes_eq, bytes_eq_refl, bytes_eq-false, ◌≢◌,
  from_le_bytes, from_le_bytes-to_le_bytes_u32, from_le_bytes-to_le_bytes_u64, slice, fields,
  slice-field_at, slice-all, slice_from-fields,
}
use foldervault.Vault.{magic, version, ok}
use foldervault.Primitives.{Primitives, IsLawful}
use foldervault.Header.{Header, to_bytes, from_bytes}
use foldervault.Header.Layout.{IsHeader, layout, layout-lengths, total-layout, to_bytes-fields}

-- The fields that `from_bytes` reads from a header that was written with any MAC.
module _ (h : Header) (w : IsHeader h) (mac : Bytes) where
  abbrev written : Bytes
  written = fields (layout h) ++ mac

  read_magic : slice 0 4 written ≡ magic
  read_magic = slice-field_at 0 0 4 (layout h) mac (omega arith) refl refl

  read_version : from_le_bytes (slice 4 8 written) ≡ version
  read_version =
      ap from_le_bytes (
        slice-field_at 1 4 8 (layout h) mac (omega arith) (omega (arith, layout-lengths h))
          (omega (arith, layout-lengths h)))
      ∙ from_le_bytes-to_le_bytes_u32 version (omega arith)

  read_uuid : slice 8 24 written ≡ h.uuid
  read_uuid =
      slice-field_at 2 8 24 (layout h) mac (omega arith) (omega (arith, layout-lengths h))
        (omega (arith, w.uuid_length, layout-lengths h))

  read_salt : slice 24 40 written ≡ h.salt
  read_salt =
      slice-field_at 3 24 40 (layout h) mac (omega arith) (omega (arith, layout-lengths h))
        (omega (arith, w.salt_length, layout-lengths h))

  read_m_cost : from_le_bytes (slice 40 44 written) ≡ h.kdf.m_cost_kib
  read_m_cost =
      ap from_le_bytes (
        slice-field_at 4 40 44 (layout h) mac (omega arith) (omega (arith, layout-lengths h))
          (omega (arith, layout-lengths h)))
      ∙ from_le_bytes-to_le_bytes_u32 (h.kdf.m_cost_kib) w.m_cost_range

  read_t_cost : from_le_bytes (slice 44 48 written) ≡ h.kdf.t_cost
  read_t_cost =
      ap from_le_bytes (
        slice-field_at 5 44 48 (layout h) mac (omega arith) (omega (arith, layout-lengths h))
          (omega (arith, layout-lengths h)))
      ∙ from_le_bytes-to_le_bytes_u32 (h.kdf.t_cost) w.t_cost_range

  read_lanes : from_le_bytes (slice 48 52 written) ≡ h.kdf.lanes
  read_lanes =
      ap from_le_bytes (
        slice-field_at 6 48 52 (layout h) mac (omega arith) (omega (arith, layout-lengths h))
          (omega (arith, layout-lengths h)))
      ∙ from_le_bytes-to_le_bytes_u32 (h.kdf.lanes) w.lanes_range

  read_wrapped_dk_pw : slice 52 112 written ≡ h.wrapped_dk_pw
  read_wrapped_dk_pw =
      slice-field_at 7 52 112 (layout h) mac (omega arith) (omega (arith, layout-lengths h))
        (omega (arith, w.pw_length))

  read_wrapped_dk_mk : slice 112 204 written ≡ h.wrapped_dk_mk
  read_wrapped_dk_mk =
      slice-field_at 8 112 204 (layout h) mac (omega arith) (omega (arith, layout-lengths h))
        (omega (arith, w.mk_length))

  read_fail_count : from_le_bytes (slice 204 208 written) ≡ h.lockout.fail_count
  read_fail_count =
      ap from_le_bytes (
        slice-field_at 9 204 208 (layout h) mac (omega arith) (omega (arith, layout-lengths h))
          (omega (arith, layout-lengths h)))
      ∙ from_le_bytes-to_le_bytes_u32 (h.lockout.fail_count) w.fail_count_range

  read_locked_until : from_le_bytes (slice 212 220 written) ≡ h.lockout.locked_until
  read_locked_until =
      ap from_le_bytes (
        slice-field_at 11 212 220 (layout h) mac (omega arith) (omega (arith, layout-lengths h))
          (omega (arith, layout-lengths h)))
      ∙ from_le_bytes-to_le_bytes_u64 (h.lockout.locked_until) w.locked_until_range

  read_entry_count : from_le_bytes (slice 220 228 written) ≡ h.entry_count
  read_entry_count =
      ap from_le_bytes (
        slice-field_at 12 220 228 (layout h) mac (omega arith) (omega (arith, layout-lengths h))
          (omega (arith, layout-lengths h)))
      ∙ from_le_bytes-to_le_bytes_u64 (h.entry_count) w.entry_count_range

  read_payload_len : from_le_bytes (slice 228 236 written) ≡ h.payload_len
  read_payload_len =
      ap from_le_bytes (
        slice-field_at 13 228 236 (layout h) mac (omega arith) (omega (arith, layout-lengths h))
          (omega (arith, layout-lengths h)))
      ∙ from_le_bytes-to_le_bytes_u64 (h.payload_len) w.payload_len_range

module _ (P : Primitives) (h : Header) (w : IsHeader h) (mac key : Bytes) where
  -- Reading a header whose MAC is `mac`, with the install key `key`.
  pub from_bytes-written :
      from_bytes P (fields (layout h) ++ mac) key
      ≡ ok (record h { hmac_ok = bytes_eq (P.hmac key (fields (layout h))) mac })
  unfolding from_bytes bytes_eq
  from_bytes-written = rw (
    from_bytes,
    read_magic h w mac,
    read_version h w mac,
    read_uuid h w mac,
    read_salt h w mac,
    read_m_cost h w mac,
    read_t_cost h w mac,
    read_lanes h w mac,
    read_wrapped_dk_pw h w mac,
    read_wrapped_dk_mk h w mac,
    read_fail_count h w mac,
    read_locked_until h w mac,
    read_entry_count h w mac,
    read_payload_len h w mac,
    slice-all 236 (layout h) mac (total-layout h w),
    slice_from-fields 236 (layout h) mac (total-layout h w),
  )

module _ (P : Primitives) (L : IsLawful P) where
  -- With the key that wrote it, the header is read back whole and trusted.
  pub from_bytes-to_bytes_own :
      (h : Header) (key : Bytes)
      → IsHeader h
      → from_bytes P (to_bytes P h key) key ≡ ok (record h { hmac_ok = true })
  from_bytes-to_bytes_own h key w = rw (to_bytes-fields P L h key w) (
      from_bytes-written P h w (P.hmac key (fields (layout h))) key
      ∙ ap (λ t. ok (record h { hmac_ok = t })) (bytes_eq_refl (P.hmac key (fields (layout h)))))

  -- With another key the fields are read alike, and the header is trusted only if the two keys make
  -- one MAC of its fields.
  pub from_bytes-to_bytes_foreign :
      (h : Header) (key reader : Bytes)
      → IsHeader h
      → P.hmac reader (fields (layout h)) ≢ P.hmac key (fields (layout h))
      → from_bytes P (to_bytes P h key) reader ≡ ok (record h { hmac_ok = false })
  from_bytes-to_bytes_foreign h key reader w differ = rw (to_bytes-fields P L h key w) (
      from_bytes-written P h w (P.hmac key (fields (layout h))) reader
      ∙ ap (λ t. ok (record h { hmac_ok = t })) (bytes_eq-false _ _ differ))
