-- ===== src/Header.antt =====
-- The header of a container: format.rs, `Header` with `to_bytes` and `from_bytes`, and lib.rs.
pub mod Layout
pub mod RoundTrip
use foldervault.Base.{
  ℕ, ◌-◌, Bool, not, Bytes, bytes_eq, ◌==◌, if◌then◌else◌, to_le_bytes, from_le_bytes, zeros,
  copy_at, slice, slice_from,
}
use foldervault.Vault.{VaultError, bad_magic, bad_version, magic, version, Result, ok, err}
use foldervault.Lockout.{LockoutState}
use foldervault.Primitives.{Primitives, KdfParams}

abbrev pub header_len : ℕ
header_len = 268

abbrev pub hmac_offset : ℕ
hmac_offset = header_len - 32

pub record Header : Type 0 where
  pub uuid : Bytes
  pub salt : Bytes
  pub kdf : KdfParams
  pub wrapped_dk_pw : Bytes
  pub wrapped_dk_mk : Bytes
  pub lockout : LockoutState
  pub entry_count : ℕ
  pub payload_len : ℕ
  pub hmac_ok : Bool

-- The bytes before the MAC, as `to_bytes` writes them into the zeroed array.
unfoldable pub body : Header → Bytes
body h =
    let b0 = zeros header_len in
    let b1 = copy_at 0 magic b0 in
    let b2 = copy_at 4 (to_le_bytes 4 version) b1 in
    let b3 = copy_at 8 h.uuid b2 in
    let b4 = copy_at 24 h.salt b3 in
    let b5 = copy_at 40 (to_le_bytes 4 h.kdf.m_cost_kib) b4 in
    let b6 = copy_at 44 (to_le_bytes 4 h.kdf.t_cost) b5 in
    let b7 = copy_at 48 (to_le_bytes 4 h.kdf.lanes) b6 in
    let b8 = copy_at 52 h.wrapped_dk_pw b7 in
    let b9 = copy_at 112 h.wrapped_dk_mk b8 in
    let b10 = copy_at 204 (to_le_bytes 4 h.lockout.fail_count) b9 in
    let b11 = copy_at 212 (to_le_bytes 8 h.lockout.locked_until) b10 in
    let b12 = copy_at 220 (to_le_bytes 8 h.entry_count) b11 in
    copy_at 228 (to_le_bytes 8 h.payload_len) b12

module _ (P : Primitives) where
  -- `Header::to_bytes`
  unfoldable pub to_bytes : Header → Bytes → Bytes
  unfolding body
  to_bytes h hmac_key =
      let b = body h in copy_at hmac_offset (P.hmac hmac_key (slice 0 hmac_offset b)) b

  -- `Header::from_bytes`, on an array of `header_len` bytes.
  unfoldable pub from_bytes : Bytes → Bytes → Result Header
  from_bytes b hmac_key =
      if not (bytes_eq (slice 0 4 b) magic)
      then err bad_magic
      else if not (from_le_bytes (slice 4 8 b) == version)
      then err (bad_version (from_le_bytes (slice 4 8 b)))
      else ok (record {
        uuid = slice 8 24 b;
        salt = slice 24 40 b;
        kdf = record {
          m_cost_kib = from_le_bytes (slice 40 44 b);
          t_cost = from_le_bytes (slice 44 48 b);
          lanes = from_le_bytes (slice 48 52 b);
        };
        wrapped_dk_pw = slice 52 112 b;
        wrapped_dk_mk = slice 112 204 b;
        lockout = record {
          fail_count = from_le_bytes (slice 204 208 b);
          locked_until = from_le_bytes (slice 212 220 b);
        };
        entry_count = from_le_bytes (slice 220 228 b);
        payload_len = from_le_bytes (slice 228 236 b);
        hmac_ok = bytes_eq (P.hmac hmac_key (slice 0 hmac_offset b)) (slice_from hmac_offset b);
      })
