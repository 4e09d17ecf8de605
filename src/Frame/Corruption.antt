-- ===== src/Frame/Corruption.antt =====
-- A frame damaged in one byte does not pass `robusto_proxy_frame_validate_buffer`.
use robusto.Prelude.{
  ℕ, ◌-◌, ◌≤◌, ◌<◌, ◌≡◌, ◌≢◌, ◌⊎◌, inl, sym, ap, ◌∙◌, Option, some, List, arith, AreBytes, IsByte,
  byte_at, set, drop, length, read_le32, read_le32-set_outside, read_le32_injective, AreBytes-set,
  get_or-set_self, dec_lt,
}
use robusto.Protocol.{ok, crc_size, frame_size_bytes}
use robusto.Crc32.{crc32_iso_hdlc}
use robusto.Crc32.Detects.{crc32-set, crc32-set_behind}
use robusto.Frame.{read_header, covered_size, expected_crc, actual_crc, validate_buffer}
use robusto.Frame.Validate.{IsValidFrame, validate_buffer-ok}

abbrev pub frame_size : List ℕ → ℕ
frame_size buffer = frame_size_bytes (read_header buffer).payload_length

module _ (buffer : List ℕ) (i v : ℕ) (bytes : AreBytes buffer) (byte : IsByte v)
    (outside : (i < 16) ⊎ (20 ≤ i)) where
  same_covered : covered_size (set buffer i v) ≡ covered_size buffer
  same_covered =
      ap (λ n. frame_size_bytes n - crc_size) (read_le32-set_outside 16 buffer i v outside)

  -- Damage in the covered part changes the CRC that is computed.
  body_damage :
      frame_size buffer ≤ length buffer
      → i < covered_size buffer
      → byte_at buffer i ≢ v
      → expected_crc buffer ≡ actual_crc buffer
      → expected_crc (set buffer i v) ≢ actual_crc (set buffer i v)
  unfolding expected_crc actual_crc
  body_damage whole inside changed intact e =
      crc32-set buffer (covered_size buffer) i v bytes byte inside (omega arith) changed (
        ap (crc32_iso_hdlc (set buffer i v)) (sym same_covered)
        ∙ e
        ∙ ap (λ n. read_le32 (drop n (set buffer i v))) same_covered
        ∙ read_le32-set_outside (covered_size buffer) buffer i v (inl inside)
        ∙ sym intact)

  crc_unread : covered_size buffer ≤ i → expected_crc (set buffer i v) ≡ expected_crc buffer
  unfolding expected_crc
  crc_unread behind =
      ap (crc32_iso_hdlc (set buffer i v)) same_covered
      ∙ crc32-set_behind buffer (covered_size buffer) i v behind

  -- Damage in the CRC changes the CRC that is read.
  crc_damage :
      frame_size buffer ≤ length buffer
      → covered_size buffer ≤ i
      → i < frame_size buffer
      → byte_at buffer i ≢ v
      → expected_crc buffer ≡ actual_crc buffer
      → expected_crc (set buffer i v) ≢ actual_crc (set buffer i v)
  unfolding actual_crc
  crc_damage whole behind inside changed intact e = changed (
      read_le32_injective (covered_size buffer) buffer (set buffer i v) i bytes
        (AreBytes-set buffer i v bytes byte)
        (sym intact
          ∙ sym (crc_unread behind)
          ∙ e
          ∙ ap (λ n. read_le32 (drop n (set buffer i v))) same_covered)
        behind (omega arith)
      ∙ get_or-set_self buffer i v 0 (omega arith))

-- If a whole frame in the buffer is accepted, then with any one of its bytes changed, other than
-- the four of the payload length, it is not accepted.
pub validate_buffer-set :
    (buffer : List ℕ) (size : ℕ) (out_crc : Option ℕ) (i v : ℕ)
    → AreBytes buffer
    → IsByte v
    → size ≤ length buffer
    → (validate_buffer (some buffer) size out_crc).0 ≡ ok
    → (i < 16) ⊎ (20 ≤ i)
    → i < frame_size buffer
    → byte_at buffer i ≢ v
    → (validate_buffer (some (set buffer i v)) size out_crc).0 ≢ ok
validate_buffer-set buffer size out_crc i v bytes byte whole accepted outside inside changed e =
    let before : IsValidFrame buffer size = validate_buffer-ok buffer size out_crc accepted in
    let after : IsValidFrame (set buffer i v) size =
      validate_buffer-ok (set buffer i v) size out_crc e in
    elim (dec_lt i (covered_size buffer)) [
      | yes body ↦
          body_damage buffer i v bytes byte outside (omega (arith, before.room)) body changed
            before.crc after.crc
      | no trailer ↦
          crc_damage buffer i v bytes byte outside (omega (arith, before.room)) (omega arith) inside
            changed before.crc after.crc
    ]
