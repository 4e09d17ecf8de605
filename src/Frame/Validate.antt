-- ===== src/Frame/Validate.antt =====
-- What `robusto_proxy_frame_validate_header` and `robusto_proxy_frame_validate_buffer` accept.
use robusto.Prelude.{ℕ, ◌≤◌, ◌≡◌, ◌↔◌, true, Option, some, List, arith}
use robusto.Protocol.{
  ok, FrameHeader, header_size, slot_size, max_payload, protocol_major, flag_is_valid,
  payload_length_is_valid, frame_size_bytes,
}
use robusto.Frame.{
  check_header, validate_header, read_header, expected_crc, actual_crc, validate_buffer,
}

-- A header that the protocol admits.
pub record IsValidHeader (h : FrameHeader) : Type 0 where
  pub magic_0 : h.magic_0 ≡ 0x52
  pub magic_1 : h.magic_1 ≡ 0x50
  pub version : h.protocol_major ≡ protocol_major
  pub length : h.header_length ≡ header_size
  pub flags : flag_is_valid h.flags ≡ true
  pub reserved : h.reserved ≡ 0
  pub payload : h.payload_length ≤ max_payload

pub check_header-ok : (h : FrameHeader) → check_header h ≡ ok → IsValidHeader h
unfolding check_header payload_length_is_valid
check_header-ok h e = ground arith

-- A valid header passes: the check of the slot size, which comes last, never fails then.
pub check_header_valid : (h : FrameHeader) → IsValidHeader h → check_header h ≡ ok
unfolding check_header payload_length_is_valid
check_header_valid h v = ground arith

-- A header passes `robusto_proxy_frame_validate_header` exactly when it is valid and its frame fits
-- a transport slot.
pub validate_header_iff :
    (h : FrameHeader)
    → (validate_header (some h) ≡ ok)
      ↔ (IsValidHeader h × (frame_size_bytes h.payload_length ≤ slot_size))
unfolding validate_header
validate_header_iff h = (
  λ e. let v : IsValidHeader h = check_header-ok h e in (v, omega arith),
  λ v. check_header_valid h v.0,
)

-- A buffer whose first bytes are an intact frame.
pub record IsValidFrame (buffer : List ℕ) (size : ℕ) : Type 0 where
  pub room : frame_size_bytes (read_header buffer).payload_length ≤ size
  pub header : IsValidHeader (read_header buffer)
  pub crc : expected_crc buffer ≡ actual_crc buffer

pub validate_buffer-ok :
    (buffer : List ℕ) (size : ℕ) (out_crc : Option ℕ)
    → (validate_buffer (some buffer) size out_crc).0 ≡ ok
    → IsValidFrame buffer size
unfolding validate_buffer
validate_buffer-ok buffer size out_crc e = ground (arith, check_header-ok (read_header buffer))

pub validate_buffer_valid :
    (buffer : List ℕ) (size : ℕ) (out_crc : Option ℕ)
    → IsValidFrame buffer size
    → (validate_buffer (some buffer) size out_crc).0 ≡ ok
unfolding validate_buffer
validate_buffer_valid buffer size out_crc v =
    ground (arith, check_header_valid (read_header buffer) v.header)

-- `robusto_proxy_frame_validate_buffer` accepts exactly the buffers that begin with a valid header,
-- hold the whole frame, and carry its CRC.
pub validate_buffer_iff :
    (buffer : List ℕ) (size : ℕ) (out_crc : Option ℕ)
    → ((validate_buffer (some buffer) size out_crc).0 ≡ ok) ↔ IsValidFrame buffer size
validate_buffer_iff buffer size out_crc =
    (validate_buffer-ok buffer size out_crc, validate_buffer_valid buffer size out_crc)
