-- ===== src/Frame.antt =====
-- components/robusto/proxy/src/robusto_proxy_frame.c: the frame codec. A frame is the header, the
-- payload and the CRC of both, little-endian.
pub mod Validate
pub mod RoundTrip
pub mod Corruption
mod Tests
use robusto.Prelude.{
  ℕ, ◌+◌, ◌-◌, Bool, false, not, ◌&&◌, ◌||◌, Option, none, some, List, [], ◌∷◌, ◌++◌, ltb, ◌==◌,
  ◌!=◌, if◌then◌else◌, is_none, take, drop, byte_at, le32, read_le32,
}
use robusto.Protocol.{
  ProxyResult, ok, invalid_argument, bad_magic, bad_version, bad_header_length, bad_flags,
  bad_reserved, bad_length, bad_crc, FrameHeader, header_size, crc_size, slot_size, protocol_major,
  flag_is_valid, payload_length_is_valid, frame_size_bytes,
}
use robusto.Crc32.{crc32_iso_hdlc}

-- `robusto_proxy_frame_header_init`
unfoldable pub header_init : ℕ → ℕ → ℕ → ℕ → ℕ → ℕ → FrameHeader
header_init flags domain opcode correlation_id sequence payload_length = record {
  magic_0 = 0x52;
  magic_1 = 0x50;
  protocol_major = protocol_major;
  header_length = header_size;
  flags = flags;
  domain = domain;
  opcode = opcode;
  reserved = 0;
  correlation_id = correlation_id;
  sequence = sequence;
  payload_length = payload_length;
}

-- `robusto_proxy_frame_validate_header` at a header that is there.
unfoldable pub check_header : FrameHeader → ProxyResult
check_header h =
    if h.magic_0 != 0x52 || h.magic_1 != 0x50
    then bad_magic
    else if h.protocol_major != protocol_major
    then bad_version
    else if h.header_length != header_size
    then bad_header_length
    else if not (flag_is_valid h.flags)
    then bad_flags
    else if h.reserved != 0
    then bad_reserved
    else if not (payload_length_is_valid h.payload_length)
    then bad_length
    else if ltb slot_size (frame_size_bytes h.payload_length)
    then bad_length
    else ok

-- `robusto_proxy_frame_validate_header`
pub validate_header : Option FrameHeader → ProxyResult
validate_header none = invalid_argument
validate_header (some h) = check_header h

-- The cast of a buffer to `const robusto_proxy_frame_header_t *`: the structure has no padding, and
-- the machines of both ends are little-endian.
abbrev pub read_header : List ℕ → FrameHeader
read_header buffer = record {
  magic_0 = byte_at buffer 0;
  magic_1 = byte_at buffer 1;
  protocol_major = byte_at buffer 2;
  header_length = byte_at buffer 3;
  flags = byte_at buffer 4;
  domain = byte_at buffer 5;
  opcode = byte_at buffer 6;
  reserved = byte_at buffer 7;
  correlation_id = read_le32 (drop 8 buffer);
  sequence = read_le32 (drop 12 buffer);
  payload_length = read_le32 (drop 16 buffer);
}

-- The bytes of a frame that the CRC covers.
abbrev pub covered_size : List ℕ → ℕ
covered_size buffer = frame_size_bytes (read_header buffer).payload_length - crc_size

-- `expected_crc`, computed over the covered bytes, and `actual_crc`, read behind them.
unfoldable pub expected_crc : List ℕ → ℕ
expected_crc buffer = crc32_iso_hdlc buffer (covered_size buffer)

unfoldable pub actual_crc : List ℕ → ℕ
actual_crc buffer = read_le32 (drop (covered_size buffer) buffer)

-- The value of `*out_crc` after the call: it is stored where the pointer is not NULL.
abbrev store_crc : Option ℕ → ℕ → Option ℕ
store_crc none crc = none
store_crc (some old) crc = some crc

-- `robusto_proxy_frame_validate_buffer` from `frame_size` on.
check_frame : List ℕ → ℕ → Option ℕ → ProxyResult × Option ℕ
check_frame buffer size out_crc =
    if ltb size (frame_size_bytes (read_header buffer).payload_length)
    then (bad_length, out_crc)
    else if expected_crc buffer == actual_crc buffer
    then (ok, store_crc out_crc (expected_crc buffer))
    else (bad_crc, store_crc out_crc (expected_crc buffer))

-- What follows the validation of the header, by its result.
after_header : ProxyResult → ProxyResult × Option ℕ → Option ℕ → ProxyResult × Option ℕ
after_header ok rest out_crc = rest
after_header e rest out_crc = (e, out_crc)

-- `robusto_proxy_frame_validate_buffer`: the result, and `*out_crc` (`none` where it is NULL).
unfoldable pub validate_buffer : Option (List ℕ) → ℕ → Option ℕ → ProxyResult × Option ℕ
unfolding after_header check_frame
validate_buffer none size out_crc = (invalid_argument, out_crc)
validate_buffer (some buffer) size out_crc =
    if ltb size (header_size + crc_size)
    then (bad_length, out_crc)
    else after_header (check_header (read_header buffer)) (check_frame buffer size out_crc) out_crc

-- The first 20 bytes that `robusto_proxy_frame_encode` stores.
unfoldable pub header_bytes : FrameHeader → List ℕ
header_bytes h =
    h.magic_0
    ∷ h.magic_1
    ∷ h.protocol_major
    ∷ h.header_length
    ∷ h.flags
    ∷ h.domain
    ∷ h.opcode
    ∷ h.reserved
    ∷ (le32 h.correlation_id ++ (le32 h.sequence ++ le32 h.payload_length))

-- `memcpy` of the payload, done only for a length above 0.
abbrev pub payload_bytes : ℕ → Option (List ℕ) → List ℕ
payload_bytes size none = []
payload_bytes size (some payload) = take size payload

-- The frame without its CRC.
unfoldable pub frame_body : FrameHeader → Option (List ℕ) → List ℕ
frame_body h payload = header_bytes h ++ payload_bytes h.payload_length payload

-- All the bytes that are stored: together they fill the `required_size` bytes that `memset` clears.
unfoldable pub frame_bytes : FrameHeader → Option (List ℕ) → List ℕ
frame_bytes h payload =
    let body = frame_body h payload in
    body ++ le32 (crc32_iso_hdlc body (frame_size_bytes h.payload_length - crc_size))

-- `robusto_proxy_frame_encode` from `required_size` on: the result, the buffer and `*frame_size`.
fill_frame :
    List ℕ → ℕ → FrameHeader → Option (List ℕ) → ℕ → ProxyResult × Option (List ℕ) × Option ℕ
fill_frame buffer buffer_size h payload old_size =
    let required_size = frame_size_bytes h.payload_length in
    if ltb buffer_size required_size
    then (bad_length, some buffer, some old_size)
    else (ok, some (frame_bytes h payload ++ drop required_size buffer), some required_size)

encode_checked :
    ProxyResult
    → List ℕ
    → ℕ
    → FrameHeader
    → Option (List ℕ)
    → ℕ
    → ProxyResult × Option (List ℕ) × Option ℕ
unfolding fill_frame
encode_checked ok buffer buffer_size h payload old_size =
    fill_frame buffer buffer_size h payload old_size
encode_checked e buffer buffer_size h payload old_size = (e, some buffer, some old_size)

-- `robusto_proxy_frame_encode`: the result, with the buffer and `*frame_size` as it leaves them. An
-- argument that is NULL is `none`.
unfoldable pub encode :
    Option (List ℕ)
    → ℕ
    → Option FrameHeader
    → Option (List ℕ)
    → Option ℕ
    → ProxyResult × Option (List ℕ) × Option ℕ
unfolding encode_checked
encode (some buffer) buffer_size (some h) payload (some old_size) =
    if ltb 0 h.payload_length && is_none payload
    then (invalid_argument, some buffer, some old_size)
    else encode_checked (check_header h) buffer buffer_size h payload old_size
encode buffer buffer_size h payload frame_size = (invalid_argument, buffer, frame_size)

-- `robusto_proxy_slot_is_empty`
pub slot_is_empty : Option (List ℕ) → ℕ → Bool
slot_is_empty none size = false
slot_is_empty (some slot) size =
    if ltb size 2 then false else (byte_at slot 0 == 0 && byte_at slot 1 == 0)
