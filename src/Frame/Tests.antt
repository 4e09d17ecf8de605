-- ===== src/Frame/Tests.antt =====
-- Frames at concrete bytes, and the theorems applied to them.
use robusto.Prelude.{
  ℕ, ◌≡◌, ◌≢◌, ◌↔◌, refl, inr, some, none, List, [], ◌∷◌, ◌++◌, arith, set, take, drop, replicate,
}
use robusto.Protocol.{
  ok, bad_crc, bad_length, FrameHeader, FitsHeader, flag_is_valid, payload_length_is_valid,
  frame_size_bytes,
}
use robusto.Crc32.{crc32_iso_hdlc, crc_bytes, crc_byte, crc_bits, crc_bit}
use robusto.Crc32.Detects.{crc32-set}
use robusto.Frame.{
  header_init, check_header, read_header, validate_buffer, frame_bytes, encode, expected_crc,
  actual_crc, frame_body, header_bytes,
}
use robusto.Frame.Validate.{IsValidHeader, IsValidFrame, validate_buffer_iff}
use robusto.Frame.RoundTrip.{validate_buffer-encode}
use robusto.Frame.Corruption.{validate_buffer-set}

-- The check value that the CRC's definition gives for the text "123456789".
check_value :
    crc32_iso_hdlc (0x31 ∷ 0x32 ∷ 0x33 ∷ 0x34 ∷ 0x35 ∷ 0x36 ∷ 0x37 ∷ 0x38 ∷ 0x39 ∷ []) 9
    ≡ 0xCBF4_3926
unfolding crc32_iso_hdlc crc_bytes crc_byte crc_bits crc_bit
check_value = refl

abbrev greeting : FrameHeader
greeting = record {
  magic_0 = 0x52;
  magic_1 = 0x50;
  protocol_major = 1;
  header_length = 20;
  flags = 1;
  domain = 0;
  opcode = 1;
  reserved = 0;
  correlation_id = 7;
  sequence = 9;
  payload_length = 3;
}

greeting_init : header_init 1 0 1 7 9 3 ≡ greeting
unfolding header_init
greeting_init = refl

abbrev payload : List ℕ
payload = 10 ∷ 20 ∷ 30 ∷ []

abbrev room : List ℕ
room = replicate 32 0xEE

abbrev wire : List ℕ
wire =
    0x52 ∷ 0x50 ∷ 1 ∷ 20 ∷ 1 ∷ 0 ∷ 1 ∷ 0 ∷ 7 ∷ 0 ∷ 0 ∷ 0 ∷ 9 ∷ 0 ∷ 0 ∷ 0 ∷ 3 ∷ 0 ∷ 0 ∷ 0 ∷ 10 ∷ 20
    ∷ 30 ∷ 76 ∷ 205 ∷ 16 ∷ 145 ∷ []

encoded :
    (encode (some room) 32 (some greeting) (some payload) (some 0)).1
    ≡ some (wire ++ replicate 5 0xEE)
unfolding encode frame_bytes frame_body header_bytes check_header flag_is_valid
    payload_length_is_valid crc32_iso_hdlc crc_bytes crc_byte crc_bits crc_bit
encoded = refl

greeting_fits : FitsHeader greeting
greeting_fits = omega arith

greeting_IsValid : IsValidHeader greeting
unfolding flag_is_valid
greeting_IsValid = record {
  magic_0 = refl;
  magic_1 = refl;
  version = refl;
  length = refl;
  flags = refl;
  reserved = refl;
  payload = omega arith;
}

wire_accepted : (validate_buffer (some wire) 27 none).0 ≡ ok
unfolding validate_buffer expected_crc actual_crc check_header flag_is_valid payload_length_is_valid
    crc32_iso_hdlc crc_bytes crc_byte crc_bits crc_bit
wire_accepted = refl

wire_damaged : validate_buffer (some (set wire 21 21)) 27 (some 0) ≡ (bad_crc, some 2282486797)
unfolding validate_buffer expected_crc actual_crc check_header flag_is_valid payload_length_is_valid
    crc32_iso_hdlc crc_bytes crc_byte crc_bits crc_bit
wire_damaged = refl

wire_cut : validate_buffer (some wire) 26 none ≡ (bad_length, none)
unfolding validate_buffer expected_crc actual_crc check_header flag_is_valid payload_length_is_valid
wire_cut = refl

crc32-set_example : crc32_iso_hdlc (10 ∷ 21 ∷ 30 ∷ []) 3 ≢ crc32_iso_hdlc (10 ∷ 20 ∷ 30 ∷ []) 3
crc32-set_example =
    crc32-set (10 ∷ 20 ∷ 30 ∷ []) 3 1 21 (omega arith) (omega arith) (omega arith) (omega arith)
      (omega arith)

validate_buffer_iff_example : ((validate_buffer (some wire) 27 none).0 ≡ ok) ↔ IsValidFrame wire 27
validate_buffer_iff_example = validate_buffer_iff wire 27 none

validate_buffer-encode_example :
    (out : List ℕ) × (encode (some room) 32 (some greeting) (some payload) (some 0)
      ≡ (ok, some out, some (frame_size_bytes 3)))
    × ((validate_buffer (some out) 32 none).0 ≡ ok)
    × (read_header out ≡ greeting)
    × (take 3 (drop 20 out) ≡ payload)
    × (drop (frame_size_bytes 3) out ≡ drop (frame_size_bytes 3) room)
validate_buffer-encode_example =
    validate_buffer-encode greeting (some payload) room 32 0 32 greeting_fits (omega arith)
      greeting_IsValid (omega arith) (omega arith)

validate_buffer-set_example : (validate_buffer (some (set wire 21 21)) 27 none).0 ≢ ok
validate_buffer-set_example =
    validate_buffer-set wire 27 none 21 21 (omega arith) (omega arith) (omega arith) wire_accepted
      (inr (omega arith)) (omega arith) (omega arith)
