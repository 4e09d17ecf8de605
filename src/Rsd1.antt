-- ===== src/Rsd1.antt =====
-- components/robusto/proxy/transports/rsd1/src/robusto_rsd1_protocol.c: the packets that carry frames
-- over the wire of the RSD1 transport.
pub mod Decode
pub mod RoundTrip
mod Tests
use robusto.Prelude.{
  ℕ, ◌+◌, ◌&&◌, ◌||◌, Option, none, some, List, [], ◌∷◌, ◌++◌, ltb, ◌==◌, ◌!=◌, if◌then◌else◌,
  is_none, take, drop, byte_at, le16, le32, read_le16, read_le32,
}
use robusto.Crc32.{crc32_iso_hdlc}

-- Sizes, in bytes.
abbrev pub header_size : ℕ
header_size = 20

abbrev pub crc_size : ℕ
crc_size = 4

abbrev pub max_payload_size : ℕ
max_payload_size = 4120

abbrev pub version : ℕ
version = 1

-- `robusto_rsd1_result_t`
pub data Rsd1Result : Type 0 where
  ok invalid_argument bad_magic bad_version bad_reserved bad_length bad_crc : Rsd1Result

-- `robusto_rsd1_packet_view_t`; the payload is given by its bytes.
pub record PacketView : Type 0 where
  pub message_id : ℕ
  pub sequence : ℕ
  pub payload : List ℕ
  pub payload_size : ℕ

-- `required_size`
abbrev pub packet_size_bytes : ℕ → ℕ
packet_size_bytes payload_size = header_size + payload_size + crc_size

-- The bytes in front of the payload: those that no statement stores are cleared by `memset`.
unfoldable pub packet_header : ℕ → ℕ → ℕ → List ℕ
packet_header message_id sequence payload_size =
    0x52
    ∷ 0x53
    ∷ 0x44
    ∷ 0x31
    ∷ version
    ∷ header_size
    ∷ 0
    ∷ 0
    ∷ (le32 message_id ++ (le32 sequence ++ (le16 payload_size ++ (0 ∷ 0 ∷ []))))

-- `memcpy` of the payload, done only for a size above 0.
abbrev pub copied : ℕ → Option (List ℕ) → List ℕ
copied payload_size none = []
copied payload_size (some payload) = take payload_size payload

-- The packet without its CRC.
unfoldable pub packet_body : ℕ → ℕ → Option (List ℕ) → ℕ → List ℕ
packet_body message_id sequence payload payload_size =
    packet_header message_id sequence payload_size ++ copied payload_size payload

-- All the bytes that are stored.
unfoldable pub packet_bytes : ℕ → ℕ → Option (List ℕ) → ℕ → List ℕ
packet_bytes message_id sequence payload payload_size =
    let body = packet_body message_id sequence payload payload_size in
    body ++ le32 (crc32_iso_hdlc body (header_size + payload_size))

-- `robusto_rsd1_encode`: the result, with the buffer and `*packet_size` as it leaves them.
unfoldable pub encode :
    Option (List ℕ)
    → ℕ
    → ℕ
    → ℕ
    → Option (List ℕ)
    → ℕ
    → Option ℕ
    → Rsd1Result × Option (List ℕ) × Option ℕ
encode (some buffer) buffer_size message_id sequence payload payload_size (some old) =
    if (message_id == 0 || (sequence == 0 || (ltb 0 payload_size && is_none payload)))
    then (invalid_argument, some buffer, some old)
    else if ltb max_payload_size payload_size || ltb buffer_size (packet_size_bytes payload_size)
    then (bad_length, some buffer, some old)
    else (
      ok,
      some (
          packet_bytes message_id sequence payload payload_size
          ++ drop (packet_size_bytes payload_size) buffer),
      some (packet_size_bytes payload_size),
    )
encode buffer buffer_size message_id sequence payload payload_size packet_size =
    (invalid_argument, buffer, packet_size)

-- The checks of `robusto_rsd1_decode_prefix` up to the CRC.
unfoldable pub check_packet : List ℕ → ℕ → Rsd1Result
check_packet buffer buffer_size =
    let payload_size = read_le16 (drop 16 buffer) in
    if ltb buffer_size (header_size + crc_size)
    then bad_length
    else if byte_at buffer 0 != 0x52
        || (byte_at buffer 1 != 0x53 || (byte_at buffer 2 != 0x44 || byte_at buffer 3 != 0x31))
    then bad_magic
    else if byte_at buffer 4 != version || byte_at buffer 5 != header_size
    then bad_version
    else if byte_at buffer 6 != 0
        || (byte_at buffer 7 != 0 || (byte_at buffer 18 != 0 || byte_at buffer 19 != 0))
    then bad_reserved
    else if ltb max_payload_size payload_size || ltb buffer_size (packet_size_bytes payload_size)
    then bad_length
    else if crc32_iso_hdlc buffer (header_size + payload_size)
        != read_le32 (drop (header_size + payload_size) buffer)
    then bad_crc
    else ok

-- What is stored in `*packet`.
unfoldable pub packet_view : List ℕ → PacketView
packet_view buffer = record {
  message_id = read_le32 (drop 8 buffer);
  sequence = read_le32 (drop 12 buffer);
  payload = take (read_le16 (drop 16 buffer)) (drop header_size buffer);
  payload_size = read_le16 (drop 16 buffer);
}

-- The rest of the function, by the outcome of the checks.
unfoldable pub after_checks :
    Rsd1Result → List ℕ → PacketView → ℕ → Rsd1Result × Option PacketView × Option ℕ
after_checks ok buffer old old_size =
    if read_le32 (drop 8 buffer) == 0 || read_le32 (drop 12 buffer) == 0
    then (invalid_argument, some (packet_view buffer), some old_size)
    else (ok, some (packet_view buffer), some (packet_size_bytes (read_le16 (drop 16 buffer))))
after_checks r buffer old old_size = (r, some old, some old_size)

-- `robusto_rsd1_decode_prefix`: the result, with `*packet` and `*packet_size` as it leaves them.
unfoldable pub decode_prefix :
    Option (List ℕ) → ℕ → Option PacketView → Option ℕ → Rsd1Result × Option PacketView × Option ℕ
decode_prefix (some buffer) buffer_size (some old) (some old_size) =
    after_checks (check_packet buffer buffer_size) buffer old old_size
decode_prefix buffer buffer_size packet packet_size = (invalid_argument, packet, packet_size)

-- The comparison at the end of `robusto_rsd1_decode`, by the result of `decode_prefix`.
unfoldable pub whole_packet :
    ℕ → Rsd1Result × Option PacketView × Option ℕ → Rsd1Result × Option PacketView
whole_packet buffer_size (ok, packet, some packet_size) =
    ((if packet_size == buffer_size then ok else bad_length), packet)
whole_packet buffer_size (r, packet, packet_size) = (r, packet)

-- `robusto_rsd1_decode`
unfoldable pub decode : Option (List ℕ) → ℕ → Option PacketView → Rsd1Result × Option PacketView
decode buffer buffer_size packet =
    whole_packet buffer_size (decode_prefix buffer buffer_size packet (some 0))
