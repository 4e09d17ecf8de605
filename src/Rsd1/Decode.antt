-- ===== src/Rsd1/Decode.antt =====
-- What `robusto_rsd1_decode_prefix` accepts.
use robusto.Prelude.{
  ℕ, ◌+◌, ◌≤◌, ◌≡◌, ◌≢◌, ◌↔◌, refl, ap, Option, some, List, arith, byte_at, drop, read_le32,
  read_le16,
}
use robusto.Crc32.{crc32_iso_hdlc}
use robusto.Rsd1.{
  Rsd1Result, ok, PacketView, header_size, max_payload_size, version, packet_size_bytes,
  check_packet, packet_view, after_checks, decode_prefix,
}

-- A buffer that begins with an intact packet with a payload of `n` bytes.
pub record IsPacket (buffer : List ℕ) (size n : ℕ) : Type 0 where
  pub magic :
      (byte_at buffer 0 ≡ 0x52)
      × (byte_at buffer 1 ≡ 0x53)
      × (byte_at buffer 2 ≡ 0x44)
      × (byte_at buffer 3 ≡ 0x31)
  pub version : (byte_at buffer 4 ≡ version) × (byte_at buffer 5 ≡ header_size)
  pub reserved :
      (byte_at buffer 6 ≡ 0)
      × (byte_at buffer 7 ≡ 0)
      × (byte_at buffer 18 ≡ 0)
      × (byte_at buffer 19 ≡ 0)
  pub payload_size : read_le16 (drop 16 buffer) ≡ n
  pub short : n ≤ max_payload_size
  pub room : packet_size_bytes n ≤ size
  pub crc : crc32_iso_hdlc buffer (header_size + n) ≡ read_le32 (drop (header_size + n) buffer)

pub check_packet_lem :
    (buffer : List ℕ) (size n : ℕ) → IsPacket buffer size n → check_packet buffer size ≡ ok
unfolding check_packet
check_packet_lem buffer size n v =
    let (m0, m1, m2, m3) = v.magic in
    let (r0, r1, r2, r3) = v.reserved in
    let (v0, v1) = v.version in ground (arith, v.payload_size, v.short, v.room, v.crc)

check_packet-ok :
    (buffer : List ℕ) (size : ℕ)
    → check_packet buffer size ≡ ok
    → IsPacket buffer size (read_le16 (drop 16 buffer))
unfolding check_packet
check_packet-ok buffer size e = ground arith

after_checks-ok :
    (r : Rsd1Result) (buffer : List ℕ) (old : PacketView) (o : ℕ)
    → (after_checks r buffer old o).0 ≡ ok
    → (r ≡ ok) × ((packet_view buffer).message_id ≢ 0) × ((packet_view buffer).sequence ≢ 0)
unfolding after_checks packet_view
after_checks-ok ok buffer old o e = (refl, ground arith, ground arith)
after_checks-ok _ buffer old o e = absurd cc

pub decode_prefix_packet :
    (buffer : List ℕ) (size : ℕ) (old : PacketView) (o : ℕ)
    → check_packet buffer size ≡ ok
    → (packet_view buffer).message_id ≢ 0
    → (packet_view buffer).sequence ≢ 0
    → decode_prefix (some buffer) size (some old) (some o)
      ≡ (ok, some (packet_view buffer), some (packet_size_bytes (packet_view buffer).payload_size))
unfolding decode_prefix after_checks packet_view
decode_prefix_packet buffer size old o e id_set sequence_set = ground (arith, e)

-- `robusto_rsd1_decode_prefix` accepts exactly the buffers that begin with an intact packet whose
-- message and sequence numbers are above 0.
pub decode_prefix_iff :
    (buffer : List ℕ) (size : ℕ) (old : PacketView) (old_size : ℕ)
    → ((decode_prefix (some buffer) size (some old) (some old_size)).0 ≡ ok) ↔ (
        IsPacket buffer size (packet_view buffer).payload_size
        × ((packet_view buffer).message_id ≢ 0)
        × ((packet_view buffer).sequence ≢ 0))
unfolding decode_prefix packet_view after_checks
decode_prefix_iff buffer size old old_size = (
  (λ e.
      let (checked, id_set, sequence_set) =
        after_checks-ok (check_packet buffer size) buffer old old_size e in
      (check_packet-ok buffer size checked, id_set, sequence_set)),
  (λ (packet, id_set, sequence_set).
      ap (λ (x : Rsd1Result × Option PacketView × Option ℕ). x.0)
        (decode_prefix_packet buffer size old old_size (check_packet_lem buffer size _ packet)
          id_set sequence_set)),
)
