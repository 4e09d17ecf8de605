-- ===== src/Rsd1/RoundTrip.antt =====
-- `robusto_rsd1_encode` against `robusto_rsd1_decode_prefix`.
use robusto.Prelude.{
  ℕ, ◌+◌, ◌≤◌, ◌<◌, ◌^◌, ◌≡◌, ◌≢◌, ◌==◌, if◌then◌else◌, refl, sym, ap, ◌∙◌, Option, none, some,
  List, ◌++◌, append_assoc, arith, AreBytes, AreBytes-append, drop, length, le32, read_le32,
  read_le16, take-append, drop-append, read_le32-le32,
}
use robusto.Crc32.{crc32_iso_hdlc}
use robusto.Crc32.Detects.{crc32-lt, crc32-append, AreBytes-take}
use robusto.Frame.RoundTrip.{Supplies}
use robusto.Prelude.{length-take}
use robusto.Rsd1.{
  ok, bad_length, PacketView, header_size, max_payload_size, packet_size_bytes, packet_header,
  copied, packet_body, packet_bytes, encode, check_packet, packet_view, decode_prefix, decode,
  whole_packet,
}
use robusto.Rsd1.Decode.{check_packet_lem, decode_prefix_packet}

length-copied : (n : ℕ) (p : Option (List ℕ)) → Supplies n p → length (copied n p) ≡ n
length-copied n none h = omega arith
length-copied n (some payload) h = omega (arith, length-take n payload)

copied-AreBytes : (n : ℕ) (p : Option (List ℕ)) → Supplies n p → AreBytes (copied n p)
copied-AreBytes n none h = tt
copied-AreBytes n (some payload) h = AreBytes-take n payload h.1

module _ (id sequence : ℕ) (p : Option (List ℕ)) (n : ℕ) (id_fits : id < 2 ^ 32)
    (sequence_fits : sequence < 2 ^ 32) (short : n ≤ max_payload_size)
    (supplied : Supplies n p) where
  abbrev body : List ℕ
  body = packet_body id sequence p n

  abbrev crc : ℕ
  crc = crc32_iso_hdlc body (header_size + n)

  length-body : length body ≡ header_size + n
  unfolding packet_body packet_header
  length-body = omega (arith, length-copied n p supplied)

  body-AreBytes : AreBytes body
  unfolding packet_body packet_header
  body-AreBytes =
      AreBytes-append (packet_header id sequence n) (copied n p) (omega arith)
        (copied-AreBytes n p supplied)

  packet_split : (rest : List ℕ) → packet_bytes id sequence p n ++ rest ≡ body ++ (le32 crc ++ rest)
  unfolding packet_bytes
  packet_split rest = append_assoc body (le32 crc) rest

  expected-packet :
      (rest : List ℕ)
      → crc32_iso_hdlc (packet_bytes id sequence p n ++ rest) (header_size + n) ≡ crc
  expected-packet rest =
      rw (packet_split rest)
        (crc32-append body (le32 crc ++ rest) (header_size + n) (sym length-body))

  actual-packet :
      (rest : List ℕ)
      → read_le32 (drop (header_size + n) (packet_bytes id sequence p n ++ rest)) ≡ crc
  actual-packet rest = rw (packet_split rest) (
      ap read_le32 (drop-append body (le32 crc ++ rest) (header_size + n) (sym length-body))
      ∙ read_le32-le32 crc rest (crc32-lt body (header_size + n) body-AreBytes))

  size-packet : (rest : List ℕ) → read_le16 (drop 16 (packet_bytes id sequence p n ++ rest)) ≡ n
  unfolding packet_bytes packet_body packet_header
  size-packet rest = ground arith

  check-packet :
      (rest : List ℕ) (size : ℕ)
      → packet_size_bytes n ≤ size
      → check_packet (packet_bytes id sequence p n ++ rest) size ≡ ok
  check-packet rest size room =
      check_packet_lem (packet_bytes id sequence p n ++ rest) size n (record {
        magic = unfold packet_bytes packet_body packet_header in (refl, refl, refl, refl);
        version = unfold packet_bytes packet_body packet_header in (refl, refl);
        reserved = unfold packet_bytes packet_body packet_header in (refl, refl, refl, refl);
        payload_size = size-packet rest;
        short = short;
        room = room;
        crc = expected-packet rest ∙ sym (actual-packet rest);
      })

  abbrev pub sent : PacketView
  sent = record { message_id = id; sequence = sequence; payload = copied n p; payload_size = n }

  view-packet : (rest : List ℕ) → packet_view (packet_bytes id sequence p n ++ rest) ≡ sent
  unfolding packet_view packet_bytes packet_body packet_header
  view-packet rest = rw (append_assoc (copied n p)) (
      ground
        (arith, take-append (copied n p) (le32 crc ++ rest) n (sym (length-copied n p supplied))))

encode_fills :
    (id sequence : ℕ) (p : Option (List ℕ)) (n : ℕ) (buffer : List ℕ) (buffer_size old_size : ℕ)
    → id ≢ 0
    → sequence ≢ 0
    → n ≤ max_payload_size
    → Supplies n p
    → packet_size_bytes n ≤ buffer_size
    → encode (some buffer) buffer_size id sequence p n (some old_size) ≡ (
      ok,
      some (packet_bytes id sequence p n ++ drop (packet_size_bytes n) buffer),
      some (packet_size_bytes n),
    )
unfolding encode
encode_fills id sequence none n buffer buffer_size old_size id_set sequence_set short supplied
      room =
    ground arith
encode_fills id sequence (some p) n buffer buffer_size old_size id_set sequence_set short supplied
      room =
    ground arith

-- What `robusto_rsd1_encode` stores, given room, for 32-bit message and sequence numbers above 0 and
-- a payload of at most 4120 bytes comes back from `robusto_rsd1_decode_prefix`, whatever stands
-- behind the packet; `robusto_rsd1_decode` takes it exactly if nothing does.
pub decode_prefix-encode :
    (id sequence : ℕ) (p : Option (List ℕ)) (n : ℕ) (buffer : List ℕ) (buffer_size old_size : ℕ)
    (received : ℕ) (old : PacketView)
    → id < 2 ^ 32
    → sequence < 2 ^ 32
    → id ≢ 0
    → sequence ≢ 0
    → n ≤ max_payload_size
    → Supplies n p
    → packet_size_bytes n ≤ buffer_size
    → packet_size_bytes n ≤ received
    → (out : List ℕ) × (encode (some buffer) buffer_size id sequence p n (some old_size)
        ≡ (ok, some out, some (packet_size_bytes n)))
      × (decode_prefix (some out) received (some old) (some old_size) ≡ (
        ok,
        some (record {
          message_id = id;
          sequence = sequence;
          payload = copied n p;
          payload_size = n;
        }),
        some (packet_size_bytes n),
      ))
      × ((decode (some out) received (some old)).0
          ≡ (if packet_size_bytes n == received then ok else bad_length))
unfolding decode
decode_prefix-encode id sequence p n buffer buffer_size old_size received old id_fits sequence_fits
      id_set sequence_set short supplied room fit =
    let rest : List ℕ = drop (packet_size_bytes n) buffer in
    let packet : List ℕ = packet_bytes id sequence p n ++ rest in
    let view : packet_view packet ≡ sent id sequence p n id_fits sequence_fits short supplied =
      view-packet id sequence p n id_fits sequence_fits short supplied rest in
    let back : (o : ℕ)
        → decode_prefix (some packet) received (some old) (some o) ≡ (
          ok,
          some (sent id sequence p n id_fits sequence_fits short supplied),
          some (packet_size_bytes n),
        ) =
      λ o.
        decode_prefix_packet packet received old o
          (check-packet id sequence p n id_fits sequence_fits short supplied rest received fit)
          (rw view id_set) (rw view sequence_set)
        ∙ ap (λ (v : PacketView). (ok, some v, some (packet_size_bytes v.payload_size))) view in
    (
      packet_bytes id sequence p n ++ rest,
      encode_fills id sequence p n buffer buffer_size old_size id_set sequence_set short supplied
          room,
      back old_size,
      rw (back 0) (unfold whole_packet in refl),
    )
