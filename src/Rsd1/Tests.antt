-- ===== src/Rsd1/Tests.antt =====
-- A packet at concrete bytes.
use robusto.Prelude.{ℕ, ◌≡◌, ◌≢◌, ◌↔◌, some, List, [], ◌∷◌, arith, replicate}
use robusto.Rsd1.{ok, bad_length, PacketView, encode, decode_prefix, decode, packet_view}
use robusto.Rsd1.Decode.{IsPacket, decode_prefix_iff}
use robusto.Rsd1.RoundTrip.{decode_prefix-encode}

abbrev payload : List ℕ
payload = 1 ∷ 2 ∷ 3 ∷ []

abbrev blank : PacketView
blank = record { message_id = 0; sequence = 0; payload = []; payload_size = 0 }

-- In 40 bytes the packet comes first, and `robusto_rsd1_decode` finds bytes behind it.
decode_prefix-encode_example :
    (out : List ℕ) × (encode (some (replicate 40 9)) 40 5 6 (some payload) 3 (some 0)
      ≡ (ok, some out, some 27))
    × (decode_prefix (some out) 40 (some blank) (some 0) ≡ (
      ok,
      some (record { message_id = 5; sequence = 6; payload = payload; payload_size = 3 }),
      some 27,
    ))
    × ((decode (some out) 40 (some blank)).0 ≡ bad_length)
decode_prefix-encode_example =
    decode_prefix-encode 5 6 (some payload) 3 (replicate 40 9) 40 0 40 blank (omega arith)
      (omega arith) (omega arith) (omega arith) (omega arith) (omega arith, omega arith)
      (omega arith) (omega arith)

decode_prefix_iff_example : ((decode_prefix (some payload) 3 (some blank) (some 0)).0 ≡ ok) ↔ (
    IsPacket payload 3 (packet_view payload).payload_size
    × ((packet_view payload).message_id ≢ 0)
    × ((packet_view payload).sequence ≢ 0))
decode_prefix_iff_example = decode_prefix_iff payload 3 blank 0
