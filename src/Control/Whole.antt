-- ===== src/Control/Whole.antt =====
-- A whole response: what the prefix says decides what the payload's decoder gets.
use robusto.Prelude.{
  ℕ, ◌+◌, ◌-◌, ◌≤◌, ◌<◌, ◌≡◌, ◌≢◌, Option, refl, sym, ap, ◌∙◌, some, List, ◌++◌, arith, drop,
  length, drop-append, drop-drop,
}
use robusto.Protocol.{ProxyResult, ok, invalid_argument}
use robusto.Protocol.Status
use robusto.Protocol.Messages.{ResponsePrefix, FitsResponsePrefix, HelloResponse, FitsHelloResponse}
use robusto.Control.{Run, returns, prefix_size, prefix_bytes, is_success}
use robusto.Control.Hello.{hello_response_size, hello_response_bytes, decode_hello_response}
use robusto.Control.RoundTrip.{read_hello_response-bytes}
use robusto.Control.RoundTrip.Prefix.{IsAdmitted, decode_response_prefix_admitted}
use robusto.Control.Message.{cleared_hello_response, decode_hello_response_message, after_prefix}

-- The bytes of a response: prefix, detail, and what follows.
abbrev pub message_bytes : ResponsePrefix → List ℕ → List ℕ → List ℕ
message_bytes p detail payload = prefix_bytes p ++ (detail ++ payload)

payload_behind_detail :
    (p : ResponsePrefix) (detail payload : List ℕ)
    → length detail ≡ p.detail_length
    → drop (prefix_size + p.detail_length) (message_bytes p detail payload) ≡ payload
payload_behind_detail p detail payload h =
    drop-drop prefix_size p.detail_length (prefix_size + p.detail_length)
      (message_bytes p detail payload) refl
    ∙ drop-append detail payload p.detail_length (sym h)

pub decode_payload :
    (m : HelloResponse) (rest : List ℕ) (size : ℕ) (old : HelloResponse)
    → FitsHelloResponse m
    → hello_response_size ≤ size
    → decode_hello_response (some (hello_response_bytes m ++ rest)) size (some old)
      ≡ returns (ok, some m)
unfolding decode_hello_response
decode_payload m rest size old fits room = ground (arith, read_hello_response-bytes m rest fits)

-- What a HELLO response with this prefix yields, where `room` bytes follow the detail: with another
-- status than OK a cleared message, whatever follows; with OK and the bytes of a message, that
-- message; with OK and fewer bytes than a message has, an error and a cleared message.
pub data Yields (p : ResponsePrefix) (payload : List ℕ) (room : ℕ)
    : ProxyResult → HelloResponse → Type 0 where
  failure : p.status ≢ Status.ok → Yields p payload room ok cleared_hello_response
  message :
      (m : HelloResponse) (rest : List ℕ)
      → p.status ≡ Status.ok
      → FitsHelloResponse m
      → payload ≡ hello_response_bytes m ++ rest
      → hello_response_size ≤ room
      → Yields p payload room ok m
  short :
      p.status ≡ Status.ok
      → room < hello_response_size
      → Yields p payload room invalid_argument cleared_hello_response

decode_short :
    (payload : List ℕ) (size : ℕ) (old : HelloResponse)
    → size < hello_response_size
    → decode_hello_response (some payload) size (some old) ≡ returns (invalid_argument, some old)
unfolding decode_hello_response
decode_short payload size old h = ground arith

abbrev behind :
    ResponsePrefix
    → List ℕ
    → ℕ
    → HelloResponse
    → Run (ProxyResult × Option ResponsePrefix × Option HelloResponse)
behind p buffer size old =
    after_prefix decode_hello_response cleared_hello_response buffer size old (returns (ok, some p))

after_failure :
    (p : ResponsePrefix) (buffer : List ℕ) (size : ℕ) (old : HelloResponse)
    → prefix_size + p.detail_length ≤ size
    → p.status ≢ Status.ok
    → behind p buffer size old ≡ returns (ok, some p, some cleared_hello_response)
unfolding is_success
after_failure p buffer size old room failed = ground arith

after_success :
    (p : ResponsePrefix) (buffer payload : List ℕ) (size : ℕ) (old m : HelloResponse)
    (result : ProxyResult)
    → prefix_size + p.detail_length ≤ size
    → p.status ≡ Status.ok
    → drop (prefix_size + p.detail_length) buffer ≡ payload
    → decode_hello_response
        (some payload)
        (size - (prefix_size + p.detail_length))
        (some cleared_hello_response)
      ≡ returns (result, some m)
    → behind p buffer size old ≡ returns (result, some p, some m)
unfolding is_success
after_success p buffer payload size old m result room fine split decoded = ground arith

behind_lem :
    (p : ResponsePrefix) (detail payload : List ℕ) (size : ℕ) (old : HelloResponse)
    (result : ProxyResult) (m : HelloResponse)
    → prefix_size + p.detail_length ≤ size
    → length detail ≡ p.detail_length
    → Yields p payload (size - (prefix_size + p.detail_length)) result m
    → behind p (message_bytes p detail payload) size old ≡ returns (result, some p, some m)
behind_lem p detail payload size old result m room long (failure failed) =
    after_failure p (message_bytes p detail payload) size old room failed
behind_lem p detail payload size old result m room long (message m' rest fine fits bytes enough) =
    after_success p (message_bytes p detail payload) payload size old m ok room fine
      (payload_behind_detail p detail payload long)
      (rw bytes (
        decode_payload m rest (size - (prefix_size + p.detail_length)) cleared_hello_response fits
          enough))
behind_lem p detail payload size old result m room long (short fine few) =
    after_success p (message_bytes p detail payload) payload size old cleared_hello_response
      invalid_argument room fine (payload_behind_detail p detail payload long)
      (decode_short payload _ cleared_hello_response few)

-- At an admitted prefix and a detail of the length in it, `robusto_proxy_decode_hello_response_message`
-- keeps the prefix and decides by the status: any status but OK gives a cleared HELLO response,
-- whatever follows the detail and though nothing follows; OK gives the message whose bytes follow the
-- detail; and OK with fewer bytes than a message behind the detail gives
-- ROBUSTO_PROXY_RESULT_INVALID_ARGUMENT and a cleared message.
pub decode_hello_response_message_lem :
    (p : ResponsePrefix) (detail payload : List ℕ) (size : ℕ) (old_prefix : ResponsePrefix)
    (old : HelloResponse) (result : ProxyResult) (m : HelloResponse)
    → FitsResponsePrefix p
    → IsAdmitted size p
    → length detail ≡ p.detail_length
    → Yields p payload (size - (prefix_size + p.detail_length)) result m
    → decode_hello_response_message
        (some (message_bytes p detail payload))
        size
        (some old_prefix)
        (some old)
      ≡ returns (result, some p, some m)
unfolding decode_hello_response_message
decode_hello_response_message_lem p detail payload size old_prefix old result m fits admitted long
      yields =
    ap
      (after_prefix decode_hello_response cleared_hello_response (message_bytes p detail payload)
        size old)
      (decode_response_prefix_admitted p (detail ++ payload) size old_prefix fits admitted)
    ∙ behind_lem p detail payload size old result m admitted.room long yields
