-- ===== src/Control/NullBuffer.antt =====
-- What the codecs do with a NULL buffer: `check_io` refuses it only if the message is NULL too.
use robusto.Prelude.{ℕ, ◌≤◌, ◌≡◌, arith, none, some}
use robusto.Protocol.{invalid_argument}
use robusto.Protocol.Messages.{ResponsePrefix, HelloRequest, HelloResponse}
use robusto.Control.{fault, returns, encode_response_prefix, decode_response_prefix}
use robusto.Control.Hello.{
  hello_response_size, encode_hello_request, decode_hello_request, encode_hello_response,
  decode_hello_response,
}

-- Given a message and a large enough size, the HELLO codecs and the prefix decoder go through a NULL
-- buffer; the prefix encoder, which checks by `check_output`, refuses it.
pub null_buffer_faults :
    (request : HelloRequest) (response : HelloResponse) (prefix : ResponsePrefix) (size : ℕ)
    → hello_response_size ≤ size
    → (encode_hello_request none size (some request) ≡ fault)
      × (decode_hello_request none size (some request) ≡ fault)
      × (encode_hello_response none size (some response) ≡ fault)
      × (decode_hello_response none size (some response) ≡ fault)
      × (decode_response_prefix none size (some prefix) ≡ fault)
      × (encode_response_prefix none size (some prefix) ≡ returns (invalid_argument, none))
unfolding encode_hello_request decode_hello_request encode_hello_response decode_hello_response
    encode_response_prefix decode_response_prefix
null_buffer_faults request response prefix size h =
    (ground arith, ground arith, ground arith, ground arith, ground arith, ground arith)
