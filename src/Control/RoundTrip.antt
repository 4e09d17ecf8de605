-- ===== src/Control/RoundTrip.antt =====
-- What the encoders write the decoders read back.
pub mod Prefix
pub mod SystemInfo
pub mod FragmentStats
use robusto.Prelude.{
  ℕ, ◌+◌, ◌≤◌, ◌<◌, ◌^◌, ◌≡◌, refl, sym, ap, ◌∙◌, Option, none, some, List, [], ◌∷◌, ◌++◌, arith,
  drop, length, drop-append, Bool-cases, inl, inr, bit_and,
}
use robusto.Protocol.{ProxyResult, ok}
use robusto.Protocol.Messages.{
  ResponsePrefix, FitsResponsePrefix, HelloRequest, FitsHelloRequest, HelloResponse,
  FitsHelloResponse, CapabilityResponse, FitsCapabilityResponse, HealthResponse, FitsHealthResponse,
}
use robusto.Control.{
  Run, returns, encode_with, decode_with, prefix_size, prefix_bytes, read_prefix, check_prefix,
  encode_response_prefix, decode_response_prefix,
}
use robusto.Control.Hello.{
  hello_request_size, hello_request_bytes, read_hello_request, encode_hello_request,
  decode_hello_request, hello_response_size, hello_response_bytes, read_hello_response,
  encode_hello_response, decode_hello_response,
}
use robusto.Control.Reports.{
  capability_response_size, capability_response_bytes, read_capability_response,
  encode_capability_response, decode_capability_response, health_response_size,
  health_response_bytes, read_health_response, encode_health_response, decode_health_response,
}

-- The encoder fills the first `size` bytes of a buffer, from which the decoder gets the message
-- back, and leaves the others.
abbrev pub Recovers :
    {A : Type 0}
    → (Option (List ℕ) → ℕ → Option A → Run (ProxyResult × Option (List ℕ)))
    → (Option (List ℕ) → ℕ → Option A → Run (ProxyResult × Option A))
    → ℕ
    → A
    → List ℕ
    → ℕ
    → A
    → ℕ
    → Type 0
Recovers encode decode size m buffer buffer_size old received =
    (out : List ℕ) × (encode (some buffer) buffer_size (some m) ≡ returns (ok, some out))
    × (decode (some out) received (some old) ≡ returns (ok, some m))
    × (drop size out ≡ drop size buffer)

module _ {A : Type 0} (size : ℕ) (bytes : A → List ℕ) (read : List ℕ → ProxyResult × A) (m : A)
    (long : length (bytes m) ≡ size)
    (back : (rest : List ℕ) → read (bytes m ++ rest) ≡ (ok, m)) where
  pub with-Recovers :
      (buffer : List ℕ) (buffer_size : ℕ) (old : A) (received : ℕ)
      → size ≤ buffer_size
      → size ≤ received
      → Recovers
          (encode_with size bytes)
          (decode_with size read)
          size
          m
          buffer
          buffer_size
          old
          received
  with-Recovers buffer buffer_size old received room whole = (
    bytes m ++ drop (length (bytes m)) buffer,
    ground arith,
    ground (arith, back (drop (length (bytes m)) buffer)),
    drop-append (bytes m) (drop (length (bytes m)) buffer) size (sym long)
        ∙ ap (λ n. drop n buffer) long,
  )

read_hello_request-bytes :
    (m : HelloRequest) (rest : List ℕ)
    → FitsHelloRequest m
    → read_hello_request (hello_request_bytes m ++ rest) ≡ m
read_hello_request-bytes m rest fits = ground arith

-- A hello request whose fields fit their widths comes back from `robusto_proxy_encode_hello_request`
-- through `robusto_proxy_decode_hello_request`.
pub decode_hello_request-encode :
    (m : HelloRequest) (buffer : List ℕ) (buffer_size : ℕ) (old : HelloRequest) (received : ℕ)
    → FitsHelloRequest m
    → hello_request_size ≤ buffer_size
    → hello_request_size ≤ received
    → Recovers encode_hello_request decode_hello_request hello_request_size m buffer buffer_size old
        received
unfolding encode_hello_request decode_hello_request
decode_hello_request-encode m buffer buffer_size old received fits room whole =
    with-Recovers hello_request_size hello_request_bytes (λ bytes. (ok, read_hello_request bytes)) m
      refl (λ rest i. (ok, read_hello_request-bytes m rest fits i)) buffer buffer_size old received
      room whole

pub read_hello_response-bytes :
    (m : HelloResponse) (rest : List ℕ)
    → FitsHelloResponse m
    → read_hello_response (hello_response_bytes m ++ rest) ≡ m
read_hello_response-bytes m rest fits = ground arith

-- A hello response whose fields fit their widths comes back from `robusto_proxy_encode_hello_response`
-- through `robusto_proxy_decode_hello_response`.
pub decode_hello_response-encode :
    (m : HelloResponse) (buffer : List ℕ) (buffer_size : ℕ) (old : HelloResponse) (received : ℕ)
    → FitsHelloResponse m
    → hello_response_size ≤ buffer_size
    → hello_response_size ≤ received
    → Recovers encode_hello_response decode_hello_response hello_response_size m buffer buffer_size
        old received
unfolding encode_hello_response decode_hello_response
decode_hello_response-encode m buffer buffer_size old received fits room whole =
    with-Recovers hello_response_size hello_response_bytes
      (λ bytes. (ok, read_hello_response bytes)) m refl
      (λ rest i. (ok, read_hello_response-bytes m rest fits i)) buffer buffer_size old received room
      whole

read_capability_response-bytes :
    (m : CapabilityResponse) (rest : List ℕ)
    → FitsCapabilityResponse m
    → read_capability_response (capability_response_bytes m ++ rest) ≡ m
read_capability_response-bytes m rest fits = ground arith

-- A capability response whose fields fit their widths comes back from `robusto_proxy_encode_capability_response`
-- through `robusto_proxy_decode_capability_response`.
pub decode_capability_response-encode :
    (m : CapabilityResponse) (buffer : List ℕ) (buffer_size : ℕ) (old : CapabilityResponse)
    (received : ℕ)
    → FitsCapabilityResponse m
    → capability_response_size ≤ buffer_size
    → capability_response_size ≤ received
    → Recovers encode_capability_response decode_capability_response capability_response_size m
        buffer buffer_size old received
unfolding encode_capability_response decode_capability_response
decode_capability_response-encode m buffer buffer_size old received fits room whole =
    with-Recovers capability_response_size capability_response_bytes
      (λ bytes. (ok, read_capability_response bytes)) m refl
      (λ rest i. (ok, read_capability_response-bytes m rest fits i)) buffer buffer_size old received
      room whole

read_health_response-bytes :
    (m : HealthResponse) (rest : List ℕ)
    → FitsHealthResponse m
    → read_health_response (health_response_bytes m ++ rest) ≡ m
read_health_response-bytes m rest fits = ground arith

-- A health response whose fields fit their widths comes back from `robusto_proxy_encode_health_response`
-- through `robusto_proxy_decode_health_response`.
pub decode_health_response-encode :
    (m : HealthResponse) (buffer : List ℕ) (buffer_size : ℕ) (old : HealthResponse) (received : ℕ)
    → FitsHealthResponse m
    → health_response_size ≤ buffer_size
    → health_response_size ≤ received
    → Recovers encode_health_response decode_health_response health_response_size m buffer
        buffer_size old received
unfolding encode_health_response decode_health_response
decode_health_response-encode m buffer buffer_size old received fits room whole =
    with-Recovers health_response_size health_response_bytes
      (λ bytes. (ok, read_health_response bytes)) m refl
      (λ rest i. (ok, read_health_response-bytes m rest fits i)) buffer buffer_size old received
      room whole
