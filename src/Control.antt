-- ===== src/Control.antt =====
-- components/robusto/proxy/src/robusto_proxy_control.c: the payloads of the control messages.
-- Here are what all codecs share, and the prefix of every response.
pub mod Hello
pub mod Reports
pub mod SystemInfo
pub mod FragmentStats
pub mod RoundTrip
pub mod Message
pub mod Whole
pub mod NullBuffer
mod Tests
use robusto.Prelude.{
  ℕ, ◌+◌, ◌^◌, Bool, true, false, ◌&&◌, ◌||◌, Option, none, some, List, [], ◌∷◌, ◌++◌, bit_and, ltb,
  ◌==◌, ◌!=◌, if◌then◌else◌, is_none, le16, le32, read_le16, read_le32, overwrite, drop,
}
use robusto.Protocol.{ProxyResult, ok, invalid_argument, bad_reserved, bad_length}
use robusto.Protocol.Status
use robusto.Protocol.Messages.{ResponsePrefix}

-- What a call does: it returns, or it goes through a NULL pointer.
pub data Run {ℓ} (A : Type ℓ) : Type ℓ where
  fault : Run A
  returns : A → Run A

-- The test of `check_output`; true if the arguments are refused.
abbrev pub refuses_output : Bool → ℕ → ℕ → Bool
refuses_output no_output buffer_size required_size = no_output || ltb buffer_size required_size

-- The test of `check_io`; true if the arguments are refused.
abbrev pub refuses_io : Bool → Bool → ℕ → ℕ → Bool
refuses_io no_input no_output buffer_size required_size =
    (no_input && no_output) || ltb buffer_size required_size

-- The stores of an encoder: `bytes` fill the start of the buffer.
abbrev pub store : Option (List ℕ) → List ℕ → Run (ProxyResult × Option (List ℕ))
store none bytes = fault
store (some buffer) bytes = returns (ok, some (overwrite bytes buffer))

module _ {A : Type 0} where
  -- The body that the encoders repeat: `check_io`, the NULL test of the message, the stores. The
  -- result comes with the buffer.
  abbrev pub encode_with :
      ℕ → (A → List ℕ) → Option (List ℕ) → ℕ → Option A → Run (ProxyResult × Option (List ℕ))
  encode_with size bytes buffer buffer_size none = returns (invalid_argument, buffer)
  encode_with size bytes buffer buffer_size (some m) =
      if refuses_io (is_none buffer) false buffer_size size
      then returns (invalid_argument, buffer)
      else store buffer (bytes m)

  -- The loads of a decoder, with the result that its checks of the message give.
  abbrev pub load : (List ℕ → ProxyResult × A) → Option (List ℕ) → Run (ProxyResult × Option A)
  load read none = fault
  load read (some buffer) = let (result, m) = read buffer in returns (result, some m)

  -- The body that the decoders repeat. The result comes with `*message`.
  abbrev pub decode_with :
      ℕ → (List ℕ → ProxyResult × A) → Option (List ℕ) → ℕ → Option A → Run (ProxyResult × Option A)
  decode_with size read buffer buffer_size none = returns (invalid_argument, none)
  decode_with size read buffer buffer_size (some old) =
      if refuses_io (is_none buffer) false buffer_size size
      then returns (invalid_argument, some old)
      else load read buffer

abbrev pub prefix_size : ℕ
prefix_size = 12

abbrev pub prefix_bytes : ResponsePrefix → List ℕ
prefix_bytes p =
    le16 p.status
    ++ (le16 p.result_flags ++ (le32 p.retry_after_ms ++ (le16 p.detail_length ++ le16 p.reserved)))

-- `robusto_proxy_encode_response_prefix`, the one encoder that uses `check_output`.
unfoldable pub encode_response_prefix :
    Option (List ℕ) → ℕ → Option ResponsePrefix → Run (ProxyResult × Option (List ℕ))
encode_response_prefix buffer buffer_size none = returns (invalid_argument, buffer)
encode_response_prefix buffer buffer_size (some p) =
    if refuses_output (is_none buffer) buffer_size prefix_size
    then returns (invalid_argument, buffer)
    else store buffer (prefix_bytes p)

abbrev pub read_prefix : List ℕ → ResponsePrefix
read_prefix buffer = record {
  status = read_le16 buffer;
  result_flags = read_le16 (drop 2 buffer);
  retry_after_ms = read_le32 (drop 4 buffer);
  detail_length = read_le16 (drop 8 buffer);
  reserved = read_le16 (drop 10 buffer);
}

-- The checks that `robusto_proxy_decode_response_prefix` makes of what it read. The mask is
-- `~ROBUSTO_PROXY_RESULT_FLAG_RETRYABLE`.
pub check_prefix : ℕ → ResponsePrefix → ProxyResult
check_prefix buffer_size p =
    if bit_and p.result_flags 0xFFFF_FFFE != 0
    then bad_reserved
    else if ltb 128 p.detail_length
    then bad_length
    else if p.reserved != 0
    then bad_reserved
    else if ltb buffer_size (prefix_size + p.detail_length)
    then bad_length
    else ok

-- `robusto_proxy_decode_response_prefix`
unfoldable pub decode_response_prefix :
    Option (List ℕ) → ℕ → Option ResponsePrefix → Run (ProxyResult × Option ResponsePrefix)
unfolding check_prefix
decode_response_prefix buffer buffer_size =
    decode_with prefix_size
      (λ bytes. (check_prefix buffer_size (read_prefix bytes), read_prefix bytes)) buffer
      buffer_size

-- `robusto_proxy_response_prefix_is_success`
unfoldable pub is_success : Option ResponsePrefix → Bool
is_success none = false
is_success (some p) = p.status == Status.ok
