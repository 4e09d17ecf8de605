-- ===== src/Control/SystemInfo.antt =====
-- proxy/src/robusto_proxy_control.c: the SYSTEM_INFO response.
use robusto.Prelude.{
  ℕ, ◌-◌, Bool, false, ◌||◌, Option, none, some, List, ◌∷◌, ◌++◌, byte_at, le32, le64, read_le32,
  read_le64, take, drop, replicate, ltb, ◌!=◌, if◌then◌else◌, is_none,
}
use robusto.Protocol.{ProxyResult, ok, invalid_argument, bad_reserved}
use robusto.Control.{Run, returns, refuses_io, store, decode_with}

-- `robusto_proxy_system_info_response_t`; the two texts are arrays of 32 and 64 bytes.
pub record SystemInfoResponse : Type 0 where
  pub proxy_boot_id : ℕ
  pub available_memory_bytes : ℕ
  pub available_spi_memory_bytes : ℕ
  pub robusto_version_length : ℕ
  pub delegate_version_length : ℕ
  pub reserved_0 : ℕ
  pub reserved_1 : ℕ
  pub robusto_version : List ℕ
  pub delegate_version : List ℕ

abbrev pub system_info_response_size : ℕ
system_info_response_size = 116

abbrev pub robusto_version_capacity : ℕ
robusto_version_capacity = 32

abbrev pub delegate_version_capacity : ℕ
delegate_version_capacity = 64

-- `memcpy` of the first `size` bytes into a cleared field of `capacity` bytes.
unfoldable pub copy_into : ℕ → ℕ → List ℕ → List ℕ
copy_into capacity size text = take size text ++ replicate (capacity - size) 0

-- The length test of the encoder and the decoder.
abbrev pub too_long : ℕ → ℕ → Bool
too_long robusto_length delegate_length =
    ltb robusto_version_capacity robusto_length || ltb delegate_version_capacity delegate_length

-- What the encoder stores: bytes 18 and 19 stay 0.
unfoldable pub system_info_response_bytes : SystemInfoResponse → List ℕ
system_info_response_bytes m =
    le64 m.proxy_boot_id
    ++ (le32 m.available_memory_bytes
        ++ (le32 m.available_spi_memory_bytes
            ++ (m.robusto_version_length
                ∷ m.delegate_version_length
                ∷ 0
                ∷ 0
                ∷ (copy_into robusto_version_capacity m.robusto_version_length m.robusto_version
                    ++ copy_into delegate_version_capacity m.delegate_version_length
                        m.delegate_version))))

-- `robusto_proxy_encode_system_info_response`
unfoldable pub encode_system_info_response :
    Option (List ℕ) → ℕ → Option SystemInfoResponse → Run (ProxyResult × Option (List ℕ))
encode_system_info_response buffer buffer_size none = returns (invalid_argument, buffer)
encode_system_info_response buffer buffer_size (some m) =
    if refuses_io (is_none buffer) false buffer_size system_info_response_size
    then returns (invalid_argument, buffer)
    else if too_long m.robusto_version_length m.delegate_version_length
    then returns (invalid_argument, buffer)
    else store buffer (system_info_response_bytes m)

-- The response after the checks; the texts stay cleared where they fail.
unfoldable pub read_system_info_response : List ℕ → ProxyResult × SystemInfoResponse
read_system_info_response buffer =
    if byte_at buffer 18 != 0
      || (byte_at buffer 19 != 0 || too_long (byte_at buffer 16) (byte_at buffer 17))
    then (
      bad_reserved,
      response (replicate robusto_version_capacity 0) (replicate delegate_version_capacity 0),
    )
    else (
      ok,
      response (copy_into robusto_version_capacity (byte_at buffer 16) (drop 20 buffer))
          (copy_into delegate_version_capacity (byte_at buffer 17) (drop 52 buffer)),
    )
  where
    response : List ℕ → List ℕ → SystemInfoResponse
    response robusto_version delegate_version = record {
      proxy_boot_id = read_le64 buffer;
      available_memory_bytes = read_le32 (drop 8 buffer);
      available_spi_memory_bytes = read_le32 (drop 12 buffer);
      robusto_version_length = byte_at buffer 16;
      delegate_version_length = byte_at buffer 17;
      reserved_0 = byte_at buffer 18;
      reserved_1 = byte_at buffer 19;
      robusto_version = robusto_version;
      delegate_version = delegate_version;
    }

-- `robusto_proxy_decode_system_info_response`
unfoldable pub decode_system_info_response :
    Option (List ℕ) → ℕ → Option SystemInfoResponse → Run (ProxyResult × Option SystemInfoResponse)
decode_system_info_response = decode_with system_info_response_size read_system_info_response
