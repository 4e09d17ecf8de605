-- ===== src/Control/RoundTrip/SystemInfo.antt =====
-- The SYSTEM_INFO response, with its two texts.
use robusto.Prelude.{
  ℕ, ◌-◌, ◌≤◌, ◌<◌, ◌^◌, ◌≡◌, sym, ap, ◌∙◌, List, ◌++◌, append_assoc, arith, take, drop, length,
  replicate, drop-append, take-append, length-append, length-take,
}
use robusto.Protocol.{ok}
use robusto.Control.SystemInfo.{
  SystemInfoResponse, system_info_response_size, robusto_version_capacity,
  delegate_version_capacity, copy_into, system_info_response_bytes, read_system_info_response,
  encode_system_info_response, decode_system_info_response,
}
use robusto.Control.RoundTrip.{Recovers}

-- A text of `size` bytes in an array of `capacity`, the rest of which is cleared.
pub record IsText (capacity size : ℕ) (text : List ℕ) : Type 0 where
  pub fits : size ≤ capacity
  pub whole : length text ≡ capacity
  pub cleared : copy_into capacity size text ≡ text

pub record IsSystemInfo (m : SystemInfoResponse) : Type 0 where
  pub boot : m.proxy_boot_id < 2 ^ 64
  pub memory : m.available_memory_bytes < 2 ^ 32
  pub spi_memory : m.available_spi_memory_bytes < 2 ^ 32
  pub reserved_0 : m.reserved_0 ≡ 0
  pub reserved_1 : m.reserved_1 ≡ 0
  pub robusto : IsText robusto_version_capacity m.robusto_version_length m.robusto_version
  pub delegate : IsText delegate_version_capacity m.delegate_version_length m.delegate_version

module _ (capacity size : ℕ) (text : List ℕ) (v : IsText capacity size text) where
  length-copy : length (copy_into capacity size text) ≡ capacity
  length-copy = rw v.cleared v.whole

  -- What was copied into the message is copied out of it.
  copy-copy :
      (tail : List ℕ) → copy_into capacity size (copy_into capacity size text ++ tail) ≡ text
  unfolding copy_into
  copy-copy tail = ap (λ xs. xs ++ replicate (capacity - size) 0) front ∙ v.cleared
    where
      front : take size (copy_into capacity size text ++ tail) ≡ take size text
      front =
          ap (take size) (append_assoc (take size text) (replicate (capacity - size) 0) tail)
          ∙ take-append (take size text) (replicate (capacity - size) 0 ++ tail) size
              (omega (arith, length-take size text, v.whole, v.fits))

module _ (m : SystemInfoResponse) (v : IsSystemInfo m) where
  texts : List ℕ
  texts =
      copy_into robusto_version_capacity m.robusto_version_length m.robusto_version
      ++ copy_into delegate_version_capacity m.delegate_version_length m.delegate_version

  robusto-back :
      (rest : List ℕ)
      → copy_into robusto_version_capacity m.robusto_version_length (texts ++ rest)
        ≡ m.robusto_version
  unfolding texts
  robusto-back rest =
      rw
        (append_assoc
          (copy_into robusto_version_capacity m.robusto_version_length m.robusto_version))
        (copy-copy _ _ _ v.robusto _)

  delegate-back :
      (rest : List ℕ)
      → copy_into delegate_version_capacity m.delegate_version_length
          (drop robusto_version_capacity (texts ++ rest))
        ≡ m.delegate_version
  unfolding texts
  delegate-back rest =
      rw
        (append_assoc
          (copy_into robusto_version_capacity m.robusto_version_length m.robusto_version))
        (ap (copy_into delegate_version_capacity m.delegate_version_length) (
            drop-append
              (copy_into robusto_version_capacity m.robusto_version_length m.robusto_version) _
              robusto_version_capacity (sym (length-copy _ _ _ v.robusto)))
          ∙ copy-copy _ _ _ v.delegate rest)

  read-bytes :
      (rest : List ℕ) → read_system_info_response (system_info_response_bytes m ++ rest) ≡ (ok, m)
  unfolding read_system_info_response system_info_response_bytes texts
  read-bytes rest = ground (
    arith,
    v.boot,
    v.memory,
    v.spi_memory,
    v.reserved_0,
    v.reserved_1,
    v.robusto.fits,
    v.delegate.fits,
    robusto-back rest,
    delegate-back rest,
  )

  long : length (system_info_response_bytes m) ≡ system_info_response_size
  unfolding system_info_response_bytes
  long = omega (
    arith,
    length-append (copy_into robusto_version_capacity m.robusto_version_length m.robusto_version)
        (copy_into delegate_version_capacity m.delegate_version_length m.delegate_version),
    length-copy robusto_version_capacity m.robusto_version_length m.robusto_version v.robusto,
    length-copy delegate_version_capacity m.delegate_version_length m.delegate_version v.delegate,
  )

-- A system info response whose texts fit their arrays and are cleared behind their lengths, and
-- whose reserved bytes are 0, comes back from `robusto_proxy_encode_system_info_response` through
-- `robusto_proxy_decode_system_info_response`.
pub decode_system_info_response-encode :
    (m : SystemInfoResponse) (buffer : List ℕ) (buffer_size : ℕ) (old : SystemInfoResponse)
    (received : ℕ)
    → IsSystemInfo m
    → system_info_response_size ≤ buffer_size
    → system_info_response_size ≤ received
    → Recovers encode_system_info_response decode_system_info_response system_info_response_size m
        buffer buffer_size old received
unfolding encode_system_info_response decode_system_info_response
decode_system_info_response-encode m buffer buffer_size old received v room whole =
    let rest : List ℕ = drop (length (system_info_response_bytes m)) buffer in
    (
      system_info_response_bytes m ++ rest,
      ground (arith, v.robusto.fits, v.delegate.fits),
      ground (arith, read-bytes m v rest),
      drop-append (system_info_response_bytes m) rest system_info_response_size (sym (long m v))
          ∙ ap (λ n. drop n buffer) (long m v),
    )
