-- ===== src/Service/Texts.antt =====
-- The texts of a SYSTEM_INFO response: their lengths and bytes.
use robusto.Prelude.{
  ℕ, zero, suc, [], ◌-◌, ◌≤◌, ◌≡◌, Option, none, some, List, ◌∷◌, ◌++◌, arith, byte_at, le32, le64,
  subst, AreBytes, AreBytes-append, take, replicate, length, length-append, length-take,
  length-replicate, Bool-cases, Option-cases, inl, inr, ◌!=◌,
}
use robusto.Crc32.Detects.{AreBytes-take}
use robusto.Control.SystemInfo.{
  SystemInfoResponse, copy_into, robusto_version_capacity, delegate_version_capacity,
  system_info_response_size, system_info_response_bytes, encode_system_info_response,
}
use robusto.Service.{Service}
use robusto.Service.Query.{
  Platform, text_length, bounded_string_length, hex_text, built_identity, delegate_identity_string,
  system_info_response,
}
use robusto.Service.Replies.{Stores}
use robusto.Service.Sound.{IsSoundPlatform, IsTextOrNone}

pub text_length_le : (text : List ℕ) (maximum : ℕ) → text_length text maximum ≤ maximum
unfolding text_length
text_length_le text zero = omega arith
text_length_le [] (suc maximum) = omega arith
text_length_le (c ∷ text) (suc maximum) = ground (arith, text_length_le text maximum)

pub text_length_within : (text : List ℕ) (maximum : ℕ) → text_length text maximum ≤ length text
unfolding text_length
text_length_within text zero = omega arith
text_length_within [] (suc maximum) = omega arith
text_length_within (c ∷ text) (suc maximum) = ground (arith, text_length_within text maximum)

pub zeros-AreBytes : (n : ℕ) → AreBytes (replicate n 0)
zeros-AreBytes zero = tt
zeros-AreBytes (suc n) = (omega arith, zeros-AreBytes n)

pub hex_text-AreBytes : (bytes : List ℕ) → AreBytes bytes → AreBytes (hex_text bytes)
unfolding hex_text
hex_text-AreBytes [] h = tt
hex_text-AreBytes (b ∷ bytes) h = (ground arith, (ground arith, hex_text-AreBytes bytes h.1))

pub copy_into-AreBytes :
    (capacity size : ℕ) (text : List ℕ) → AreBytes text → AreBytes (copy_into capacity size text)
unfolding copy_into
copy_into-AreBytes capacity size text h =
    AreBytes-append (take size text) _ (AreBytes-take size text h)
      (zeros-AreBytes (capacity - size))

pub length-copy_into :
    (capacity size : ℕ) (text : List ℕ)
    → size ≤ length text
    → size ≤ capacity
    → length (copy_into capacity size text) ≡ capacity
unfolding copy_into
length-copy_into capacity size text inside small = omega (
  arith,
  length-append (take size text) (replicate (capacity - size) 0),
  length-take size text,
  length-replicate {A = ℕ} (capacity - size) 0,
)

-- The identity is made of bytes, whichever source it has.
pub delegate_identity_string-AreBytes :
    {A : Type 0} (p : Platform A) → IsSoundPlatform p → AreBytes (delegate_identity_string p)
unfolding delegate_identity_string
delegate_identity_string-AreBytes p sound = elim (Option-cases p.configured_identity) [
  | inl missing ↦ rw missing (built p.app_elf_sha256 sound.app_elf_sha256)
  | inr (identity, given) ↦ rw given (elim (Bool-cases (byte_at identity 0 != 0)) [
    | inl full ↦ rw full (subst IsTextOrNone given sound.configured_identity)
    | inr empty ↦ rw empty (built p.app_elf_sha256 sound.app_elf_sha256)
  ])
]
  where
    built : (sha256 : Option (List ℕ)) → IsTextOrNone sha256 → AreBytes (built_identity p sha256)
    built none h = sound.robusto_version
    built (some sha256) h = hex_text-AreBytes sha256 h

-- A SYSTEM_INFO response whose texts have the lengths that it states.
pub record IsInfo (m : SystemInfoResponse) : Type 0 where
  pub robusto_short : m.robusto_version_length ≤ robusto_version_capacity
  pub delegate_short : m.delegate_version_length ≤ delegate_version_capacity
  pub robusto_inside : m.robusto_version_length ≤ length m.robusto_version
  pub delegate_inside : m.delegate_version_length ≤ length m.delegate_version
  pub robusto_bytes : AreBytes m.robusto_version
  pub delegate_bytes : AreBytes m.delegate_version

module _ (m : SystemInfoResponse) (v : IsInfo m) where
  abbrev robusto_text : List ℕ
  robusto_text = copy_into robusto_version_capacity m.robusto_version_length m.robusto_version

  abbrev delegate_text : List ℕ
  delegate_text = copy_into delegate_version_capacity m.delegate_version_length m.delegate_version

  abbrev front : List ℕ
  front =
      le64 m.proxy_boot_id
      ++ (le32 m.available_memory_bytes
          ++ (le32 m.available_spi_memory_bytes
              ++ (m.robusto_version_length ∷ m.delegate_version_length ∷ 0 ∷ 0 ∷ [])))

  pub length-system_info : length (system_info_response_bytes m) ≡ system_info_response_size
  unfolding system_info_response_bytes
  length-system_info = omega (
    arith,
    length-append robusto_text delegate_text,
    length-copy_into robusto_version_capacity m.robusto_version_length m.robusto_version
        v.robusto_inside v.robusto_short,
    length-copy_into delegate_version_capacity m.delegate_version_length m.delegate_version
        v.delegate_inside v.delegate_short,
  )

  pub system_info-Stores :
      Stores
        (λ buffer size. encode_system_info_response buffer size (some m))
        (system_info_response_bytes m)
  unfolding encode_system_info_response
  system_info-Stores buffer size room =
      ground (arith, length-system_info, v.robusto_short, v.delegate_short)

  pub system_info-AreBytes : AreBytes (system_info_response_bytes m)
  unfolding system_info_response_bytes
  system_info-AreBytes =
      AreBytes-append front (robusto_text ++ delegate_text)
        (omega (arith, v.robusto_short, v.delegate_short))
        (AreBytes-append robusto_text delegate_text
          (copy_into-AreBytes robusto_version_capacity m.robusto_version_length m.robusto_version
            v.robusto_bytes)
          (copy_into-AreBytes delegate_version_capacity m.delegate_version_length m.delegate_version
            v.delegate_bytes))

-- What the service reports is such a response.
pub system_info_response-IsInfo :
    {A : Type 0} (p : Platform A) (s : Service A) (world : A)
    → IsSoundPlatform p
    → IsInfo (system_info_response p s world)
unfolding system_info_response bounded_string_length
system_info_response-IsInfo p s world sound =
    let identity : List ℕ = delegate_identity_string p in
    let robusto_size : ℕ = text_length p.robusto_version robusto_version_capacity in
    let delegate_size : ℕ = text_length identity delegate_version_capacity in
    record {
      robusto_short = text_length_le p.robusto_version robusto_version_capacity;
      delegate_short = text_length_le identity delegate_version_capacity;
      robusto_inside = omega (
        arith,
        text_length_le p.robusto_version robusto_version_capacity,
        length-copy_into robusto_version_capacity robusto_size p.robusto_version
            (text_length_within p.robusto_version robusto_version_capacity)
            (text_length_le p.robusto_version robusto_version_capacity),
      );
      delegate_inside = omega (
        arith,
        text_length_le identity delegate_version_capacity,
        length-copy_into delegate_version_capacity delegate_size identity
            (text_length_within identity delegate_version_capacity)
            (text_length_le identity delegate_version_capacity),
      );
      robusto_bytes =
          copy_into-AreBytes robusto_version_capacity robusto_size p.robusto_version
            sound.robusto_version;
      delegate_bytes =
          copy_into-AreBytes delegate_version_capacity delegate_size identity
            (delegate_identity_string-AreBytes p sound);
    }
