-- ===== src/Protocol/FlagRule.antt =====
-- The flags that `robusto_proxy_flag_is_valid` admits.
use robusto.Prelude.{
  ℕ, ◌%◌, ◌<◌, ◌≡◌, refl, ◌⊎◌, ◌↔◌, Bool, true, ◌&&◌, ◌||◌, arith, IsByte, ltb, agree, agree_at,
  ◌==◌,
}
use robusto.Protocol.{flag_is_valid}
use robusto.Protocol.Flag

abbrev one_type : ℕ → Bool
one_type flags =
    ltb flags 16
    && (flags % 8 == Flag.request || (flags % 8 == Flag.response || flags % 8 == Flag.event))

bytes_agree : agree flag_is_valid one_type 256 ≡ true
unfolding agree flag_is_valid
bytes_agree = refl

-- Among the byte values, the flags are valid exactly when one of the bits REQUEST, RESPONSE and
-- EVENT is set, with or without RETRY, and no other bit.
flag_is_valid_iff :
    (flags : ℕ)
    → IsByte flags
    → (flag_is_valid flags ≡ true) ↔ (
        (flags < 16)
        × ((flags % 8 ≡ Flag.request) ⊎ (flags % 8 ≡ Flag.response) ⊎ (flags % 8 ≡ Flag.event)))
flag_is_valid_iff flags h =
    let rule : flag_is_valid flags ≡ one_type flags =
      agree_at flag_is_valid one_type 256 flags h bytes_agree in
    (ground arith, ground arith)
