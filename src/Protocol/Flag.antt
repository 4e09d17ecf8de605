-- ===== src/Protocol/Flag.antt =====
-- ROBUSTO_PROXY_FLAG_*: the bits of a header's flags.
use robusto.Prelude.{ℕ}

abbrev pub request : ℕ
request = 0x01

abbrev pub response : ℕ
response = 0x02

abbrev pub event : ℕ
event = 0x04

abbrev pub retry : ℕ
retry = 0x08
