-- ===== src/Protocol/Domain.antt =====
-- ROBUSTO_PROXY_DOMAIN_*
use robusto.Prelude.{ℕ}

abbrev pub control : ℕ
control = 0x00

abbrev pub pubsub : ℕ
pubsub = 0x01
