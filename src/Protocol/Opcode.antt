-- ===== src/Protocol/Opcode.antt =====
-- ROBUSTO_PROXY_OPCODE_*: the operations of the control domain.
use robusto.Prelude.{ℕ}

abbrev pub hello : ℕ
hello = 0x01

abbrev pub capability_query : ℕ
capability_query = 0x02

abbrev pub health : ℕ
health = 0x03

abbrev pub system_info : ℕ
system_info = 0x04

abbrev pub reboot : ℕ
reboot = 0x05

abbrev pub fragment_stats : ℕ
fragment_stats = 0x06
