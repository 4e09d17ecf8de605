-- ===== src/Protocol/PubsubOpcode.antt =====
-- ROBUSTO_PROXY_PUBSUB_OPCODE_*: the operations of the publish-subscribe domain, and its events.
use robusto.Prelude.{ℕ}

abbrev pub publish : ℕ
publish = 0x01

abbrev pub subscribe : ℕ
subscribe = 0x02

abbrev pub unsubscribe : ℕ
unsubscribe = 0x03

abbrev pub status : ℕ
status = 0x04

abbrev pub publish_begin : ℕ
publish_begin = 0x05

abbrev pub publish_chunk : ℕ
publish_chunk = 0x06

abbrev pub publish_commit : ℕ
publish_commit = 0x07

abbrev pub publish_abort : ℕ
publish_abort = 0x08

abbrev pub delivery : ℕ
delivery = 0x80

abbrev pub delivery_begin : ℕ
delivery_begin = 0x81

abbrev pub delivery_chunk : ℕ
delivery_chunk = 0x82

abbrev pub delivery_commit : ℕ
delivery_commit = 0x83
