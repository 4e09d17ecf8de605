-- ===== src/Protocol/Status.antt =====
-- ROBUSTO_PROXY_STATUS_*: the status of a response. `result_flag_retryable` is
-- ROBUSTO_PROXY_RESULT_FLAG_RETRYABLE.
use robusto.Prelude.{ℕ}

abbrev pub ok : ℕ
ok = 0x0000

abbrev pub internal : ℕ
internal = 0x0001

abbrev pub invalid_argument : ℕ
invalid_argument = 0x0002

abbrev pub malformed_payload : ℕ
malformed_payload = 0x0003

abbrev pub out_of_memory : ℕ
out_of_memory = 0x0004

abbrev pub busy : ℕ
busy = 0x0005

abbrev pub timeout : ℕ
timeout = 0x0006

abbrev pub not_ready : ℕ
not_ready = 0x0007

abbrev pub not_found : ℕ
not_found = 0x0008

abbrev pub conflict : ℕ
conflict = 0x0009

abbrev pub handshake_required : ℕ
handshake_required = 0x0101

abbrev pub unsupported_version : ℕ
unsupported_version = 0x0102

abbrev pub unsupported_domain : ℕ
unsupported_domain = 0x0103

abbrev pub unsupported_opcode : ℕ
unsupported_opcode = 0x0104

abbrev pub capability_unavailable : ℕ
capability_unavailable = 0x0105

abbrev pub stale_session : ℕ
stale_session = 0x0106

abbrev pub too_many_in_flight : ℕ
too_many_in_flight = 0x0107

abbrev pub link_crc : ℕ
link_crc = 0x0201

abbrev pub link_length : ℕ
link_length = 0x0202

abbrev pub link_io : ℕ
link_io = 0x0203

abbrev pub outcome_unknown : ℕ
outcome_unknown = 0x0204

abbrev pub pubsub_topic_invalid : ℕ
pubsub_topic_invalid = 0x0301

abbrev pub pubsub_payload_too_large : ℕ
pubsub_payload_too_large = 0x0302

abbrev pub pubsub_subscription_not_found : ℕ
pubsub_subscription_not_found = 0x0303

abbrev pub pubsub_delivery_failed : ℕ
pubsub_delivery_failed = 0x0304

abbrev pub pubsub_subscription_limit : ℕ
pubsub_subscription_limit = 0x0305

abbrev pub result_flag_retryable : ℕ
result_flag_retryable = 0x0001
