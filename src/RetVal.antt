-- ===== src/RetVal.antt =====
-- components/robusto/include/robusto_retval.h: `rob_ret_val_t`. A transport may return codes that
-- the header does not name: `other`.
use robusto.Prelude.{ℕ, Bool, true, false}

pub data RetVal : Type 0 where
  ok : RetVal
  fail invalid_id invalid_arg out_of_memory : RetVal
  not_supported init_fail timeout not_ready : RetVal
  send_fail send_some_fail recv_no_message no_receipt : RetVal
  who outcome_unknown message_too_long message_too_short : RetVal
  message_filtered parsing_failed wrong_crc invalid_media : RetVal
  conv_list conv_list_full peer_not_found peer_exists : RetVal
  no_peers invalid_service_id mutex os_error : RetVal
  queue_full : RetVal
  other : ℕ → RetVal

-- The test `result == ROB_OK`.
abbrev pub is_ok : RetVal → Bool
is_ok ok = true
is_ok _ = false

-- The test `result == ROB_ERR_TIMEOUT`.
abbrev pub is_timeout : RetVal → Bool
is_timeout timeout = true
is_timeout _ = false
