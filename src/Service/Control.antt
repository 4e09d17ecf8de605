-- ===== src/Service/Control.antt =====
-- proxy/src/robusto_proxy_service.c: the dispatch of the control domain.
use robusto.Prelude.{ℕ, Option, List, ltb, ◌==◌, if◌then◌else◌}
use robusto.Protocol.Opcode
use robusto.Protocol.Status
use robusto.Control.{prefix_size}
use robusto.Service.{Service, Output, Answer, erred, refused, reply_status}
use robusto.Service.Hello.{handle_hello}
use robusto.Service.Query.{
  Platform, handle_health, handle_capability_query, handle_system_info, handle_fragment_stats,
  handle_reboot,
}

-- `robusto_proxy_service_handle_control_request`, its pointers given, but for the request's payload.
unfoldable pub handle_control_request :
    {A : Type 0} → Platform A → Service A → ℕ → Option (List ℕ) → ℕ → ℕ → Output → A → Answer A
handle_control_request p s opcode payload payload_size now_ms out world =
    if opcode == Opcode.hello
    then handle_hello s payload payload_size now_ms out world
    else if opcode == Opcode.health
    then handle_health s payload_size now_ms out world
    else if opcode == Opcode.capability_query
    then handle_capability_query s payload_size out world
    else if opcode == Opcode.system_info
    then handle_system_info p s payload_size out world
    else if opcode == Opcode.fragment_stats
    then handle_fragment_stats p s payload_size out world
    else if opcode == Opcode.reboot
    then handle_reboot s payload_size out world
    else if ltb out.room prefix_size
    then refused s out world
    else reply_status s (erred s) Status.unsupported_opcode out world
