-- ===== src/Lib.antt =====
-- Robusto: the proxy stack of components/robusto/proxy. A controller reaches a radio coprocessor over
-- a link that may lose, corrupt and repeat messages. The client sends a request as a frame through a
-- transport and waits for the frame that answers it; an in-flight table tells the requests apart, and
-- a session keeps their identifiers, the boot of the peer and the limits that HELLO negotiated.
--
-- The parts, bottom up, with the files of the repository that they model:
--   * Crc32: proxy/src/robusto_proxy_crc32.c. The CRC that closes frames and packets.
--   * Protocol: proxy/include/robusto_proxy_protocol.h. Enumerations, structures and constants (Flag,
--     Domain, Opcode, PubsubOpcode, Status), the profile limits and the flag test. Protocol/Stats has
--     robusto_fragment_stats_t of include/robusto_message.h.
--   * Frame: proxy/src/robusto_proxy_frame.c. header_init, validate_header, validate_buffer, encode and
--     slot_is_empty stand for the functions robusto_proxy_frame_<name> and robusto_proxy_slot_is_empty.
--   * Rsd1: proxy/transports/rsd1/src/robusto_rsd1_protocol.c. encode, decode_prefix and decode stand for
--     robusto_rsd1_<name>; these packets carry the frames over a serial wire.
--   * Control: proxy/src/robusto_proxy_control.c. A file for each group of messages: Hello, Reports
--     (capabilities and health), SystemInfo, FragmentStats; Message has the decoders of whole responses.
--   * Inflight: proxy/src/robusto_proxy_inflight.c, the table of requests that wait for a response.
--   * Session: proxy/src/robusto_proxy_session.c; restart stands for robusto_proxy_session_reset.
--   * RetVal: include/robusto_retval.h.
--   * Client: proxy/src/robusto_proxy_client.c. Client/Request is robusto_proxy_client_request, Client/Judge
--     what it makes of one reply; Client/Start looks at robusto_proxy_client_init. Client/Connect has
--     robusto_proxy_client_connect, the queries and reboot_delegate, at pointers that are given.
--   * Pubsub: proxy/src/robusto_proxy_pubsub.c. The check of a topic, and the messages of the
--     publish-subscribe domain: Publish, Subscribe, Delivery. Utf8 says which code points and which bytes make a topic.
--   * Service: proxy/src/robusto_proxy_service.c, the other end of the link. Hello, Query and Control are
--     robusto_proxy_service_handle_control_request, Pubsub and Branch are ..._handle_pubsub_request,
--     Event has the frames of events, and Frame is ..._handle_frame, which calls these handlers. The
--     files whose names end in Reply show what the handlers answer; Steps and History, what every
--     history keeps.
--   * Prelude: what all of these share: lists, bytes, exclusive or, tests.
--
-- How the code is written here. A function that writes through its arguments returns what it leaves
-- there: the result first, then the buffers and the stored values. A pointer that may be NULL is an
-- Option. A codec that goes through a NULL pointer gives `fault`. A buffer is the list of its bytes,
-- and its length is passed beside it, as in the code; what a function reads behind the end of the list
-- is 0. Numbers are natural numbers; each sum or difference that may wrap has its `% 2 ^ w` written
-- out, and a record `Fits...` gives the widths of a structure's fields where a theorem needs them. The
-- header of a frame is read as the cast to a structure reads it on a little-endian machine.
--
-- What connect and the queries call in the pubsub client is the record Client.Connect.PubsubClient; a
-- record LeavesState says, where a theorem needs it, that it leaves the state of the session alone. The
-- client's callbacks (the exchange of the transport, the clock, the wait, the jitter) are the
-- record Client.Env, over any state of what lies behind them; no theorem assumes anything of them. Those
-- of the service are the record Service.Adapter and the reboot handler, over such a state too, and
-- Service.Query.Platform gives what the build and the machine supply; where a theorem needs it, a record
-- `IsSound...` states the widths of their types and that a response with status OK can be encoded. The
-- payload of a request is NULL, bytes of the caller, or the client's own response frame, which
-- robusto_proxy_client_connect passes.
--
-- Bounds. The table of requests has eight slots; `capacity` is between 1 and 8. The loop of a request
-- runs over the rounds that are left, one more than the retry limit, which is all that the condition of
-- the `for` statement admits. The loops of the CRC and of the table run over their lists. The check of a
-- topic gets as many rounds as the topic has bytes, and each round goes at least one byte on. Nothing
-- else needs fuel. The fragment statistics are those of the verbose level, in which both blocks are sent.
--
-- Not modelled: the pubsub client and the pubsub adapter (proxy/src/robusto_proxy_pubsub_client.c,
-- robusto_proxy_pubsub_adapter.c); the SDIO transports, which call drivers; logging; and the
-- components of the framework outside proxy, most of which are tasks, drivers and media.
pub mod Prelude
pub mod Protocol
pub mod Crc32
pub mod Frame
pub mod Rsd1
pub mod Control
pub mod Inflight
pub mod Session
pub mod RetVal
pub mod Client
pub mod Pubsub
pub mod Service
