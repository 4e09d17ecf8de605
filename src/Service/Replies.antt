-- ===== src/Service/Replies.antt =====
-- What a handler leaves in the response buffer: the prefix of a status, then the payload.
use robusto.Prelude.{
  ℕ, [], ◌+◌, ◌-◌, ◌≤◌, ◌<◌, ◌^◌, ◌≡◌, refl, true, some, List, ◌++◌, arith, AreBytes,
  AreBytes-append, AreBytes-drop, overwrite, length, drop, length-append, length-drop,
}
use robusto.Protocol.{ok, max_payload}
use robusto.Control.{returns, Run, prefix_size, prefix_bytes, encode_response_prefix}
use robusto.Protocol.{ProxyResult}
use robusto.Prelude.{Option}
use robusto.Service.{Service, Output, Answer, status_prefix, answered, reply_status, reply_payload}

-- A response buffer of the size that `robusto_proxy_service_handle_frame` gives.
pub record IsBuffer (out : Output) : Type 0 where
  pub room : out.room ≡ max_payload
  pub length : length out.bytes ≡ max_payload
  pub bytes : AreBytes out.bytes

-- The output with a reply: the status, what follows the prefix, and the size.
abbrev pub with_reply : Output → ℕ → List ℕ → ℕ → Output
with_reply out status rest used = record out {
  bytes = prefix_bytes (status_prefix status) ++ rest;
  used = used;
}

-- A reply that a response frame can carry.
pub record IsReply {A : Type 0} (a : Answer A) : Type 0 where
  pub handled : a.handled ≡ true
  pub status : ℕ
  pub status_width : status < 2 ^ 16
  pub rest : List ℕ
  pub bytes : a.output.bytes ≡ prefix_bytes (status_prefix status) ++ rest
  pub rest_bytes : AreBytes rest
  pub rest_length : length rest ≡ max_payload - prefix_size
  pub lower : prefix_size ≤ a.output.used
  pub upper : a.output.used ≤ max_payload

-- The bytes that an encoder stores, where it has room for them.
abbrev pub Stores : (Option (List ℕ) → ℕ → Run (ProxyResult × Option (List ℕ))) → List ℕ → Type 0
Stores encode bytes =
    (buffer : List ℕ) (size : ℕ)
    → length bytes ≤ size
    → encode (some buffer) size ≡ returns (ok, some (overwrite bytes buffer))

-- The same session, table and callbacks.
abbrev pub IsKept : {A : Type 0} → Service A → Service A → Type 0
IsKept s s' =
    (s'.session ≡ s.session) × (s'.inflight ≡ s.inflight) × (s'.pubsub_adapter ≡ s.pubsub_adapter)

-- A reply of a service that keeps its session.
abbrev pub Replies : {A : Type 0} → Service A → Answer A → Type 0
Replies s a = IsReply a × IsKept s a.service

module _ {A : Type 0} where
  pub reply_status_lem :
      (failed done : Service A) (status : ℕ) (out : Output) (world : A)
      → prefix_size ≤ out.room
      → reply_status failed done status out world
        ≡ answered done (with_reply out status (drop prefix_size out.bytes) prefix_size) world
  unfolding reply_status encode_response_prefix
  reply_status_lem failed done status out world room = ground arith

  pub reply_payload_lem :
      (failed done : Service A) (encode : Option (List ℕ) → ℕ → Run (ProxyResult × Option (List ℕ)))
      (size : ℕ) (out : Output) (world : A) (bytes : List ℕ)
      → Stores encode bytes
      → length bytes ≡ size
      → prefix_size + size ≤ out.room
      → reply_payload failed done encode size out world
        ≡ answered done
            (with_reply out 0 (overwrite bytes (drop prefix_size out.bytes)) (prefix_size + size))
            world
  unfolding reply_payload encode_response_prefix
  reply_payload_lem failed done encode size out world bytes stores long room =
      let short : length bytes ≤ out.room - prefix_size = omega arith in
      ground (arith, stores (drop prefix_size out.bytes) (out.room - prefix_size) short)

  -- A reply whose rest came from overwriting the rest of the buffer.
  pub answered-IsReply :
      (done : Service A) (out : Output) (status : ℕ) (bytes : List ℕ) (used : ℕ) (world : A)
      → IsBuffer out
      → status < 2 ^ 16
      → AreBytes bytes
      → length bytes ≤ max_payload - prefix_size
      → prefix_size ≤ used
      → used ≤ max_payload
      → IsReply (
          answered done
            (with_reply out status (overwrite bytes (drop prefix_size out.bytes)) used)
            world)
  answered-IsReply done out status bytes used world buffer width are room lower upper = record {
    handled = refl;
    status = status;
    status_width = width;
    rest = overwrite bytes (drop prefix_size out.bytes);
    bytes = refl;
    rest_bytes =
        AreBytes-append bytes _ are
          (AreBytes-drop (length bytes) _ (AreBytes-drop prefix_size out.bytes buffer.bytes));
    rest_length = omega (
      arith,
      length-append bytes (drop (length bytes) (drop prefix_size out.bytes)),
      length-drop (length bytes) (drop prefix_size out.bytes),
      length-drop prefix_size out.bytes,
      buffer.length,
    );
    lower = lower;
    upper = upper;
  }

  -- A reply that is only a status.
  pub reply_status-IsReply :
      (failed done : Service A) (status : ℕ) (out : Output) (world : A)
      → IsBuffer out
      → status < 2 ^ 16
      → IsReply (reply_status failed done status out world)
  reply_status-IsReply failed done status out world buffer width =
      rw (reply_status_lem failed done status out world (omega (arith, buffer.room))) (
        answered-IsReply done out status [] prefix_size world buffer width tt (omega arith)
          (omega arith) (omega arith))

  pub reply_status-Replies :
      (s failed done : Service A) (status : ℕ) (out : Output) (world : A)
      → IsBuffer out
      → status < 2 ^ 16
      → IsKept s done
      → Replies s (reply_status failed done status out world)
  reply_status-Replies s failed done status out world buffer width kept = (
    reply_status-IsReply failed done status out world buffer width,
    rw (reply_status_lem failed done status out world (omega (arith, buffer.room))) kept,
  )
