-- ===== src/Service/Refused.antt =====
-- What a transaction that fails leaves.
use robusto.Prelude.{
  ℕ, ◌≡◌, ◌≢◌, ◌||◌, refl, Option, none, some, List, bit_and, drop, ◌==◌, Bool-cases, inl, inr,
}
use robusto.Protocol.{
  ProxyResult, ok, invalid_argument, bad_magic, bad_version, bad_header_length, bad_flags,
  bad_reserved, bad_length, bad_crc, FrameHeader, header_size,
}
use robusto.Protocol.Flag
use robusto.Frame.{validate_buffer, read_header}
use robusto.Frame.RoundTrip.{encode_refused}
use robusto.Session.{take_sequence}
use robusto.Service.{Service, Answer}
use robusto.Service.Query.{Platform}
use robusto.Service.Frame.{Transaction, respond, transact, handle_frame, carry_out}

module _ {A : Type 0} where
  -- The frame and `*response_size` as they were.
  abbrev pub IsUntouched : Option (List ℕ) → Option ℕ → Transaction A → Type 0
  IsUntouched frame size t = (t.frame ≡ frame) × (t.size ≡ size)

  respond_refused :
      (h : FrameHeader) (frame : List ℕ) (frame_size old : ℕ) (answer : Answer A)
      → (respond h frame frame_size old answer).result ≢ ok
      → IsUntouched (some frame) (some old) (respond h frame frame_size old answer)
  unfolding respond take_sequence
  respond_refused h frame frame_size old answer bad = elim (Bool-cases answer.handled) [
    | inl replied ↦ let bad' = rw replied at bad in rw replied (encode_refused _ _ _ _ _ bad')
    | inr not_replied ↦ rw not_replied (refl, refl)
  ]

  transact_refused :
      (e : ProxyResult) (p : Platform A) (s : Service A) (request : List ℕ) (now_ms : ℕ)
      (frame : List ℕ) (frame_size old : ℕ) (scratch : List ℕ) (world : A)
      → (transact e p s request now_ms frame frame_size old scratch world).result ≢ ok
      → IsUntouched
          (some frame)
          (some old)
          (transact e p s request now_ms frame frame_size old scratch world)
  unfolding transact
  transact_refused ok p s request now_ms frame frame_size old scratch world bad =
      let h : FrameHeader = read_header request in
      elim (Bool-cases (bit_and h.flags Flag.request == 0 || h.correlation_id == 0)) [
        | inl unmatched ↦ rw unmatched (refl, refl)
        | inr good ↦
            let bad' = rw good at bad in
            rw good (
              respond_refused h frame frame_size old
                (carry_out p s h (drop header_size request) now_ms scratch world) bad')
      ]
  transact_refused invalid_argument p s request now_ms frame frame_size old scratch world bad =
      (refl, refl)
  transact_refused bad_magic p s request now_ms frame frame_size old scratch world bad =
      (refl, refl)
  transact_refused bad_version p s request now_ms frame frame_size old scratch world bad =
      (refl, refl)
  transact_refused bad_header_length p s request now_ms frame frame_size old scratch world bad =
      (refl, refl)
  transact_refused bad_flags p s request now_ms frame frame_size old scratch world bad =
      (refl, refl)
  transact_refused bad_reserved p s request now_ms frame frame_size old scratch world bad =
      (refl, refl)
  transact_refused bad_length p s request now_ms frame frame_size old scratch world bad =
      (refl, refl)
  transact_refused bad_crc p s request now_ms frame frame_size old scratch world bad = (refl, refl)

  -- Where `robusto_proxy_service_handle_frame` fails, for whatever reason, it produces no frame: the response
  -- buffer and `*response_size` stay as they were, so that the size is not set to zero.
  pub handle_frame_refused :
      (p : Platform A) (s : Service A) (request : Option (List ℕ)) (size now_ms : ℕ)
      (frame : Option (List ℕ)) (frame_size : ℕ) (old : Option ℕ) (scratch : List ℕ) (world : A)
      → (handle_frame p s request size now_ms frame frame_size old scratch world).result ≢ ok
      → IsUntouched frame old
          (handle_frame p s request size now_ms frame frame_size old scratch world)
  unfolding handle_frame
  handle_frame_refused p s (some request) size now_ms (some frame) frame_size (some old) scratch
        world bad =
      transact_refused (validate_buffer (some request) size none).0 p s request now_ms frame
        frame_size old scratch world bad
  handle_frame_refused p s (some request) size now_ms (some frame) frame_size none scratch world
        bad =
      (refl, refl)
  handle_frame_refused p s (some request) size now_ms none frame_size old scratch world bad =
      (refl, refl)
  handle_frame_refused p s none size now_ms frame frame_size old scratch world bad = (refl, refl)
