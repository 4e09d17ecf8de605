-- ===== src/Frame/RoundTrip.antt =====
-- `robusto_proxy_frame_encode` against `robusto_proxy_frame_validate_buffer`.
use robusto.Prelude.{
  ℕ, ◌+◌, ◌-◌, ◌≤◌, ◌≡◌, ◌≢◌, ◌↔◌, refl, sym, ap, ◌∙◌, Option, none, some, List, ◌++◌, append_assoc,
  arith, AreBytes, AreBytes-append, take, drop, length, le32, read_le32, length-append, length-take,
  take-append, drop-append, read_le32-le32,
}
use robusto.Protocol.{ok, FrameHeader, FitsHeader, header_size, crc_size, frame_size_bytes}
use robusto.Crc32.{crc32_iso_hdlc}
use robusto.Crc32.Detects.{crc32-lt, crc32-append, AreBytes-take}
use robusto.Frame.{
  read_header, expected_crc, actual_crc, validate_buffer, header_bytes, payload_bytes, frame_body,
  frame_bytes, encode, covered_size,
}
use robusto.Frame.Validate.{
  IsValidHeader, IsValidFrame, check_header-ok, check_header_valid, validate_buffer_valid,
}

-- The payload argument supplies as many bytes as the header announces.
abbrev pub Supplies : ℕ → Option (List ℕ) → Type 0
Supplies size none = size ≡ 0
Supplies size (some payload) = (size ≤ length payload) × AreBytes payload

length-payload_bytes :
    (size : ℕ) (p : Option (List ℕ)) → Supplies size p → length (payload_bytes size p) ≡ size
length-payload_bytes size none h = omega arith
length-payload_bytes size (some payload) h = omega (arith, length-take size payload)

payload_bytes-AreBytes :
    (size : ℕ) (p : Option (List ℕ)) → Supplies size p → AreBytes (payload_bytes size p)
payload_bytes-AreBytes size none h = tt
payload_bytes-AreBytes size (some payload) h = AreBytes-take size payload h.1

module _ (h : FrameHeader) (p : Option (List ℕ)) (fits : FitsHeader h)
    (supplied : Supplies h.payload_length p) where
  frame_body-AreBytes : AreBytes (frame_body h p)
  unfolding frame_body header_bytes
  frame_body-AreBytes =
      AreBytes-append (header_bytes h) (payload_bytes h.payload_length p) (omega arith)
        (payload_bytes-AreBytes h.payload_length p supplied)

  length-frame_body : length (frame_body h p) ≡ header_size + h.payload_length
  unfolding frame_body header_bytes
  length-frame_body = omega (arith, length-payload_bytes h.payload_length p supplied)

  -- Whatever stands behind the frame, its header reads back as it was written.
  read_header-frame : (rest : List ℕ) → read_header (frame_bytes h p ++ rest) ≡ h
  unfolding frame_bytes frame_body header_bytes
  read_header-frame rest = ground arith

  -- The payload stands behind the header.
  payload-frame :
      (rest : List ℕ)
      → take h.payload_length (drop header_size (frame_bytes h p ++ rest))
        ≡ payload_bytes h.payload_length p
  unfolding frame_bytes frame_body header_bytes
  payload-frame rest = rw (append_assoc (payload_bytes h.payload_length p)) (
      take-append (payload_bytes h.payload_length p) _ h.payload_length
        (sym (length-payload_bytes h.payload_length p supplied)))

  length-frame : length (frame_bytes h p) ≡ frame_size_bytes h.payload_length
  unfolding frame_bytes
  length-frame = omega (
    arith,
    length-append (frame_body h p)
        (le32 (crc32_iso_hdlc (frame_body h p) (frame_size_bytes h.payload_length - crc_size))),
    length-frame_body,
  )

  body_crc : ℕ
  body_crc = crc32_iso_hdlc (frame_body h p) (header_size + h.payload_length)

  frame_split :
      (rest : List ℕ) → frame_bytes h p ++ rest ≡ frame_body h p ++ (le32 body_crc ++ rest)
  unfolding frame_bytes body_crc
  frame_split rest =
      let covered : frame_size_bytes h.payload_length - crc_size ≡ header_size + h.payload_length =
        omega arith in
      rw covered (append_assoc (frame_body h p) (le32 body_crc) rest)

  covered_body :
      (tail : List ℕ) → covered_size (frame_body h p ++ tail) ≡ header_size + h.payload_length
  unfolding frame_body header_bytes
  covered_body tail = omega arith

  expected-body : (tail : List ℕ) → expected_crc (frame_body h p ++ tail) ≡ body_crc
  unfolding expected_crc body_crc
  expected-body tail =
      ap (crc32_iso_hdlc (frame_body h p ++ tail)) (covered_body tail)
      ∙ crc32-append (frame_body h p) tail (header_size + h.payload_length) (sym length-frame_body)

  actual-body : (rest : List ℕ) → actual_crc (frame_body h p ++ (le32 body_crc ++ rest)) ≡ body_crc
  unfolding actual_crc
  actual-body rest =
      ap (λ n. read_le32 (drop n (frame_body h p ++ (le32 body_crc ++ rest))))
        (covered_body (le32 body_crc ++ rest))
      ∙ ap read_le32 (
          drop-append (frame_body h p) (le32 body_crc ++ rest) (header_size + h.payload_length)
            (sym length-frame_body))
      ∙ read_le32-le32 body_crc rest (
          unfold body_crc in
          crc32-lt (frame_body h p) (header_size + h.payload_length) frame_body-AreBytes)

  frame-IsValidFrame :
      (rest : List ℕ) (size : ℕ)
      → IsValidHeader h
      → frame_size_bytes h.payload_length ≤ size
      → IsValidFrame (frame_bytes h p ++ rest) size
  frame-IsValidFrame rest size valid room = record {
    room = omega (arith, ap (λ (x : FrameHeader). x.payload_length) (read_header-frame rest));
    header = rw (read_header-frame rest) valid;
    crc = rw (frame_split rest) (expected-body (le32 body_crc ++ rest) ∙ sym (actual-body rest));
  }

encode_fills :
    (h : FrameHeader) (p : Option (List ℕ)) (buffer : List ℕ) (buffer_size old_size : ℕ)
    → Supplies h.payload_length p
    → IsValidHeader h
    → frame_size_bytes h.payload_length ≤ buffer_size
    → encode (some buffer) buffer_size (some h) p (some old_size) ≡ (
      ok,
      some (frame_bytes h p ++ drop (frame_size_bytes h.payload_length) buffer),
      some (frame_size_bytes h.payload_length),
    )
unfolding encode
encode_fills h none buffer n old supplied valid room = ground (arith, check_header_valid h valid)
encode_fills h (some p) buffer n old supplied valid room =
    ground (arith, check_header_valid h valid)

-- Given a valid header, its payload and enough room, `robusto_proxy_frame_encode` succeeds. What it
-- leaves in the buffer passes `robusto_proxy_frame_validate_buffer` at any length that includes the
-- frame, reads back as the header and the payload given, and is unchanged behind the frame.
pub validate_buffer-encode :
    (h : FrameHeader) (p : Option (List ℕ)) (buffer : List ℕ) (buffer_size old_size size : ℕ)
    → FitsHeader h
    → Supplies h.payload_length p
    → IsValidHeader h
    → frame_size_bytes h.payload_length ≤ buffer_size
    → frame_size_bytes h.payload_length ≤ size
    → (out : List ℕ) × (encode (some buffer) buffer_size (some h) p (some old_size)
        ≡ (ok, some out, some (frame_size_bytes h.payload_length)))
      × ((validate_buffer (some out) size none).0 ≡ ok)
      × (read_header out ≡ h)
      × (take h.payload_length (drop header_size out) ≡ payload_bytes h.payload_length p)
      × (drop (frame_size_bytes h.payload_length) out
          ≡ drop (frame_size_bytes h.payload_length) buffer)
unfolding encode
validate_buffer-encode h p buffer buffer_size old_size size fits supplied valid room fit =
    let rest : List ℕ = drop (frame_size_bytes h.payload_length) buffer in
    (
      frame_bytes h p ++ rest,
      encode_fills h p buffer buffer_size old_size supplied valid room,
      validate_buffer_valid (frame_bytes h p ++ rest) size none
          (frame-IsValidFrame h p fits supplied rest size valid fit),
      read_header-frame h p fits supplied rest,
      payload-frame h p fits supplied rest,
      drop-append (frame_bytes h p) rest (frame_size_bytes h.payload_length)
          (sym (length-frame h p fits supplied)),
    )

-- The payload pointer may be NULL only if the header announces no payload.
abbrev pub IsGiven : ℕ → Option (List ℕ) → Type 0
IsGiven size none = size ≡ 0
IsGiven size (some payload) = Unit

encode_accepts :
    (h : FrameHeader) (p : Option (List ℕ)) (buffer : List ℕ) (n old : ℕ)
    → (encode (some buffer) n (some h) p (some old)).0 ≡ ok
    → IsValidHeader h × (frame_size_bytes h.payload_length ≤ n) × IsGiven h.payload_length p
unfolding encode
encode_accepts h none buffer n old e = ground (arith, check_header-ok h)
encode_accepts h (some p) buffer n old e = ground (arith, check_header-ok h)

encode_takes :
    (h : FrameHeader) (p : Option (List ℕ)) (buffer : List ℕ) (n old : ℕ)
    → IsValidHeader h × (frame_size_bytes h.payload_length ≤ n) × IsGiven h.payload_length p
    → (encode (some buffer) n (some h) p (some old)).0 ≡ ok
unfolding encode
encode_takes h none buffer n old (valid, room, given) = ground (arith, check_header_valid h valid)
encode_takes h (some p) buffer n old (valid, room, given) =
    ground (arith, check_header_valid h valid)

-- With the pointers given, `robusto_proxy_frame_encode` succeeds exactly when the header is valid,
-- the buffer has room and a payload is given for a length above 0.
pub encode_iff :
    (h : FrameHeader) (p : Option (List ℕ)) (buffer : List ℕ) (n old : ℕ)
    → ((encode (some buffer) n (some h) p (some old)).0 ≡ ok)
      ↔ (IsValidHeader h × (frame_size_bytes h.payload_length ≤ n) × IsGiven h.payload_length p)
encode_iff h p buffer n old = (encode_accepts h p buffer n old, encode_takes h p buffer n old)

-- Where `robusto_proxy_frame_encode` fails, also over a NULL pointer, it writes nothing: the buffer
-- and the frame size stay as they were.
pub encode_refused :
    (buffer : Option (List ℕ)) (n : ℕ) (h : Option FrameHeader) (p : Option (List ℕ))
    (old : Option ℕ)
    → (encode buffer n h p old).0 ≢ ok
    → ((encode buffer n h p old).1 ≡ buffer) × ((encode buffer n h p old).2 ≡ old)
unfolding encode
encode_refused (some buffer) n (some h) none (some old) e = ground arith
encode_refused (some buffer) n (some h) (some p) (some old) e = ground arith
encode_refused (some buffer) n (some h) p none e = (refl, refl)
encode_refused (some buffer) n none p old e = (refl, refl)
encode_refused none n h p old e = (refl, refl)
