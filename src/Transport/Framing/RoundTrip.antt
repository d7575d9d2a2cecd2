-- ===== src/Transport/Framing/RoundTrip.antt =====
-- What one end writes as a frame, the other end reads.
use tide_pool.Transport.Deadline.{make_deadline}
use tide_pool.Protocol.Header.RoundTrip.{
  decode_header-encode_header, validate_header_fields-Fits, Fits, length-header_layout,
}
use mathlib.Core.List.{append-nil}
use tide_pool.Api.Status.{◌>>◌}
use tide_pool.Protocol.Header.{
  validate_frame_size, validate_frame_size_impl, header_layout, validate_header_fields, CodecLimits,
  FrameHeader, encode_header, header_bytes,
}
use tide_pool.Transport.Connection.Reads.{read_exact_delivered, Delivers}
use tide_pool.Transport.Framing.{
  read_header, read_payload, read_wire_frame, with_payload, after_header, write_wire_frame,
  write_payload,
}
use tide_pool.Transport.Connection.State.{Ends, WrittenOf, write_exact_end}
use tide_pool.Api.Status.{>>-eq-value, Status, failure, Result-cases, value, ok}
use tide_pool.Prelude.{
  drop, take, u64_mod, ◌+◌, ◌<◌, Bool-cases, ap, arith, inl, inr, ◌==◌, ◌∙◌, ◌∷◌, Bool, List,
  Option, [], false, length, none, refl, some, subst, true, ℕ, ◌++◌, ◌≡◌, ◌≢◌,
}
use tide_pool.Transport.Connection.{
  read_exact, ShutdownAnswer, count, Moved, ReadAttempt, TcpConnection, WriteAttempt, is_open,
  write_exact,
}

-- A write of the whole source that returned success.
written_all :
    (start : ℕ) (later : List WriteAttempt) (source : List ℕ) (c : TcpConnection) {bytes : List ℕ}
    {rest : List WriteAttempt} {d : TcpConnection}
    → is_open c ≡ true
    → length source ≢ 0
    → write_exact false start later source c ≡ some ((ok, bytes, rest), d)
    → (bytes ≡ source) × (d ≡ c)
written_all start later source c o z e =
    let (w, same, _) =
      subst (Ends (WrittenOf source) c) e (write_exact_end start later source c o z) in
    (w.1 refl, same refl)

after_header_ok :
    (bytes : List ℕ) (o : Option (Moved WriteAttempt × TcpConnection)) {sent : List ℕ}
    {rest : List WriteAttempt} {d : TcpConnection}
    → after_header bytes o ≡ some ((ok, sent, rest), d)
    → (more : List ℕ) × (sent ≡ bytes ++ more) × (o ≡ some ((ok, more, rest), d))
after_header_ok bytes none e = absurd cc
after_header_ok bytes (some ((s, more, rest), d)) e = (more, cc, cc)

no_bytes : (payload : List ℕ) → (length payload == 0) ≡ true → payload ≡ []
no_bytes [] h = refl
no_bytes (b ∷ payload) h = ground arith

-- How `WriteWireFrame` ends with success, from the write of the header on.
write_payload_ok :
    (start : ℕ) (payload : List ℕ) (o : Option (Moved WriteAttempt × TcpConnection)) {sent : List ℕ}
    {rest : List WriteAttempt} {d : TcpConnection}
    → write_payload start payload o ≡ some ((ok, sent, rest), d)
    → (bytes : List ℕ) × (later : List WriteAttempt) × (c : TcpConnection) × (o
        ≡ some ((ok, bytes, later), c))
      × (is_open c ≡ true → sent ≡ bytes ++ payload)
unfolding write_payload
write_payload_ok start payload none e = absurd cc
write_payload_ok start payload (some ((ok, bytes, later), c)) {sent} {rest} {d} e = (
  bytes,
  later,
  c,
  refl,
  λ o. elim (Bool-cases (length payload == 0)) [
    | inl z ↦ rw (no_bytes payload z, append-nil bytes) (ground arith)
    | inr z ↦
        let (more, same, w) =
          after_header_ok bytes (write_exact false start later payload c) {sent = sent}
            {rest = rest} {d = d} (ground arith) in
        same ∙ ap (λ l. bytes ++ l) (written_all start later payload c o (ground arith) w).0
  ],
)
write_payload_ok start payload (some ((s, bytes, later), c)) e = absurd cc

not_ok : (s : Status) (bytes : List ℕ) {t : Status} → (s >> value bytes) ≡ failure t → t ≢ ok
not_ok ok bytes e = absurd cc
not_ok s bytes e = λ h. absurd cc

-- The encoded header, where `EncodeHeader` accepts it.
encode_header_inv :
    (header : FrameHeader) (limits : CodecLimits) {encoded : List ℕ}
    → encode_header header limits ≡ value encoded
    → length encoded ≡ header_bytes
unfolding encode_header
encode_header_inv header limits {encoded} e =
    let (_, same) =
      >>-eq-value (validate_header_fields header limits false) (value (header_layout header)) e in
    let bytes_eq : header_layout header ≡ encoded = cc in
    rw (← bytes_eq) (length-header_layout header)

encode_header-Fits :
    (header : FrameHeader) (limits : CodecLimits) {encoded : List ℕ}
    → encode_header header limits ≡ value encoded
    → Fits header limits
unfolding encode_header
encode_header-Fits header limits e =
    validate_header_fields-Fits header limits false
      (>>-eq-value (validate_header_fields header limits false) (value (header_layout header)) e).0

encode_header_failure :
    (header : FrameHeader) (limits : CodecLimits) {s : Status}
    → encode_header header limits ≡ failure s
    → s ≢ ok
unfolding encode_header
encode_header_failure header limits e =
    not_ok (validate_header_fields header limits false) (header_layout header) e

-- A `WriteWireFrame` on an open connection that returns success has sent the 32 bytes of the header
-- and then the payload, and nothing else; the header declares the length of the payload.
pub write_wire_frame_sent :
    (starts : ℕ × ℕ) (limits : CodecLimits) (header : FrameHeader) (payload : List ℕ)
    (later : List WriteAttempt) (c : TcpConnection) {sent : List ℕ} {rest : List WriteAttempt}
    {d : TcpConnection}
    → is_open c ≡ true
    → write_wire_frame starts limits header payload later c ≡ some ((ok, sent, rest), d)
    → (header.payload_bytes ≡ length payload)
      × ((encoded : List ℕ) × (encode_header header limits ≡ value encoded)
          × (length encoded ≡ header_bytes)
          × (sent ≡ encoded ++ payload))
unfolding write_wire_frame
write_wire_frame_sent starts limits header payload later c {sent} {rest} {d} o e =
    elim (Bool-cases (header.payload_bytes == length payload)) [
      | inr n ↦ absurd (ground arith)
      | inl y ↦ elim (Result-cases (encode_header header limits)) [
        | inr (s, f) ↦ absurd (ground (arith, encode_header_failure header limits f))
        | inl (encoded, f) ↦
            let len = encode_header_inv header limits f in
            let (bytes, between, m, w, k) =
              write_payload_ok starts.1 payload (write_exact false starts.0 later encoded c)
                {sent = sent} {rest = rest} {d = d} (ground arith) in
            let (all, same) = written_all starts.0 later encoded c o (omega (arith, len)) w in
            (ground arith, (encoded, f, len, k (rw same o) ∙ ap (λ l. l ++ payload) all))
      ]
    ]

delivered_nothing :
    (expires_at : ℕ) (first : Bool) (later rest : List ReadAttempt)
    → Delivers expires_at first later [] rest
    → later ≡ rest
delivered_nothing expires_at first later rest Delivers.delivered = refl

frame_size-Fits :
    (header : FrameHeader) (limits : CodecLimits)
    → Fits header limits
    → validate_frame_size header.payload_bytes limits ≡ value (header_bytes + header.payload_bytes)
unfolding validate_frame_size validate_frame_size_impl
frame_size-Fits header limits f = ground (arith, f.frame, f.payload)

read_payload_delivered :
    (answer : ShutdownAnswer) (start : ℕ) (limits : CodecLimits) (header : FrameHeader)
    (payload : List ℕ) (mid rest : List ReadAttempt) (c : TcpConnection)
    → is_open c ≡ true
    → Fits header limits
    → header.payload_bytes ≡ length payload
    → Delivers (make_deadline (count c.options.read_timeout) start) true mid payload rest
    → read_payload true answer start limits header mid c
      ≡ some (value (record { header = header; payload = payload }), rest, c)
unfolding read_payload with_payload
read_payload_delivered answer start limits header payload mid rest c o f n d =
    elim (Bool-cases (length payload == 0)) [
      | inl z ↦
          let none_left : payload ≡ [] = no_bytes payload z in
          let same =
            delivered_nothing (make_deadline (count c.options.read_timeout) start) true mid rest (
              subst
                (λ p. Delivers (make_deadline (count c.options.read_timeout) start) true mid p rest)
                none_left d) in
          ground (arith, frame_size-Fits header limits f)
      | inr z ↦
          let r = read_exact_delivered start mid payload rest c o d (ground arith) in
          ground (arith, frame_size-Fits header limits f, r)
    ]

take_front : (xs ys : List ℕ) → take (length xs) (xs ++ ys) ≡ xs
take_front [] ys = refl
take_front (x ∷ xs) ys = ap (λ l. x ∷ l) (take_front xs ys)

drop_front : (xs ys : List ℕ) → drop (length xs) (xs ++ ys) ≡ ys
drop_front [] ys = refl
drop_front (x ∷ xs) ys = drop_front xs ys

read_frame_delivered :
    (starts : ℕ × ℕ) (answer : ShutdownAnswer) (limits : CodecLimits) (header : FrameHeader)
    (encoded payload : List ℕ) (later mid rest : List ReadAttempt) (c : TcpConnection)
    → header.request_id < u64_mod
    → encode_header header limits ≡ value encoded
    → header.payload_bytes ≡ length payload
    → is_open c ≡ true
    → Delivers (make_deadline (count c.options.read_timeout) starts.0) true later encoded mid
    → Delivers (make_deadline (count c.options.read_timeout) starts.1) true mid payload rest
    → read_wire_frame true answer starts limits later c
      ≡ some (value (record { header = header; payload = payload }), rest, c)
unfolding read_wire_frame read_header
read_frame_delivered starts answer limits header encoded payload later mid rest c r e n o d1 d2 =
    let (len, decoded) = decode_header-encode_header header limits r e in
    let first =
      subst (λ k. read_exact false starts.0 later k c ≡ some ((ok, encoded, mid), c)) len
        (read_exact_delivered starts.0 later encoded mid c o d1 (omega (arith, len))) in
    ground (
      arith,
      first,
      decoded,
      read_payload_delivered answer starts.1 limits header payload mid rest c o
          (encode_header-Fits header limits e) n d2,
    )

-- What a `WriteWireFrame` that returned success sent, a `ReadWireFrame` over an open connection that
-- hands it over before its deadlines, in whatever fragments, returns as the same frame; it takes
-- nothing from the stream but the frame, and leaves the connection open.
pub read_wire_frame-write_wire_frame :
    (wstarts rstarts : ℕ × ℕ) (answer : ShutdownAnswer) (limits : CodecLimits)
    (header : FrameHeader) (payload : List ℕ) (wlater : List WriteAttempt)
    (rlater mid rest : List ReadAttempt) (writer reader : TcpConnection) {sent : List ℕ}
    {wrest : List WriteAttempt} {d : TcpConnection}
    → header.request_id < u64_mod
    → is_open writer ≡ true
    → write_wire_frame wstarts limits header payload wlater writer ≡ some ((ok, sent, wrest), d)
    → is_open reader ≡ true
    → Delivers
        (make_deadline (count reader.options.read_timeout) rstarts.0)
        true
        rlater
        (take header_bytes sent)
        mid
    → Delivers
        (make_deadline (count reader.options.read_timeout) rstarts.1)
        true
        mid
        (drop header_bytes sent)
        rest
    → read_wire_frame true answer rstarts limits rlater reader
      ≡ some (value (record { header = header; payload = payload }), rest, reader)
read_wire_frame-write_wire_frame wstarts rstarts answer limits header payload wlater rlater mid rest
      writer reader {sent} {wrest} {d} r wo w ro d1 d2 =
    let (n, (encoded, e, len, s)) =
      write_wire_frame_sent wstarts limits header payload wlater writer {sent = sent} {rest = wrest}
        {d = d} wo w in
    let front : take header_bytes sent ≡ encoded =
      subst (λ k. take k sent ≡ encoded) len (rw s (take_front encoded payload)) in
    let back : drop header_bytes sent ≡ payload =
      subst (λ k. drop k sent ≡ payload) len (rw s (drop_front encoded payload)) in
    read_frame_delivered rstarts answer limits header encoded payload rlater mid rest reader r e n
      ro
      (subst
        (λ l.
          Delivers (make_deadline (count reader.options.read_timeout) rstarts.0) true rlater l mid)
        front d1)
      (subst
        (λ l.
          Delivers (make_deadline (count reader.options.read_timeout) rstarts.1) true mid l rest)
        back d2)
