-- ===== src/Tests/Transport.antt =====
-- The connection, its deadlines and its framing at concrete inputs.
use tide_pool.Protocol.BigEndian.{put_u16, put_u32, put_u64}
use tide_pool.Transport.Framing.RoundTrip.{read_wire_frame-write_wire_frame}
use tide_pool.Transport.Connect.Sockets.{Settled, connect-Settled}
use tide_pool.Transport.Connection.Reads.{Delivers, read_exact_delivered}
use tide_pool.Transport.Deadline.{
  expired, int_max, make_deadline, ns_per_ms, poll_timeout_milliseconds,
  poll_timeout_milliseconds_lem,
}
use tide_pool.Transport.Framing.{read_wire_frame, write_payload, write_wire_frame}
use tide_pool.Transport.Connection.{
  ReadAttempt, ShutdownAnswer, TcpConnection, TcpConnectionOptions, WriteAttempt, after_checks,
  close, got, is_open, move_assign, pos, read_exact, recv_interrupted, sent, shut_down, shutdown,
  write_exact, write_loop,
}
use tide_pool.Transport.Connection.Returns.{read_exact_returns}
use tide_pool.Prelude.{
  Bool, List, [], arith, false, length, none, refl, some, subst, suc, take, true, zero, ℕ, ◌*◌,
  ◌++◌, ◌+◌, ◌<◌, ◌↔◌, ◌∷◌, ◌≡◌, ◌≢◌, ◌≤◌,
}
use tide_pool.Transport.Connection.State.{
  After, Ends, IsConsistent, ReadAs, WrittenOf, connection-IsConsistent, read_exact_end,
  write_exact_end,
}
use tide_pool.Protocol.Header.{
  FrameHeader, default_limits, encode_header, header_layout, kind_request, op_get,
  validate_header_fields, wire_ok,
}
use tide_pool.Api.Status.{ok, value}
use tide_pool.Transport.Connect.{
  Candidate, Connecting, Fcntl, connected, on_socket, refused, connect,
}
use tide_pool.Transport.Connection.Reads.{Delivers}
use tide_pool.Transport.Connection.Returns.{Passes}
use mathlib.Core.List.{append-nil}

abbrev options_100 : TcpConnectionOptions
options_100 = record { connect_timeout = pos 100; read_timeout = pos 100; write_timeout = pos 100 }

abbrev conn : TcpConnection
conn = on_socket 5 options_100

conn-IsConsistent : IsConsistent conn
conn-IsConsistent = record { shut = cc; gone = λ e. absurd cc }

poll_timeout_milliseconds_lem_example :
    (poll_timeout_milliseconds 5000000 1500000 ≤ int_max)
    × ((poll_timeout_milliseconds 5000000 1500000 ≡ 0) ↔ (expired 5000000 1500000 ≡ true))
    × (1500000 ≤ 5000000
        → poll_timeout_milliseconds 5000000 1500000 < int_max
        → (5000000 ≤ 1500000 + poll_timeout_milliseconds 5000000 1500000 * ns_per_ms)
          × (1500000 + poll_timeout_milliseconds 5000000 1500000 * ns_per_ms < 5000000 + ns_per_ms))
poll_timeout_milliseconds_lem_example = poll_timeout_milliseconds_lem 5000000 1500000

-- An attempt that receives those bytes, or as many of them as were asked for.
abbrev receives : List ℕ → ReadAttempt
receives bytes = record { now = 7; recv = λ n. got (take n bytes) }

length-take : (n : ℕ) (bytes : List ℕ) → length (take n bytes) ≤ n
length-take zero bytes = omega arith
length-take (suc n) [] = omega arith
length-take (suc n) (b ∷ bytes) = omega (arith, length-take n bytes)

receives-bounded :
    (l : List ℕ) (n : ℕ) (bytes : List ℕ) → (receives l).recv n ≡ got bytes → length bytes ≤ n
receives-bounded l n bytes e = ground (arith, length-take n l)

abbrev fragments : List ReadAttempt
fragments = receives (1 ∷ []) ∷ receives (2 ∷ 3 ∷ []) ∷ []

read_exact_delivered_example :
    read_exact false 0 fragments 3 conn ≡ some ((ok, 1 ∷ 2 ∷ 3 ∷ [], []), conn)
unfolding make_deadline expired is_open
read_exact_delivered_example =
    read_exact_delivered 0 fragments (1 ∷ 2 ∷ 3 ∷ []) [] conn refl
      (Delivers.fragment {b = 1} {piece = []} {more = 2 ∷ 3 ∷ []} (receives (1 ∷ [])) refl refl (
        Delivers.fragment {b = 2} {piece = 3 ∷ []} {more = []} (receives (2 ∷ 3 ∷ [])) refl refl
          Delivers.delivered))
      (omega arith)

read_exact_end_example : Ends (ReadAs 3) conn (read_exact false 0 fragments 3 conn)
unfolding is_open
read_exact_end_example =
    read_exact_end 0 fragments 3 conn refl (omega arith)
      (receives-bounded (1 ∷ []), (receives-bounded (2 ∷ 3 ∷ []), tt))

abbrev sends : WriteAttempt
sends = record { now = 7; send = λ n. sent n }

write_exact_end_example :
    Ends (WrittenOf (1 ∷ 2 ∷ [])) conn (write_exact false 0 (sends ∷ []) (1 ∷ 2 ∷ []) conn)
unfolding is_open
write_exact_end_example = write_exact_end 0 (sends ∷ []) (1 ∷ 2 ∷ []) conn refl (omega arith)

connection-IsConsistent_example :
    ((answer : ShutdownAnswer) → IsConsistent (shutdown answer conn).1)
    × IsConsistent (close conn).1
    × (IsConsistent (move_assign conn conn).1 × IsConsistent (move_assign conn conn).2)
    × ((is_null : Bool) (now : ℕ) (later : List ReadAttempt) (n : ℕ)
        → After IsConsistent (read_exact is_null now later n conn))
    × ((is_null : Bool) (now : ℕ) (later : List WriteAttempt) (source : List ℕ)
        → After IsConsistent (write_exact is_null now later source conn))
connection-IsConsistent_example =
    connection-IsConsistent conn conn conn-IsConsistent conn-IsConsistent

abbrev waits : ReadAttempt
waits = record { now = 7; recv = λ n. recv_interrupted }

abbrev late : ReadAttempt
late = record { now = 100000001; recv = λ n. recv_interrupted }

read_exact_returns_example : read_exact false 0 (waits ∷ waits ∷ late ∷ []) 3 conn ≢ none
unfolding make_deadline expired
read_exact_returns_example =
    read_exact_returns false 0 waits (waits ∷ late ∷ []) 3 conn (λ m. tt)
      (Passes.before waits (λ m. tt) (Passes.passed late refl))

abbrev fcntl_ok : Fcntl
fcntl_ok = record {
  is_nonblock = some true;
  set_nonblock = true;
  is_cloexec = some true;
  set_cloexec = true;
}

abbrev candidate : ℕ → Connecting → Candidate
candidate fd answer = record {
  now = 7;
  socket = some fd;
  fcntl = fcntl_ok;
  connect = answer;
  waits = [];
  socket_error = none;
}

connect-Settled_example : Settled (
    connect (104 ∷ []) 80 options_100 (some (candidate 3 refused ∷ candidate 4 connected ∷ [])) 0 9)
connect-Settled_example =
    connect-Settled (104 ∷ []) 80 options_100
      (some (candidate 3 refused ∷ candidate 4 connected ∷ [])) 0 9

abbrev key_payload : List ℕ
key_payload = 1 ∷ 2 ∷ 3 ∷ 4 ∷ 5 ∷ 6 ∷ 7 ∷ 8 ∷ 9 ∷ 10 ∷ 11 ∷ 12 ∷ 13 ∷ 14 ∷ 15 ∷ 16 ∷ []

abbrev get_header : FrameHeader
get_header = record {
  kind = kind_request;
  opcode = op_get;
  status = wire_ok;
  flags = 0;
  request_id = 9;
  payload_bytes = 16;
}

abbrev whole : List ℕ → ReadAttempt
whole bytes = record { now = 7; recv = λ n. got bytes }

in_one :
    (expires_at : ℕ) (bytes : List ℕ) (rest : List ReadAttempt)
    → length bytes ≢ 0
    → Delivers expires_at true (whole bytes ∷ rest) bytes rest
in_one expires_at [] rest h = absurd (h refl)
in_one expires_at (b ∷ bytes) rest h =
    subst (λ l. Delivers expires_at true (whole (b ∷ bytes) ∷ rest) l rest) (append-nil (b ∷ bytes))
      (Delivers.fragment {b = b} {piece = bytes} {more = []} (whole (b ∷ bytes)) refl refl
        Delivers.delivered)

read_wire_frame-write_wire_frame_example :
    read_wire_frame true shut_down
      (0, 0)
      default_limits
      (whole (header_layout get_header) ∷ whole key_payload ∷ [])
      conn
    ≡ some (value (record { header = get_header; payload = key_payload }), [], conn)
unfolding write_wire_frame write_payload write_exact after_checks write_loop make_deadline
    encode_header header_layout validate_header_fields expired is_open put_u16 put_u32 put_u64
read_wire_frame-write_wire_frame_example =
    read_wire_frame-write_wire_frame (0, 0) (0, 0) shut_down default_limits get_header key_payload
      (sends ∷ sends ∷ []) (whole (header_layout get_header) ∷ whole key_payload ∷ [])
      (whole key_payload ∷ []) [] conn conn {sent = header_layout get_header ++ key_payload}
      {wrest = []} {d = conn} (omega arith) refl refl refl
      (in_one _ (header_layout get_header) (whole key_payload ∷ []) (omega arith))
      (in_one _ key_payload [] (omega arith))
