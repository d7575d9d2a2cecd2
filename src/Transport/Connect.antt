-- ===== src/Transport/Connect.antt =====
-- Opening a connection: `Connect`, `AdoptConnectedSocket` and what they use of
-- src/transport/tcp/tcp_connection.cpp. The resolver and the system are scripts: a candidate address
-- carries the answers of the calls that are made for it.
pub mod Sockets
use mathlib.Core.Option
use tide_pool.Transport.Poll.{PollRound, poll_ready}
use tide_pool.Api.Status.{
  Result, Status, failure, invalid_argument, is_ok, network_error, ok, unavailable, value,
}
use tide_pool.Transport.Deadline.{expired, make_deadline}
use tide_pool.Protocol.Message.{◌then_check◌}
use tide_pool.Prelude.{
  Bool, List, Option, [], false, if◌then◌else◌, length, none, not, some, true, ℕ, ◌&&◌, ◌++◌, ◌==◌,
  ◌∷◌, ◌≡◌,
}
use tide_pool.Transport.Connection.{TcpConnection, TcpConnectionOptions, validate_options, count}

-- The answers of the four `fcntl` of `ConfigureSocket`: the flags that are set already, or `none`
-- for a failure, and whether setting the flag succeeds.
pub record Fcntl : Type 0 where
  pub is_nonblock : Option Bool
  pub set_nonblock : Bool
  pub is_cloexec : Option Bool
  pub set_cloexec : Bool

unfoldable pub configure_flag : Option Bool → Bool → Status
configure_flag none can_set = network_error
configure_flag (some is_set) can_set = if not is_set && not can_set then network_error else ok

unfoldable pub configure_socket : Fcntl → Status
unfolding configure_flag
configure_socket f =
    configure_flag f.is_nonblock f.set_nonblock then_check configure_flag f.is_cloexec f.set_cloexec

-- The answers of `getsockopt(SO_TYPE)`, as whether the type is `SOCK_STREAM`, and of `getpeername`.
unfoldable pub validate_connected_stream_socket : Option Bool → Bool → Status
validate_connected_stream_socket none has_peer = invalid_argument
validate_connected_stream_socket (some is_stream) has_peer =
    if not is_stream then invalid_argument else if not has_peer then invalid_argument else ok

-- The answers of `connect`; the four that are no failure yet are `pending`.
pub data Connecting : Type 0 where
  connected pending refused : Connecting

pub record Candidate : Type 0 where
  pub now : ℕ
  pub socket : Option ℕ
  pub fcntl : Fcntl
  pub connect : Connecting
  pub waits : List PollRound
  -- `getsockopt(SO_ERROR)`: `none` for a failure of the call.
  pub socket_error : Option ℕ

-- What one candidate comes to: the next one is tried, `Connect` ends, or its socket is connected.
pub data Tried : Type 0 where
  next : Tried
  ended : Status → Tried
  success : Tried

unfoldable pub check_socket_error : Option ℕ → Tried
check_socket_error none = next
check_socket_error (some e) = if e == 0 then success else next

-- After the wait for `POLLOUT`.
unfoldable pub check_ready : Option ℕ → Status → Tried
unfolding check_socket_error
check_ready socket_error ok = check_socket_error socket_error
check_ready socket_error unavailable = ended unavailable
check_ready socket_error s = next

-- A candidate whose socket exists.
unfoldable pub try_candidate : ℕ → Candidate → Option Tried
unfolding configure_socket check_ready
try_candidate expires_at a =
    if not (is_ok (configure_socket a.fcntl)) then some next else elim a.connect [
      | connected ↦ some success
      | refused ↦ some next
      | pending ↦ Option.map (check_ready a.socket_error) (poll_ready false true expires_at a.waits)
    ]

-- The result, with the sockets that were opened and those that were closed, by `ScopedFd`.
pub record Attempted : Type 0 where
  pub result : Result ℕ
  pub opened : List ℕ
  pub closed : List ℕ

unfoldable pub opened_and_closed : ℕ → Attempted → Attempted
opened_and_closed fd r = record r { opened = fd ∷ r.opened; closed = fd ∷ r.closed }

-- How the loop goes on from a candidate with that socket.
unfoldable pub after_try : ℕ → Option Tried → Option Attempted → Option Attempted
unfolding opened_and_closed
after_try fd none rest = none
after_try fd (some next) rest = Option.map (opened_and_closed fd) rest
after_try fd (some (ended s)) rest =
    some (record { result = failure s; opened = fd ∷ []; closed = fd ∷ [] })
after_try fd (some success) rest =
    some (record { result = value fd; opened = fd ∷ []; closed = [] })

-- The loop over the candidates; `last` is the clock after the last one.
unfoldable pub connect_loop : ℕ → ℕ → List Candidate → Option Attempted
unfolding after_try try_candidate
connect_loop expires_at last [] = some (record {
  result = failure (if expired expires_at last then unavailable else network_error);
  opened = [];
  closed = [];
})
connect_loop expires_at last (a ∷ candidates) =
    if expired expires_at a.now
    then some (record { result = failure unavailable; opened = []; closed = [] })
    else elim a.socket [
      | none ↦ connect_loop expires_at last candidates
      | some fd ↦
          after_try fd (try_candidate expires_at a) (connect_loop expires_at last candidates)
    ]

-- A new connection on a socket.
abbrev pub on_socket : ℕ → TcpConnectionOptions → TcpConnection
on_socket fd options = record {
  socket_fd = some fd;
  options = options;
  broken = false;
  shutdown_called = false;
}

-- `Connect`, where `addresses` is the answer of the resolver. Its deadline is set at `now`.
unfoldable pub connect :
    List ℕ → ℕ → TcpConnectionOptions → Option (List Candidate) → ℕ → ℕ → Option Attempted
unfolding connect_loop make_deadline
connect host port options addresses now last =
    if length host == 0
    then some (record { result = failure invalid_argument; opened = []; closed = [] })
    else if port == 0
    then some (record { result = failure invalid_argument; opened = []; closed = [] })
    else if not (is_ok (validate_options options))
    then some (record { result = failure (validate_options options); opened = []; closed = [] })
    else elim addresses [
      | none ↦ some (record { result = failure network_error; opened = []; closed = [] })
      | some candidates ↦
          connect_loop (make_deadline (count options.connect_timeout) now) last candidates
    ]

-- `AdoptConnectedSocket`: `none` is a negative descriptor. With the result, the descriptor that was
-- closed.
unfoldable pub adopt_connected_socket :
    Option ℕ → TcpConnectionOptions → Option Bool → Bool → Fcntl → Result TcpConnection × Option ℕ
unfolding configure_socket
adopt_connected_socket none options type has_peer fcntl = (failure invalid_argument, none)
adopt_connected_socket (some fd) options type has_peer fcntl =
    elim (validate_options options
      then_check (validate_connected_stream_socket type has_peer
          then_check configure_socket fcntl)) [
            | ok ↦ (value (on_socket fd options), none)
            | s ↦ (failure s, some fd)
          ]
