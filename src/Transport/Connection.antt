-- ===== src/Transport/Connection.antt =====
-- `TcpConnection` of include/tidepool/transport/tcp_connection.h and
-- src/transport/tcp/tcp_connection.cpp: reading, writing and closing. The system is a script of
-- attempts, one for each round of a loop. A `Shutdown` of another thread is seen where the code looks
-- for it, and is otherwise a step after the call.
pub mod Reads
pub mod Writes
pub mod State
pub mod Returns
use tide_pool.Transport.Poll.{PollRound, poll_ready}
use tide_pool.Transport.Deadline.{expired, make_deadline}
use tide_pool.Api.Status.{Status, invalid_argument, network_error, ok, unavailable}
use tide_pool.Prelude.{
  Bool, List, Option, [], drop, false, if◌then◌else◌, length, ltb, none, not, some, take, true, ℕ,
  ◌&&◌, ◌++◌, ◌-◌, ◌==◌, ◌∷◌,
}

-- Options count milliseconds, which may be negative.
pub data ℤ : Type 0 where
  pos negsuc : ℕ → ℤ

pub record TcpConnectionOptions : Type 0 where
  pub connect_timeout : ℤ
  pub read_timeout : ℤ
  pub write_timeout : ℤ

abbrev pub is_negative : ℤ → Bool
is_negative (pos n) = false
is_negative (negsuc n) = true

-- The count of a timeout that was validated.
abbrev pub count : ℤ → ℕ
count (pos n) = n
count (negsuc n) = 0

unfoldable pub validate_options : TcpConnectionOptions → Status
validate_options options =
    if is_negative options.connect_timeout
    then invalid_argument
    else if is_negative options.read_timeout
    then invalid_argument
    else if is_negative options.write_timeout
    then invalid_argument
    else ok

-- `none` is the descriptor -1. `shutdown_called` says that `::shutdown` was
-- called on the socket, whatever it answered.
pub record TcpConnection : Type 0 where
  pub socket_fd : Option ℕ
  pub options : TcpConnectionOptions
  pub broken : Bool
  pub shutdown_called : Bool

unfoldable pub is_open : TcpConnection → Bool
is_open c = elim c.socket_fd [ none ↦ false | some fd ↦ not c.broken ]

unfoldable pub mark_broken : TcpConnection → TcpConnection
mark_broken c = elim c.socket_fd [
  | none ↦ record c { broken = true }
  | some fd ↦ if c.broken then c else record c { broken = true; shutdown_called = true }
]

-- The answers of `shutdown`.
pub data ShutdownAnswer : Type 0 where
  shut_down not_connected shutdown_invalid shutdown_failed : ShutdownAnswer

unfoldable pub shutdown : ShutdownAnswer → TcpConnection → Status × TcpConnection
shutdown answer c = elim c.socket_fd [
  | none ↦ (ok, record c { broken = true })
  | some fd ↦ if c.broken then (ok, c) else (
    elim answer [
      | shut_down ↦ ok
      | not_connected ↦ ok
      | shutdown_invalid ↦ ok
      | shutdown_failed ↦ network_error
    ],
    record c { broken = true; shutdown_called = true },
  )
]

-- `Close`, with the descriptor that it gives back to the system.
unfoldable pub close : TcpConnection → Option ℕ × TcpConnection
close c = (c.socket_fd, record c { broken = true; socket_fd = none })

-- The move constructor: the new connection, and what is left of the old one.
unfoldable pub move : TcpConnection → TcpConnection × TcpConnection
move other = (other, record other { socket_fd = none; broken = true })

-- The move assignment to another object: the descriptor that it closes, and both objects after it.
unfoldable pub move_assign :
    TcpConnection → TcpConnection → Option ℕ × TcpConnection × TcpConnection
unfolding close move
move_assign c other = ((close c).0, (move other).0, (move other).1)

-- `std::numeric_limits<ssize_t>::max()`.
abbrev pub ssize_max : ℕ
ssize_max = 9223372036854775807

abbrev pub chunk : ℕ → ℕ
chunk remaining = if ltb remaining ssize_max then remaining else ssize_max

-- The answers of `recv`; one that would block is followed by the wait for `POLLIN`.
pub data Received : Type 0 where
  got : List ℕ → Received
  eof recv_interrupted recv_failed : Received
  recv_blocks : List PollRound → Received

pub record ReadAttempt : Type 0 where
  pub now : ℕ
  pub recv : ℕ → Received

-- What a loop has moved, with its status and the rest of the script.
abbrev pub Moved : Type 0 → Type 0
Moved Attempt = Status × List ℕ × List Attempt

abbrev pub after_bytes : {A : Type 0} → List ℕ → Option (Moved A) → Option (Moved A)
after_bytes bytes none = none
after_bytes bytes (some (s, more, rest)) = some (s, bytes ++ more, rest)

-- The loop goes on after a wait that ended well.
abbrev pub after_wait : {A : Type 0} → Option Status → List A → Option (Moved A) → Option (Moved A)
after_wait none rest k = none
after_wait (some ok) rest k = k
after_wait (some s) rest k = some (s, [], rest)

-- A round of `ReadExact` by the answer of `recv`; `loop` is the loop with so many bytes to go.
abbrev pub read_step :
    ℕ
    → List ReadAttempt
    → ℕ
    → (ℕ → Option (Moved ReadAttempt))
    → Received
    → Option (Moved ReadAttempt)
read_step expires_at later remaining loop (got bytes) =
    after_bytes bytes (loop (remaining - length bytes))
read_step expires_at later remaining loop eof = some (network_error, [], later)
read_step expires_at later remaining loop recv_failed = some (network_error, [], later)
read_step expires_at later remaining loop recv_interrupted = loop remaining
read_step expires_at later remaining loop (recv_blocks rounds) =
    after_wait (poll_ready true false expires_at rounds) later (loop remaining)

-- The loop of `ReadExact` with that many bytes to go.
unfoldable pub read_loop : ℕ → Bool → List ReadAttempt → ℕ → Option (Moved ReadAttempt)
read_loop expires_at first [] remaining = if remaining == 0 then some (ok, [], []) else none
read_loop expires_at first (a ∷ later) remaining =
    if remaining == 0
    then some (ok, [], a ∷ later)
    else if not first && expired expires_at a.now
    then some (unavailable, [], later)
    else read_step expires_at later remaining (read_loop expires_at false later)
        (a.recv (chunk remaining))

-- Every failure inside of a loop marks the connection broken.
abbrev pub finish :
    {A : Type 0} → TcpConnection → Option (Moved A) → Option (Moved A × TcpConnection)
finish c none = none
finish c (some (ok, bytes, rest)) = some ((ok, bytes, rest), c)
finish c (some (s, bytes, rest)) = some ((s, bytes, rest), mark_broken c)

-- The checks in front of the loop, which are those of `ReadExact` and of `WriteExact`.
unfoldable pub after_checks :
    {A : Type 0}
    → Bool
    → Bool
    → TcpConnection
    → List A
    → Option (Moved A)
    → Option (Moved A × TcpConnection)
after_checks is_empty is_null c later run =
    if is_empty
    then some ((ok, [], later), c)
    else if is_null
    then some ((invalid_argument, [], later), c)
    else elim c.socket_fd [
      | none ↦ some ((unavailable, [], later), c)
      | some fd ↦ if c.broken then some ((unavailable, [], later), c) else finish c run
    ]

-- `ReadExact` of so many bytes, that begins at `now`; `is_null` says whether the output is null.
unfoldable pub read_exact :
    Bool → ℕ → List ReadAttempt → ℕ → TcpConnection → Option (Moved ReadAttempt × TcpConnection)
unfolding read_loop make_deadline after_checks
read_exact is_null now later bytes c =
    after_checks (bytes == 0) is_null c later
      (read_loop (make_deadline (count c.options.read_timeout) now) true later bytes)

-- The answers of `send`; one that would block is followed by the wait for `POLLOUT`.
pub data Sent : Type 0 where
  sent : ℕ → Sent
  no_progress send_interrupted send_failed : Sent
  send_blocks : List PollRound → Sent

pub record WriteAttempt : Type 0 where
  pub now : ℕ
  pub send : ℕ → Sent

-- A round of `WriteExact` by the answer of `send`; `loop` is the loop with those bytes to go.
abbrev pub write_step :
    ℕ
    → List WriteAttempt
    → List ℕ
    → (List ℕ → Option (Moved WriteAttempt))
    → Sent
    → Option (Moved WriteAttempt)
write_step expires_at later source loop (sent n) =
    after_bytes (take n source) (loop (drop n source))
write_step expires_at later source loop no_progress = some (network_error, [], later)
write_step expires_at later source loop send_failed = some (network_error, [], later)
write_step expires_at later source loop send_interrupted = loop source
write_step expires_at later source loop (send_blocks rounds) =
    after_wait (poll_ready true false expires_at rounds) later (loop source)

-- The loop of `WriteExact` with those bytes to go; its bytes are those that the system took.
unfoldable pub write_loop : ℕ → Bool → List WriteAttempt → List ℕ → Option (Moved WriteAttempt)
write_loop expires_at first [] source = if length source == 0 then some (ok, [], []) else none
write_loop expires_at first (a ∷ later) source =
    if length source == 0
    then some (ok, [], a ∷ later)
    else if not first && expired expires_at a.now
    then some (unavailable, [], later)
    else write_step expires_at later source (write_loop expires_at false later)
        (a.send (chunk (length source)))

unfoldable pub write_exact :
    Bool
    → ℕ
    → List WriteAttempt
    → List ℕ
    → TcpConnection
    → Option (Moved WriteAttempt × TcpConnection)
unfolding write_loop make_deadline after_checks
write_exact is_null now later source c =
    after_checks (length source == 0) is_null c later
      (write_loop (make_deadline (count c.options.write_timeout) now) true later source)
