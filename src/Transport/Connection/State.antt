-- ===== src/Transport/Connection/State.antt =====
-- The state of a connection over its operations.
use tide_pool.Transport.Connection.Reads.{IsBounded, Reads, read_loop-Reads}
use tide_pool.Transport.Deadline.{make_deadline}
use tide_pool.Transport.Connection.Writes.{Writes, write_loop-Writes}
use tide_pool.Api.Status.{Status, ok}
use tide_pool.Prelude.{
  if_lem, ◌==◌, Bool, List, length, refl, subst, ◌++◌, ◌≤◌, Option, Option-cases, arith, false, inl,
  inr, none, some, true, ℕ, ◌≡◌, ◌≢◌,
}
use tide_pool.Transport.Connection.{
  after_checks, ReadAttempt, ShutdownAnswer, WriteAttempt, close, count, finish, move, move_assign,
  read_exact, read_loop, shutdown, write_exact, write_loop, Moved, TcpConnection, is_open,
  mark_broken,
}

-- For a socket that is marked broken, `::shutdown` has been called, whatever it answered; and -1 is
-- never taken for an open socket.
pub record IsConsistent (c : TcpConnection) : Type 0 where
  pub shut : (fd : ℕ) → c.socket_fd ≡ some fd → c.broken ≡ true → c.shutdown_called ≡ true
  pub gone : c.socket_fd ≡ none → c.broken ≡ true

mark_broken-IsConsistent : (c : TcpConnection) → IsConsistent c → IsConsistent (mark_broken c)
unfolding mark_broken
mark_broken-IsConsistent c h = elim (Option-cases c.socket_fd) [
  | inl e ↦ record { shut = ground arith; gone = ground arith }
  | inr (fd, e) ↦ record { shut = ground (arith, h.shut fd e); gone = ground arith }
]

is_open-mark_broken : (c : TcpConnection) → is_open (mark_broken c) ≡ false
unfolding mark_broken is_open
is_open-mark_broken c = ground arith

-- How a call on an open connection ends: with success it leaves the connection as it was, with a
-- failure it leaves one that is not open; it keeps what `P` says of the moved bytes.
abbrev pub Ends :
    {A : Type 0}
    → (Status → List ℕ → Type 0)
    → TcpConnection
    → Option (Moved A × TcpConnection)
    → Type 0
Ends P c none = Unit {0}
Ends P c (some ((s, bytes, rest), d)) = P s bytes × (s ≡ ok → d ≡ c) × (s ≢ ok → is_open d ≡ false)

abbrev pub Gives : {A : Type 0} → (Status → List ℕ → Type 0) → Option (Moved A) → Type 0
Gives P none = Unit {0}
Gives P (some (s, bytes, rest)) = P s bytes

Ends-finish :
    {A : Type 0} (P : Status → List ℕ → Type 0) (c : TcpConnection) (o : Option (Moved A))
    → Gives P o
    → Ends P c (finish c o)
Ends-finish P c none h = tt
Ends-finish P c (some (ok, bytes, rest)) h = (h, λ _. refl, λ n. absurd (n refl))
Ends-finish P c (some (s, bytes, rest)) h = (h, λ e. absurd cc, λ _. is_open-mark_broken c)

abbrev pub ReadAs : ℕ → Status → List ℕ → Type 0
ReadAs n s bytes = (length bytes ≤ n) × (s ≡ ok → length bytes ≡ n)

Reads-Gives : (n : ℕ) (o : Option (Moved ReadAttempt)) → Reads n o → Gives (ReadAs n) o
Reads-Gives n none h = tt
Reads-Gives n (some (s, bytes, rest)) h = h

-- A `ReadExact` of one byte or more into a buffer that is not null, on an open connection, over a
-- system that hands out no more bytes than it is asked for: if it returns success it has all the
-- bytes and leaves the connection as it was, and if it returns a failure it leaves a connection that
-- is not open.
pub read_exact_end :
    (now : ℕ) (later : List ReadAttempt) (n : ℕ) (c : TcpConnection)
    → is_open c ≡ true
    → n ≢ 0
    → IsBounded later
    → Ends (ReadAs n) c (read_exact false now later n c)
unfolding read_exact after_checks is_open
read_exact_end now later n c o z b =
    let expires = make_deadline (count c.options.read_timeout) now in
    subst (Ends (ReadAs n) c) (ground arith) (
      Ends-finish (ReadAs n) c (read_loop expires true later n)
        (Reads-Gives n (read_loop expires true later n) (read_loop-Reads expires true later n b)))

abbrev pub WrittenOf : List ℕ → Status → List ℕ → Type 0
WrittenOf source s bytes = ((more : List ℕ) × (source ≡ bytes ++ more)) × (s ≡ ok → bytes ≡ source)

Writes-Gives :
    (source : List ℕ) (o : Option (Moved WriteAttempt))
    → Writes source o
    → Gives (WrittenOf source) o
Writes-Gives source none h = tt
Writes-Gives source (some (s, bytes, rest)) h = h

-- A `WriteExact` of one byte or more from a buffer that is not null, on an open connection: if it
-- returns, it has handed the system the first of its bytes, each once and in order, and all of them
-- if it returns success, which leaves the connection as it was; a failure leaves a connection that is
-- not open.
pub write_exact_end :
    (now : ℕ) (later : List WriteAttempt) (source : List ℕ) (c : TcpConnection)
    → is_open c ≡ true
    → length source ≢ 0
    → Ends (WrittenOf source) c (write_exact false now later source c)
unfolding write_exact after_checks is_open
write_exact_end now later source c o z =
    let expires = make_deadline (count c.options.write_timeout) now in
    subst (Ends (WrittenOf source) c) (ground arith) (
      Ends-finish (WrittenOf source) c (write_loop expires true later source) (
        Writes-Gives source (write_loop expires true later source)
          (write_loop-Writes expires true later source)))

-- What holds of the connection after a call that returns.
abbrev pub After :
    {A : Type 0} → (TcpConnection → Type 0) → Option (Moved A × TcpConnection) → Type 0
After P none = Unit {0}
After P (some (m, d)) = P d

finish-IsConsistent :
    {A : Type 0} (c : TcpConnection) (o : Option (Moved A))
    → IsConsistent c
    → After IsConsistent (finish c o)
finish-IsConsistent c none h = tt
finish-IsConsistent c (some (ok, bytes, rest)) h = h
finish-IsConsistent c (some (s, bytes, rest)) h = mark_broken-IsConsistent c h

after_checks-IsConsistent :
    {A : Type 0} (is_empty is_null : Bool) (c : TcpConnection) (later : List A)
    (run : Option (Moved A))
    → IsConsistent c
    → After IsConsistent (after_checks is_empty is_null c later run)
unfolding after_checks
after_checks-IsConsistent is_empty is_null c later run h =
    if_lem (After IsConsistent) is_empty _ _ (λ _. h)
      λ _.
        if_lem (After IsConsistent) is_null _ _ (λ _. h)
          λ _. elim (Option-cases c.socket_fd) [
            | inl e ↦ rw e h
            | inr (fd, e) ↦
                rw e (
                  if_lem (After IsConsistent) c.broken _ _ (λ _. h)
                    λ _. finish-IsConsistent c run h)
          ]

-- `Shutdown`, `Close`, the moves (for both objects), and a `ReadExact` or `WriteExact` that returns
-- keep a connection consistent, whatever the system answered: `::shutdown` has been called on a
-- socket that is marked broken, and the descriptor -1 is marked broken.
pub connection-IsConsistent :
    (c other : TcpConnection)
    → IsConsistent c
    → IsConsistent other
    → ((answer : ShutdownAnswer) → IsConsistent (shutdown answer c).1)
      × IsConsistent (close c).1
      × (IsConsistent (move_assign c other).1 × IsConsistent (move_assign c other).2)
      × ((is_null : Bool) (now : ℕ) (later : List ReadAttempt) (n : ℕ)
          → After IsConsistent (read_exact is_null now later n c))
      × ((is_null : Bool) (now : ℕ) (later : List WriteAttempt) (source : List ℕ)
          → After IsConsistent (write_exact is_null now later source c))
unfolding shutdown close move_assign move read_exact write_exact
connection-IsConsistent c other h k = (
  λ answer. elim (Option-cases c.socket_fd) [
    | inl e ↦ record { shut = ground arith; gone = ground arith }
    | inr (fd, e) ↦ record { shut = ground (arith, h.shut fd e); gone = ground arith }
  ],
  record { shut = ground arith; gone = ground arith },
  (k, record { shut = ground arith; gone = ground arith }),
  λ is_null now later n. after_checks-IsConsistent (n == 0) is_null c later _ h,
  λ is_null now later source. after_checks-IsConsistent (length source == 0) is_null c later _ h,
)
