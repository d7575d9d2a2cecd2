-- ===== src/Transport/Connection/Reads.antt =====
-- `ReadExact` puts a message together from its fragments.
use tide_pool.Transport.Poll.{PollRound, poll_ready}
use tide_pool.Api.Status.{Status, ok}
use tide_pool.Transport.Deadline.{make_deadline, expired}
use tide_pool.Transport.Connection.{
  TcpConnection, after_checks, count, is_open, read_exact, Received, eof, read_step, recv_failed,
  Moved, after_bytes, after_wait, ReadAttempt, chunk, got, read_loop, recv_blocks, recv_interrupted,
}
use tide_pool.Prelude.{
  ◌≢◌, if_lem, ◌==◌, Option, none, ◌≤◌, length-append, Bool, List, [], arith, false, length, not,
  refl, some, true, ℕ, ◌&&◌, ◌++◌, ◌-◌, ◌∷◌, ◌≡◌,
}

-- The script hands over the bytes, in fragments between interruptions and waits, before the deadline;
-- `rest` is what is left of it. The first attempt has no look at the clock.
pub data Delivers (expires_at : ℕ)
    : Bool → List ReadAttempt → List ℕ → List ReadAttempt → Type 0 where
  delivered : {first : Bool} {rest : List ReadAttempt} → Delivers expires_at first rest [] rest
  fragment :
      {first : Bool} {later rest : List ReadAttempt} {b : ℕ} {piece more : List ℕ} (a : ReadAttempt)
      → not first && expired expires_at a.now ≡ false
      → a.recv (chunk (length (b ∷ piece ++ more))) ≡ got (b ∷ piece)
      → Delivers expires_at false later more rest
      → Delivers expires_at first (a ∷ later) (b ∷ piece ++ more) rest
  interrupted :
      {first : Bool} {later rest : List ReadAttempt} {b : ℕ} {more : List ℕ} (a : ReadAttempt)
      → not first && expired expires_at a.now ≡ false
      → a.recv (chunk (length (b ∷ more))) ≡ recv_interrupted
      → Delivers expires_at false later (b ∷ more) rest
      → Delivers expires_at first (a ∷ later) (b ∷ more) rest
  waited :
      {first : Bool} {later rest : List ReadAttempt} {b : ℕ} {more : List ℕ}
      {rounds : List PollRound} (a : ReadAttempt)
      → not first && expired expires_at a.now ≡ false
      → a.recv (chunk (length (b ∷ more))) ≡ recv_blocks rounds
      → poll_ready true false expires_at rounds ≡ some ok
      → Delivers expires_at false later (b ∷ more) rest
      → Delivers expires_at first (a ∷ later) (b ∷ more) rest

read_loop_done :
    (expires_at : ℕ) (first : Bool) (later : List ReadAttempt)
    → read_loop expires_at first later 0 ≡ some (ok, [], later)
unfolding read_loop
read_loop_done expires_at first [] = refl
read_loop_done expires_at first (a ∷ later) = refl

minus_length : (piece more : List ℕ) → length (piece ++ more) - length piece ≡ length more
minus_length piece more = ground (arith, length-append piece more)

pub read_loop_delivered :
    (expires_at : ℕ) (first : Bool) (later : List ReadAttempt) (bytes : List ℕ)
    (rest : List ReadAttempt)
    → Delivers expires_at first later bytes rest
    → read_loop expires_at first later (length bytes) ≡ some (ok, bytes, rest)
unfolding read_loop
read_loop_delivered expires_at first later bytes rest delivered =
    read_loop_done expires_at first later
read_loop_delivered expires_at first (a ∷ later) bytes rest
      (fragment {b = b} {piece = piece} {more = more} _ t e d) =
    rw (t, e, minus_length (b ∷ piece) more, read_loop_delivered expires_at false later more rest d)
      (ground arith)
read_loop_delivered expires_at first (a ∷ later) bytes rest (interrupted _ t e d) =
    rw (t, e, read_loop_delivered expires_at false later bytes rest d) (ground arith)
read_loop_delivered expires_at first (a ∷ later) bytes rest (waited _ t e p d) =
    rw (t, e, p, read_loop_delivered expires_at false later bytes rest d) (ground arith)

-- The system hands out no more bytes than it is asked for.
abbrev pub IsBounded : List ReadAttempt → Type 0
IsBounded [] = Unit
IsBounded (a ∷ later) =
    ((n : ℕ) (bytes : List ℕ) → a.recv n ≡ got bytes → length bytes ≤ n) × IsBounded later

-- What a loop has obtained of `n` bytes: no more than these, and all of them where it ends well.
abbrev pub Reads : ℕ → Option (Moved ReadAttempt) → Type 0
Reads n none = Unit {0}
Reads n (some (s, bytes, rest)) = (length bytes ≤ n) × (s ≡ ok → length bytes ≡ n)

Reads-after_bytes :
    (n : ℕ) (bytes : List ℕ) (o : Option (Moved ReadAttempt))
    → length bytes ≤ n
    → Reads (n - length bytes) o
    → Reads n (after_bytes bytes o)
Reads-after_bytes n bytes none h r = tt
Reads-after_bytes n bytes (some (s, more, rest)) h r = ground (arith, length-append bytes more)

Reads-after_wait :
    (n : ℕ) (o : Option Status) (later : List ReadAttempt) (k : Option (Moved ReadAttempt))
    → Reads n k
    → Reads n (after_wait o later k)
Reads-after_wait n none later k r = tt
Reads-after_wait n (some ok) later k r = r
Reads-after_wait n (some s) later k r = (omega arith, cc)

Reads-read_step :
    (expires_at : ℕ) (later : List ReadAttempt) (n : ℕ) (loop : ℕ → Option (Moved ReadAttempt))
    (r : Received)
    → ((bytes : List ℕ) → r ≡ got bytes → length bytes ≤ n)
    → ((m : ℕ) → Reads m (loop m))
    → Reads n (read_step expires_at later n loop r)
Reads-read_step expires_at later n loop (got bytes) h k =
    Reads-after_bytes n bytes (loop (n - length bytes)) (h bytes refl) (k (n - length bytes))
Reads-read_step expires_at later n loop eof h k = (omega arith, cc)
Reads-read_step expires_at later n loop recv_failed h k = (omega arith, cc)
Reads-read_step expires_at later n loop recv_interrupted h k = k n
Reads-read_step expires_at later n loop (recv_blocks rounds) h k =
    Reads-after_wait n (poll_ready true false expires_at rounds) later (loop n) (k n)

pub read_loop-Reads :
    (expires_at : ℕ) (first : Bool) (later : List ReadAttempt) (n : ℕ)
    → IsBounded later
    → Reads n (read_loop expires_at first later n)
unfolding read_loop
read_loop-Reads expires_at first [] n h =
    if_lem (Reads n) (n == 0) _ _ (λ e. (omega arith, λ _. ground arith)) (λ _. tt)
read_loop-Reads expires_at first (a ∷ later) n h =
    if_lem (Reads n) (n == 0) _ _ (λ e. (omega arith, λ _. ground arith))
      λ _.
        if_lem (Reads n) (not first && expired expires_at a.now) _ _ (λ _. (omega arith, cc))
          λ _.
            Reads-read_step expires_at later n (read_loop expires_at false later) (a.recv (chunk n))
              (λ bytes e. ground (arith, h.0 (chunk n) bytes e))
              (λ m. read_loop-Reads expires_at false later m h.1)

-- An open connection whose socket hands over the bytes, in whatever fragments, before the read
-- deadline: `ReadExact` returns just these bytes, with success, and leaves the rest of the stream.
pub read_exact_delivered :
    (now : ℕ) (later : List ReadAttempt) (bytes : List ℕ) (rest : List ReadAttempt)
    (c : TcpConnection)
    → is_open c ≡ true
    → Delivers (make_deadline (count c.options.read_timeout) now) true later bytes rest
    → length bytes ≢ 0
    → read_exact false now later (length bytes) c ≡ some ((ok, bytes, rest), c)
unfolding read_exact after_checks is_open
read_exact_delivered now later bytes rest c o d z =
    let expires = make_deadline (count c.options.read_timeout) now in
    ground (arith, read_loop_delivered expires true later bytes rest d)
