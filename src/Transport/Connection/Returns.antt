-- ===== src/Transport/Connection/Returns.antt =====
-- `ReadExact` returns once its deadline has passed.
use tide_pool.Transport.Poll.{poll_ready}
use tide_pool.Api.Status.{Status, ok}
use tide_pool.Transport.Deadline.{expired, make_deadline}
use tide_pool.Transport.Connection.{
  Moved, ReadAttempt, Received, TcpConnection, after_bytes, after_checks, after_wait, chunk, count,
  eof, got, read_exact, read_loop, read_step, recv_blocks, recv_failed, recv_interrupted,
}
use tide_pool.Prelude.{
  [], Bool, List, Option, arith, false, if_lem, length, none, refl, some, true, ℕ, ◌-◌, ◌==◌, ◌∷◌,
  ◌≡◌, ◌≢◌,
}

-- A wait that an answer asks for comes to an end.
abbrev pub WaitEnds : ℕ → Received → Type 0
WaitEnds expires_at (recv_blocks rounds) = poll_ready true false expires_at rounds ≢ none
WaitEnds expires_at (got bytes) = Unit {0}
WaitEnds expires_at eof = Unit {0}
WaitEnds expires_at recv_failed = Unit {0}
WaitEnds expires_at recv_interrupted = Unit {0}

-- The clock passes the deadline in the script, and every wait before that ends.
pub data Passes (expires_at : ℕ) : List ReadAttempt → Type 0 where
  passed :
      {later : List ReadAttempt} (a : ReadAttempt)
      → expired expires_at a.now ≡ true
      → Passes expires_at (a ∷ later)
  before :
      {later : List ReadAttempt} (a : ReadAttempt)
      → ((n : ℕ) → WaitEnds expires_at (a.recv n))
      → Passes expires_at later
      → Passes expires_at (a ∷ later)

after_bytes-some :
    {A : Type 0} (bytes : List ℕ) (o : Option (Moved A)) → o ≢ none → after_bytes bytes o ≢ none
after_bytes-some bytes none h = absurd (h refl)
after_bytes-some bytes (some (s, more, rest)) h = λ e. cc

after_wait-some :
    {A : Type 0} (o : Option Status) (later : List A) (k : Option (Moved A))
    → o ≢ none
    → k ≢ none
    → after_wait o later k ≢ none
after_wait-some none later k h g = absurd (h refl)
after_wait-some (some ok) later k h g = g
after_wait-some (some s) later k h g = λ e. cc

read_step-some :
    (expires_at : ℕ) (later : List ReadAttempt) (n : ℕ) (loop : ℕ → Option (Moved ReadAttempt))
    (r : Received)
    → WaitEnds expires_at r
    → ((m : ℕ) → loop m ≢ none)
    → read_step expires_at later n loop r ≢ none
read_step-some expires_at later n loop (got bytes) h k =
    after_bytes-some bytes (loop (n - length bytes)) (k (n - length bytes))
read_step-some expires_at later n loop eof h k = λ e. cc
read_step-some expires_at later n loop recv_failed h k = λ e. cc
read_step-some expires_at later n loop recv_interrupted h k = k n
read_step-some expires_at later n loop (recv_blocks rounds) h k =
    after_wait-some (poll_ready true false expires_at rounds) later (loop n) h (k n)

read_loop-some :
    (expires_at : ℕ) (later : List ReadAttempt) (n : ℕ)
    → Passes expires_at later
    → read_loop expires_at false later n ≢ none
unfolding read_loop
read_loop-some expires_at [] n p = elim p [ ]
read_loop-some expires_at (a ∷ later) n (passed _ e) = ground arith
read_loop-some expires_at (a ∷ later) n (before _ h p) =
    if_lem (λ o. o ≢ none) (n == 0) _ _ (λ _ e. cc)
      λ _.
        if_lem (λ o. o ≢ none) (expired expires_at a.now) _ _ (λ _ e. cc)
          λ _.
            read_step-some expires_at later n (read_loop expires_at false later) (a.recv (chunk n))
              (h (chunk n)) (λ m. read_loop-some expires_at later m p)

-- Where the clock passes the deadline in the script, and every wait before that ends, `ReadExact`
-- returns, whatever the socket answers until then.
pub read_exact_returns :
    (is_null : Bool) (now : ℕ) (a : ReadAttempt) (later : List ReadAttempt) (n : ℕ)
    (c : TcpConnection)
    → ((m : ℕ) → WaitEnds (make_deadline (count c.options.read_timeout) now) (a.recv m))
    → Passes (make_deadline (count c.options.read_timeout) now) later
    → read_exact is_null now (a ∷ later) n c ≢ none
unfolding read_exact after_checks read_loop
read_exact_returns is_null now a later n c h p =
    let expires = make_deadline (count c.options.read_timeout) now in
    let step =
      read_step-some expires later n (read_loop expires false later) (a.recv (chunk n))
        (h (chunk n)) (λ m. read_loop-some expires later m p) in
    ground (arith, step)
