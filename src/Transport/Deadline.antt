-- ===== src/Transport/Deadline.antt =====
-- The deadlines of src/transport/tcp/tcp_connection.cpp. A time point of the steady clock counts
-- nanoseconds, in 63 bits; a timeout counts milliseconds.
use tide_pool.Prelude.{
  Bool, arith, if◌then◌else◌, leb, ltb, true, ℕ, ◌*◌, ◌+◌, ◌-◌, ◌/◌, ◌<◌, ◌↔◌, ◌≡◌, ◌≤◌,
}

-- `Clock::time_point::max()`.
abbrev pub clock_max : ℕ
clock_max = 9223372036854775807

abbrev pub ns_per_ms : ℕ
ns_per_ms = 1000000

abbrev pub int_max : ℕ
int_max = 2147483647

-- The expiry of a deadline that is set at `now`.
unfoldable pub make_deadline : ℕ → ℕ → ℕ
make_deadline timeout now =
    if leb ((clock_max - now) / ns_per_ms) timeout then clock_max else now + timeout * ns_per_ms

unfoldable pub expired : ℕ → ℕ → Bool
expired expires_at now = leb expires_at now

-- Whole milliseconds, rounded up.
unfoldable pub round_up : ℕ → ℕ
round_up remaining =
    if ltb (remaining / ns_per_ms * ns_per_ms) remaining
    then remaining / ns_per_ms + 1
    else remaining / ns_per_ms

unfoldable pub poll_timeout_milliseconds : ℕ → ℕ → ℕ
unfolding round_up
poll_timeout_milliseconds expires_at now =
    if leb expires_at now
    then 0
    else if ltb int_max (round_up (expires_at - now))
    then int_max
    else round_up (expires_at - now)

-- The timeout of a poll is an `int` that is not negative; it is zero exactly if the deadline has
-- expired; below the cap of `INT_MAX` it does not end before the deadline and ends less than a
-- millisecond after it.
pub poll_timeout_milliseconds_lem :
    (expires_at now : ℕ)
    → (poll_timeout_milliseconds expires_at now ≤ int_max)
      × ((poll_timeout_milliseconds expires_at now ≡ 0) ↔ (expired expires_at now ≡ true))
      × (now ≤ expires_at
          → poll_timeout_milliseconds expires_at now < int_max
          → (expires_at ≤ now + poll_timeout_milliseconds expires_at now * ns_per_ms)
            × (now + poll_timeout_milliseconds expires_at now * ns_per_ms < expires_at + ns_per_ms))
unfolding poll_timeout_milliseconds expired round_up
poll_timeout_milliseconds_lem expires_at now = ground arith

-- A deadline is a time point of the clock, not in the past, and less than a millisecond past the end
-- of the timeout.
pub make_deadline_lem :
    (timeout now : ℕ)
    → now ≤ clock_max
    → (now ≤ make_deadline timeout now)
      × (make_deadline timeout now ≤ clock_max)
      × (make_deadline timeout now < now + timeout * ns_per_ms + ns_per_ms)
unfolding make_deadline
make_deadline_lem timeout now h = ground arith
