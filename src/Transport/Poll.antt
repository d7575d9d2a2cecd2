-- ===== src/Transport/Poll.antt =====
-- `PollReady` of src/transport/tcp/tcp_connection.cpp. The system is a script: each round of the
-- loop finds there what it reads of the clock, of `broken_` and of `poll`. A loop that has used up
-- its script is still waiting, and has no result.
use tide_pool.Transport.Deadline.{poll_timeout_milliseconds}
use tide_pool.Api.Status.{Status, network_error, ok, unavailable}
use tide_pool.Prelude.{Bool, List, Option, [], if◌then◌else◌, none, some, ℕ, ◌&&◌, ◌∷◌}

-- What `poll` reports of the one descriptor: whether `POLLNVAL` is set, one of the requested events,
-- and `POLLERR` or `POLLHUP`.
pub record Events : Type 0 where
  pub invalid : Bool
  pub requested : Bool
  pub error_or_hang_up : Bool

pub data Polled : Type 0 where
  timed_out poll_interrupted poll_failed : Polled
  reported : Events → Polled

pub record PollRound : Type 0 where
  -- Whether another thread has shut the connection down, before and after the poll.
  pub shut_before : Bool
  pub shut_after : Bool
  pub now : ℕ
  -- The answer to a poll with that timeout.
  pub poll : ℕ → Polled

unfoldable pub check_events : Bool → Events → Status
check_events let_caller_inspect e =
    if e.invalid
    then network_error
    else if e.requested
    then ok
    else if let_caller_inspect && e.error_or_hang_up
    then ok
    else network_error

-- `watched` says whether `externally_broken` was given.
unfoldable pub poll_ready : Bool → Bool → ℕ → List PollRound → Option Status
poll_ready watched inspect expires_at [] = none
poll_ready watched inspect expires_at (r ∷ rs) =
    if watched && r.shut_before
    then some unavailable
    else elim (r.poll (poll_timeout_milliseconds expires_at r.now)) [
      | timed_out ↦ some unavailable
      | poll_failed ↦ some network_error
      | poll_interrupted ↦ poll_ready watched inspect expires_at rs
      | reported e ↦
          if watched && r.shut_after then some unavailable else some (check_events inspect e)
    ]
