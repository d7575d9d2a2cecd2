-- ===== src/Transport/Connect/Sockets.antt =====
-- No socket is left open by a failed attempt to connect.
use tide_pool.Transport.Connect.{connect}
use tide_pool.Transport.Deadline.{expired}
use tide_pool.Transport.Connection.{TcpConnectionOptions, validate_options}
use tide_pool.Prelude.{
  List, Option, Option-cases, [], ap, if_lem, inl, inr, length, none, not, refl, some, ℕ, ◌++◌,
  ◌==◌, ◌∷◌, ◌≡◌,
}
use tide_pool.Transport.Connect.{
  Attempted, Candidate, Tried, after_try, connect_loop, ended, next, success, try_candidate,
}
use tide_pool.Api.Status.{Result, failure, is_ok, value}

-- The socket of the result is the last that was opened, and every other one was closed, once and in
-- order; without a result every one was.
abbrev pub Ledger : Result ℕ → List ℕ → List ℕ → Type 0
Ledger (value fd) opened closed = opened ≡ closed ++ fd ∷ []
Ledger (failure s) opened closed = opened ≡ closed

abbrev pub Settled : Option Attempted → Type 0
Settled none = Unit {0}
Settled (some r) = Ledger r.result r.opened r.closed

Ledger-cons :
    (fd : ℕ) (r : Result ℕ) (opened closed : List ℕ)
    → Ledger r opened closed
    → Ledger r (fd ∷ opened) (fd ∷ closed)
Ledger-cons fd (value g) opened closed h = ap (λ l. fd ∷ l) h
Ledger-cons fd (failure s) opened closed h = ap (λ l. fd ∷ l) h

Settled-after_try :
    (fd : ℕ) (t : Option Tried) (rest : Option Attempted)
    → Settled rest
    → Settled (after_try fd t rest)
unfolding after_try
Settled-after_try fd none rest h = tt
Settled-after_try fd (some next) none h = tt
Settled-after_try fd (some next) (some r) h = Ledger-cons fd r.result r.opened r.closed h
Settled-after_try fd (some (ended s)) rest h = refl
Settled-after_try fd (some success) rest h = refl

connect_loop-Settled :
    (expires_at last : ℕ) (candidates : List Candidate)
    → Settled (connect_loop expires_at last candidates)
unfolding connect_loop
connect_loop-Settled expires_at last [] = refl
connect_loop-Settled expires_at last (a ∷ candidates) =
    let rest = connect_loop-Settled expires_at last candidates in
    if_lem Settled (expired expires_at a.now) _ _ (λ _. refl)
      λ _. elim (Option-cases a.socket) [
        | inl e ↦ rw e rest
        | inr (fd, e) ↦ rw e (Settled-after_try fd (try_candidate expires_at a) _ rest)
      ]

-- A `Connect` that returns has closed every socket that it opened, once, but for the one of the
-- connection that it returns.
pub connect-Settled :
    (host : List ℕ) (port : ℕ) (options : TcpConnectionOptions)
    (addresses : Option (List Candidate)) (now last : ℕ)
    → Settled (connect host port options addresses now last)
unfolding connect
connect-Settled host port options addresses now last =
    if_lem Settled (length host == 0) _ _ (λ _. refl)
      λ _.
        if_lem Settled (port == 0) _ _ (λ _. refl)
          λ _.
            if_lem Settled (not (is_ok (validate_options options))) _ _ (λ _. refl)
              λ _. elim (Option-cases addresses) [
                | inl e ↦ rw e refl
                | inr (candidates, e) ↦ rw e (connect_loop-Settled _ last candidates)
              ]
