-- ===== src/Daemon/AutoNop.antt =====
-- swayr/src/daemon.rs: the thread of `serve_client_requests` that runs a `Nop` command once no client
-- has sent a command for the delay.
use swayr.Base.{ℕ, suc, ◌+◌, ◌≤◌, Bool, true, false, List, [], ◌∷◌, if◌then◌else◌, arith}

-- What `wait_timeout` returns with: the time is over, a client command was served, or an error.
pub data Wake : Type 0 where
  timed_out notified failed : Wake

-- The variable `inhibit` behind a round of the loop, and whether the round runs a `Nop`.
unfoldable pub round : Bool → Wake → Bool × Bool
round inhibit timed_out = if inhibit then (true, false) else (true, true)
round inhibit notified = (false, false)
round inhibit failed = (inhibit, false)

-- The number of `Nop` commands over some rounds.
unfoldable pub nops : Bool → List Wake → ℕ
unfolding round
nops inhibit [] = 0
nops inhibit (w ∷ l) = let r = round inhibit w in (if r.1 then 1 else 0) + nops r.0 l

abbrev pub notifications : List Wake → ℕ
notifications [] = 0
notifications (notified ∷ l) = suc (notifications l)
notifications (_ ∷ l) = notifications l

nops-le :
    (inhibit : Bool) (l : List Wake) → nops inhibit l ≤ notifications l + (if inhibit then 0 else 1)
unfolding nops
nops-le inhibit [] = omega arith
nops-le true (timed_out ∷ l) = omega (arith, nops-le true l)
nops-le false (timed_out ∷ l) = omega (arith, nops-le true l)
nops-le true (notified ∷ l) = omega (arith, nops-le false l)
nops-le false (notified ∷ l) = omega (arith, nops-le false l)
nops-le true (failed ∷ l) = omega (arith, nops-le true l)
nops-le false (failed ∷ l) = omega (arith, nops-le false l)

-- The thread runs at most one `Nop` before the first client command, and at most one more for each
-- client command, however often its wait times out.
nops-le-notifications : (l : List Wake) → nops false l ≤ notifications l + 1
nops-le-notifications l = nops-le false l
