-- ===== src/Workers/Loop.antt =====
-- The loop of a worker (internal/infrastructure/workers): while its context runs, a turn after the
-- other. The timer's `select` ends the loop on a cancelled context, as the test at its head does.
use backend_challenge.Base.{ℕ, zero, suc, Bool, true, false}
use backend_challenge.Adapters.Machine.{Task, Broker, done, is_cancelled, ◌>>=◌}

-- How a turn ends: the worker returns, goes on at once, or waits for the poll interval.
pub data Turn : Type 0 where
  stopped again rested : Turn

-- The loop behind a turn.
unfoldable pub after_turn : Task Bool → Turn → Task Bool
after_turn rest stopped = done true
after_turn rest again = rest
after_turn rest rested = rest

unfoldable pub while_running : Task Turn → Task Bool → Bool → Task Bool
unfolding after_turn
while_running turn rest true = done true
while_running turn rest false = do ended ← turn; after_turn rest ended

-- What the worker has done after so many turns, and whether it has returned.
unfoldable pub work : Broker → Task Turn → ℕ → Task Bool
unfolding while_running
work broker turn zero = done false
work broker turn (suc turns) =
    let rest = work broker turn turns in
    do cancelled ← is_cancelled broker; while_running turn rest cancelled
