-- ===== src/Adapters/Machine.antt =====
-- The state that the adapters share, and their steps: the database, the metrics, and the requests
-- that were sent to the queue, the latest first. Logs are not part of it.
use backend_challenge.Base.{ℕ, ℤ, Bool, Option, none, some, List, ◌∷◌, sub_ℕ}
use backend_challenge.Text.{Text}
use backend_challenge.Errors.{Error, Result, ok, err}
use backend_challenge.Domain.Wallet.{Time}
use backend_challenge.Postgres.{Runtime, World, Action, called}
use backend_challenge.Observability.{Metrics}

-- `DeleteMessage` and `ChangeMessageVisibility` with the receipt handle and the seconds.
pub data QueueCall : Type 0 where
  delete_message : Text → QueueCall
  change_visibility : Text → ℕ → QueueCall

pub record Machine : Type 0 where
  pub world : World
  pub metrics : Metrics
  pub queue : List QueueCall

-- What the queue and the context do, each call by its number: the error of a request, and
-- `ctx.Err() != nil`.
pub record Broker : Type 0 where
  pub fault : ℕ → Option Error
  pub is_cancelled : ℕ → Bool

abbrev pub Task : Type 0 → Type 0
Task A = Machine → A × Machine

module _ {A : Type 0} where
  abbrev pub done : A → Task A
  done a m = (a, m)

  -- A use case, whose error is a value here.
  abbrev pub run : Action A → Task (Result A)
  run action m = let (r, w) = action m.world in (r, record m { world = w })

infixl 5 ◌>>=◌ ◌>>◌
abbrev pub ◌>>=◌ : {A B : Type 0} → Task A → (A → Task B) → Task B
◌>>=◌ task f m = let (a, m') = task m in f a m'

abbrev pub ◌>>◌ : {B : Type 0} → Task (Unit {0}) → Task B → Task B
task >> next = task >>= λ _. next

abbrev pub observe_by : (Metrics → Metrics) → Task (Unit {0})
observe_by change m = (tt, record m { metrics = change m.metrics })

-- `time.Now()` and `time.Since(started)`
unfoldable pub time_now : Runtime → Task Time
time_now rt m = (rt.now m.world.calls, record m { world = called m.world })

unfoldable pub time_since : Runtime → Time → Task ℤ
time_since rt started m =
    (sub_ℕ (rt.now m.world.calls) started, record m { world = called m.world })

unfoldable pub is_cancelled : Broker → Task Bool
is_cancelled broker m = (broker.is_cancelled m.world.calls, record m { world = called m.world })

answer : Option Error → Result (Unit {0})
answer none = ok tt
answer (some e) = err e

-- A request to the queue, which is sent whatever the answer is.
unfoldable pub send : Broker → QueueCall → Task (Result (Unit {0}))
unfolding answer
send broker call m = (
  answer (broker.fault m.world.calls),
  record m { world = called m.world; queue = call ∷ m.queue },
)
