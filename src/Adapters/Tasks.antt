-- ===== src/Adapters/Tasks.antt =====
-- Reasoning about tasks: what holds of the tables after a task if it held before.
use backend_challenge.Base.{Bool, true, false, if◌then◌else◌}
use backend_challenge.Domain.Wallet.{Time}
use backend_challenge.Postgres.{Runtime, Db, Action, World}
use backend_challenge.Observability.{Metrics}
use backend_challenge.Adapters.Machine.{
  Machine, Task, done, run, ◌>>=◌, observe_by, time_now, time_since,
}

-- The task keeps what holds of the tables.
abbrev pub TaskKeeps : {A : Type 0} → (Db → Type 0) → Task A → Type 0
TaskKeeps P task = (m : Machine) → P m.world.db → P (task m).1.world.db

-- The action keeps what holds of the tables.
abbrev pub ActionKeeps : {A : Type 0} → (Db → Type 0) → Action A → Type 0
ActionKeeps P action = (w : World) → P w.db → P (action w).1.db

module _ (P : Db → Type 0) where
  pub done-Keeps : {A : Type 0} (a : A) → TaskKeeps P (done a)
  done-Keeps a m h = h

  pub run-Keeps : {A : Type 0} (action : Action A) → ActionKeeps P action → TaskKeeps P (run action)
  run-Keeps action keeps m h = keeps m.world h

  pub bind-Keeps :
      {A B : Type 0} (task : Task A) (f : A → Task B)
      → TaskKeeps P task
      → ((a : A) → TaskKeeps P (f a))
      → TaskKeeps P (task >>= f)
  bind-Keeps task f keeps next m h = next (task m).0 (task m).1 (keeps m h)

  pub observe_by-Keeps : (change : Metrics → Metrics) → TaskKeeps P (observe_by change)
  observe_by-Keeps change m h = h

  pub time_now-Keeps : (rt : Runtime) → TaskKeeps P (time_now rt)
  unfolding time_now
  time_now-Keeps rt m h = h

  pub time_since-Keeps : (rt : Runtime) (started : Time) → TaskKeeps P (time_since rt started)
  unfolding time_since
  time_since-Keeps rt started m h = h

  pub if-Keeps :
      {A : Type 0} (b : Bool) (task other : Task A)
      → TaskKeeps P task
      → TaskKeeps P other
      → TaskKeeps P (if b then task else other)
  if-Keeps true task other h k = h
  if-Keeps false task other h k = k
