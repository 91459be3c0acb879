-- ===== src/Sched/Scheduler.antt =====
-- internal/sched/sched.go: tick, fire, start and advance. The orchestrator is the interface Starter.
use ghostfleet.Base.{
  ℕ, ◌-◌, ◌*◌, ◌≡◌, Bool, true, false, ◌||◌, not, List, [], ◌∷◌, Option, none, some, ◌==◌, ltb,
  if◌then◌else◌, select,
}
use ghostfleet.Base.Monad.{
  Result, ok, err, busy, precondition, must_be_ready, unknown_action, fail, M,
}
use ghostfleet.Model.Records.{
  Deployment, Run, RunType, Schedule, FireResult, fired, skipped_deleted, skipped_busy,
  deployment_missing, fire_error, deploy, initial_fill, incremental, verify, scale_up, teardown,
  power_on, power_off, other_type, is_deleted, is_deleting, is_ready, minute,
}
use ghostfleet.Model.Timer.{Calendar, next_after}
use ghostfleet.Store.Db.{Db}
use ghostfleet.Store.Runs.{set_run_trigger}
use ghostfleet.Store.Deployments.{get_deployment}
use ghostfleet.Store.Schedules.{advance_schedule, list_due_schedules}
use ghostfleet.Orch.State.{Orch}

-- A call of the orchestrator leaves the schedules and the clock, and brings no failing statement.
pub record IsCalm (o o' : Orch) : Type 0 where
  pub schedules : o'.db.schedules ≡ o.db.schedules
  pub clock : o'.db.clock ≡ o.db.clock
  pub faults : o.db.faults ≡ [] → o'.db.faults ≡ []

-- The slice of the orchestrator that the scheduler needs, with what it relies on.
pub record Starter : Type 0 where
  pub start_fill : Deployment → RunType → M Orch Run
  pub start_power : Deployment → Bool → M Orch Run
  pub start_teardown : Deployment → M Orch Run
  pub start_fill-IsCalm :
      (d : Deployment) (ty : RunType) (o : Orch) → IsCalm o (start_fill d ty o).1
  pub start_power-IsCalm : (d : Deployment) (on : Bool) (o : Orch) → IsCalm o (start_power d on o).1
  pub start_teardown-IsCalm : (d : Deployment) (o : Orch) → IsCalm o (start_teardown d o).1

pub record Scheduler : Type 0 where
  pub orch : Orch
  -- The map busySince, one entry for a schedule.
  pub busy_since : List (ℕ × ℕ)

abbrev pub busy_grace : ℕ
busy_grace = 60 * minute

unfoldable pub since_of : ℕ → List (ℕ × ℕ) → Option ℕ
since_of id [] = none
since_of id ((k, t) ∷ m) = if k == id then some t else since_of id m

abbrev pub forget : ℕ → List (ℕ × ℕ) → List (ℕ × ℕ)
forget id m = select (λ e. not (e.0 == id)) m

module _ (cal : Calendar) (st : Starter) where
  -- The next occurrence, if the schedule goes on.
  abbrev pub next_if : Bool → Schedule → ℕ → Option ℕ
  next_if true sc now = next_after cal sc now
  next_if false sc now = none

  -- A failure of the store is logged.
  unfoldable pub advance : Schedule → ℕ → FireResult → ℕ → Bool → Scheduler → Scheduler
  advance sc now result run_id recur s =
      let moved = advance_schedule sc.id result run_id now (next_if recur sc now) s.orch.db in
      record { orch = record (s.orch) { db = moved.1 }; busy_since = forget sc.id s.busy_since }

  unfoldable pub when_ready : Deployment → RunType → M Orch Run
  when_ready d ty =
      if is_ready d.status then st.start_fill d ty else fail (precondition must_be_ready)

  unfoldable pub start_action : RunType → Deployment → M Orch Run
  unfolding when_ready
  start_action incremental d = when_ready d incremental
  start_action verify d = when_ready d verify
  start_action power_on d = st.start_power d true
  start_action power_off d = st.start_power d false
  start_action teardown d = st.start_teardown d
  start_action deploy d = fail unknown_action
  start_action initial_fill d = fail unknown_action
  start_action scale_up d = fail unknown_action
  start_action (other_type t) d = fail unknown_action

  unfoldable pub start : Schedule → Deployment → M Orch Run
  unfolding start_action
  start sc d = start_action sc.action d

  -- The busy case, by the entry of busySince.
  unfoldable pub still_busy : Schedule → ℕ → Option ℕ → Scheduler → Scheduler
  still_busy sc now none s = record s { busy_since = (sc.id, now) ∷ s.busy_since }
  still_busy sc now (some since) s =
      if ltb (now - since) busy_grace then s else advance sc now skipped_busy 0 true s

  -- The three outcomes of start; the error of SetRunTrigger is logged.
  unfoldable pub settle : Schedule → ℕ → List (ℕ × ℕ) → Result Run × Orch → Scheduler
  settle sc now m (ok run, o) =
      let stamped = (set_run_trigger run.id sc.id o.db).1 in
      advance sc now fired run.id true (record { orch = record o { db = stamped }; busy_since = m })
  settle sc now m (err busy, o) =
      still_busy sc now (since_of sc.id m) (record { orch = o; busy_since = m })
  settle sc now m (err e, o) =
      advance sc now (fire_error e) 0 true (record { orch = o; busy_since = m })

  unfoldable pub fire_at : Schedule → ℕ → Result Deployment × Db → Scheduler → Scheduler
  fire_at sc now (err e, db) s =
      advance sc now deployment_missing 0 false (record s { orch = record (s.orch) { db = db } })
  fire_at sc now (ok d, db) s =
      if is_deleted d.status || is_deleting d.status
      then advance sc now skipped_deleted 0 false (record s { orch = record (s.orch) { db = db } })
      else settle sc now s.busy_since (start sc d (record (s.orch) { db = db }))

  unfoldable pub fire : Schedule → ℕ → Scheduler → Scheduler
  unfolding fire_at
  fire sc now s = fire_at sc now (get_deployment sc.deployment_id s.orch.db) s

  unfoldable pub fire_all : List Schedule → ℕ → Scheduler → Scheduler
  fire_all [] now s = s
  fire_all (sc ∷ scs) now s = fire_all scs now (fire sc now s)

  tick_at : ℕ → Result (List Schedule) × Db → Scheduler → Scheduler
  tick_at now (err e, db) s = record s { orch = record (s.orch) { db = db } }
  tick_at now (ok due, db) s = fire_all due now (record s { orch = record (s.orch) { db = db } })

  unfoldable pub tick : Scheduler → Scheduler
  unfolding tick_at
  tick s = tick_at s.orch.db.clock (list_due_schedules s.orch.db.clock s.orch.db) s
