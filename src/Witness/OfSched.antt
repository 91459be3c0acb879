-- ===== src/Witness/OfSched.antt =====
-- An application to a tick over a nightly schedule (internal/sched/sched.go).
use ghostfleet.Base.{[], ◌∷◌, some}
use ghostfleet.Sched.Scheduler.{Scheduler}
use ghostfleet.Samples.{store, idle, nightly}

abbrev waiting : Scheduler
waiting = record { orch = idle; busy_since = [] }

-- A nightly schedule is due, and its deployment is idle.
abbrev due_waiting : Scheduler
due_waiting = record waiting {
  orch = record idle {
    db = record store { schedules = record nightly { next_run_at = some 0 } ∷ [] };
  };
}
