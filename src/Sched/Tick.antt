-- ===== src/Sched/Tick.antt =====
-- One tick of the scheduler (internal/sched/sched.go) over the schedules that are due.

use ghostfleet.Base.{ℕ, ◌≡◌, ◌⊎◌, true, false}
use ghostfleet.Sched.Scheduler.{Scheduler}
use ghostfleet.Sched.Advance.{due_now, is_waiting}

-- A schedule that is due no more, or is being retried.
abbrev pub Settled : ℕ → ℕ → Scheduler → Type 0
Settled id now s = (due_now id now s ≡ false) ⊎ (is_waiting id s ≡ true)
