-- ===== src/Sched/Firing.antt =====
-- What one fire (internal/sched/sched.go) does to the schedules.
use ghostfleet.Base.{
  ℕ, ◌-◌, ◌≡◌, refl, ap, ◌∙◌, inl, inr, true, false, ◌||◌, [], Option, none, some, ltb, any,
  Bool-cases, arith,
}
use ghostfleet.Base.Monad.{Result, ok, err, Error, busy, not_found}
use ghostfleet.Model.Records.{
  Deployment, Run, Schedule, deployment_missing, skipped_deleted, skipped_busy, fired, fire_error,
  is_deleted, is_deleting,
}
use ghostfleet.Model.Timer.{Calendar}
use ghostfleet.Store.Db.{update_runs_found}
use ghostfleet.Store.Runs.{set_run_trigger}
use ghostfleet.Orch.State.{Orch}
use ghostfleet.Base.Monad.{
  conflict, not_running, precondition, db_failure, driver_failure, name_conflicts, unknown_action,
  bad_report,
}
use ghostfleet.Model.Records.{
  RunType, deploy, initial_fill, incremental, verify, scale_up, teardown, power_on, power_off,
  other_type, is_ready,
}
use ghostfleet.Sched.Scheduler.{when_ready, start_action}
use ghostfleet.Sched.Scheduler.{
  Scheduler, Starter, IsCalm, busy_grace, since_of, advance, start, still_busy, settle, fire_at,
  fire,
}
use ghostfleet.Model.Seconds.{IsOnSeconds, OnTheSecond}
use ghostfleet.Sched.Advance.{advance-Fired, due_in, Fired, get_deployment-reads}

module _ (cal : Calendar) (st : Starter) (law : IsOnSeconds cal) where
  same-IsCalm : (o : Orch) → IsCalm o o
  same-IsCalm o = record { schedules = refl; clock = refl; faults = λ h. h }

  ready-IsCalm : (d : Deployment) (ty : RunType) (o : Orch) → IsCalm o (when_ready cal st d ty o).1
  unfolding when_ready
  ready-IsCalm d ty o = elim (Bool-cases (is_ready d.status)) [
    | inl y ↦ rw y (st.start_fill-IsCalm d ty o)
    | inr n ↦ rw n (same-IsCalm o)
  ]

  -- Calls of `start` reach the orchestrator, or fail at once.
  start_action-IsCalm :
      (a : RunType) (d : Deployment) (o : Orch) → IsCalm o (start_action cal st a d o).1
  unfolding start_action when_ready
  start_action-IsCalm incremental d o = ready-IsCalm d incremental o
  start_action-IsCalm verify d o = ready-IsCalm d verify o
  start_action-IsCalm power_on d o = st.start_power-IsCalm d true o
  start_action-IsCalm power_off d o = st.start_power-IsCalm d false o
  start_action-IsCalm teardown d o = st.start_teardown-IsCalm d o
  start_action-IsCalm deploy d o = same-IsCalm o
  start_action-IsCalm initial_fill d o = same-IsCalm o
  start_action-IsCalm scale_up d o = same-IsCalm o
  start_action-IsCalm (other_type t) d o = same-IsCalm o

  start-IsCalm : (sc : Schedule) (d : Deployment) (o : Orch) → IsCalm o (start cal st sc d o).1
  unfolding start
  start-IsCalm sc d o = start_action-IsCalm sc.action d o

  still_busy-Fired :
      (sc : Schedule) (now : ℕ) (o : Option ℕ) (s₀ s : Scheduler)
      → s.orch.db.faults ≡ []
      → s.orch.db.schedules ≡ s₀.orch.db.schedules
      → s.orch.db.clock ≡ s₀.orch.db.clock
      → s.busy_since ≡ s₀.busy_since
      → since_of sc.id s.busy_since ≡ o
      → Fired (OnTheSecond cal sc) sc.id now s₀ (still_busy cal st sc now o s)
  unfolding still_busy since_of
  still_busy-Fired sc now none s₀ s h e c b w = record {
    settled = λ k. inr ground arith;
    others_due = λ j ne. ap (any (due_in j now)) e;
    others_wait = λ j ne. ground (arith, b);
    faults = h;
    clock = c;
  }
  still_busy-Fired sc now (some t) s₀ s h e c b w = elim (Bool-cases (ltb (now - t) busy_grace)) [
    | inl more ↦ rw more (record {
      settled = λ k. inr (ground (arith, w));
      others_due = λ j ne. ap (any (due_in j now)) e;
      others_wait = λ j ne. ap (since_of j) b;
      faults = h;
      clock = c;
    })
    | inr over ↦ rw over (advance-Fired cal st law sc now skipped_busy 0 true s₀ s h e c b)
  ]

  failed-Fired :
      (sc : Schedule) (now : ℕ) (s₀ : Scheduler) (e : Error) (o : Orch)
      → IsCalm s₀.orch o
      → s₀.orch.db.faults ≡ []
      → Fired (OnTheSecond cal sc) sc.id now s₀ (
          advance cal st sc now
            (fire_error e)
            0
            true
            (record { orch = o; busy_since = s₀.busy_since }))
  failed-Fired sc now s₀ e o calm h =
      advance-Fired cal st law sc now (fire_error e) 0 true s₀ _ (calm.faults h) calm.schedules
        calm.clock refl

  settle-Fired :
      (sc : Schedule) (now : ℕ) (s₀ : Scheduler) (r : Result Run) (o : Orch)
      → IsCalm s₀.orch o
      → s₀.orch.db.faults ≡ []
      → Fired (OnTheSecond cal sc) sc.id now s₀ (settle cal st sc now s₀.busy_since (r, o))
  unfolding settle set_run_trigger update_runs_found
  settle-Fired sc now s₀ (ok run) o calm h =
      let calm' : IsCalm o (record o { db = (set_run_trigger run.id sc.id o.db).1 }) =
        ground arith in
      advance-Fired cal st law sc now fired run.id true s₀ _ (calm'.faults (calm.faults h))
        (calm'.schedules ∙ calm.schedules) (calm'.clock ∙ calm.clock) refl
  settle-Fired sc now s₀ (err busy) o calm h =
      still_busy-Fired sc now _ s₀ _ (calm.faults h) calm.schedules calm.clock refl refl
  settle-Fired sc now s₀ (err not_found) o calm h = failed-Fired sc now s₀ not_found o calm h
  settle-Fired sc now s₀ (err conflict) o calm h = failed-Fired sc now s₀ conflict o calm h
  settle-Fired sc now s₀ (err not_running) o calm h = failed-Fired sc now s₀ not_running o calm h
  settle-Fired sc now s₀ (err (precondition x)) o calm h =
      failed-Fired sc now s₀ (precondition x) o calm h
  settle-Fired sc now s₀ (err db_failure) o calm h = failed-Fired sc now s₀ db_failure o calm h
  settle-Fired sc now s₀ (err driver_failure) o calm h =
      failed-Fired sc now s₀ driver_failure o calm h
  settle-Fired sc now s₀ (err name_conflicts) o calm h =
      failed-Fired sc now s₀ name_conflicts o calm h
  settle-Fired sc now s₀ (err unknown_action) o calm h =
      failed-Fired sc now s₀ unknown_action o calm h
  settle-Fired sc now s₀ (err bad_report) o calm h = failed-Fired sc now s₀ bad_report o calm h

  fire_at-Fired :
      (sc : Schedule) (now : ℕ) (r : Result Deployment) (s : Scheduler)
      → s.orch.db.faults ≡ []
      → Fired (OnTheSecond cal sc) sc.id now s (fire_at cal st sc now (r, s.orch.db) s)
  unfolding fire_at
  fire_at-Fired sc now (err e) s h =
      advance-Fired cal st law sc now deployment_missing 0 false s _ h refl refl refl
  fire_at-Fired sc now (ok d) s h =
      elim (Bool-cases (is_deleted d.status || is_deleting d.status)) [
        | inl y ↦
            rw y (advance-Fired cal st law sc now skipped_deleted 0 false s _ h refl refl refl)
        | inr n ↦ rw n (
            settle-Fired sc now s (start cal st sc d s.orch).0 (start cal st sc d s.orch).1
              (start-IsCalm sc d s.orch) h)
      ]

  pub fire-Fired :
      (sc : Schedule) (now : ℕ) (s : Scheduler)
      → s.orch.db.faults ≡ []
      → Fired (OnTheSecond cal sc) sc.id now s (fire cal st sc now s)
  unfolding fire
  fire-Fired sc now s h =
      rw (get_deployment-reads sc.deployment_id s.orch.db h) (fire_at-Fired sc now _ s h)
