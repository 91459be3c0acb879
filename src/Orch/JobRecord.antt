-- ===== src/Orch/JobRecord.antt =====
-- What runJob (internal/orch/orchestrator.go) records of a job.
use ghostfleet.Base.{
  ℕ, ◌-◌, ◌%◌, ◌≡◌, refl, ap, ◌∙◌, Bool, false, [], some, Name, find, find-update, find-update_if,
  if◌then◌else◌, arith, Bool-cases, inl, inr, find-holds,
}
use ghostfleet.Base.Monad.{Result, ok, err, M, ◌>>◌}
use ghostfleet.Model.Records.{
  Deployment, DeploymentStatus, error, ready, deleted, is_deleted, Run, RunType, RunStatus,
  run_succeeded, run_failed, run_cancelled, run_running, teardown, type_eq, second,
}
use ghostfleet.Store.Db.{Db, now_of, update_runs_found, update_deployments_found}
use ghostfleet.Store.Runs.{start_run, finish_run, run_has_id, coalesce}
use ghostfleet.Store.Deployments.{
  set_deployment_status, mark_deployment_deleted, bury, dead_name_taken, dep_has_id, live_with_id,
  buried, delete_deployment_schedules,
}
use ghostfleet.Orch.Jobs.{release}
use ghostfleet.Orch.Driver.{Driver}
use ghostfleet.Orch.Fleet.{Site, with_db}
use ghostfleet.Orch.Tasks.{drive, is_power, fail_job, succeed_job, job_end, run_job}
use ghostfleet.Orch.JobEnds.{IsDiscreet, DiscreetJob, bind-Discreet, drive-Discreet}

-- The status of the run, by how the job came out and whether it was cancelled.
abbrev pub status_of : Bool → Result (Unit {0}) → RunStatus
status_of cancelled (ok u) = run_succeeded
status_of cancelled (err e) = if cancelled then run_cancelled else run_failed

-- The status of the deployment, from the one before; `taken` tells that another deployment has its name for
-- the dead.
abbrev pub deployment_after :
    RunType → Bool → DeploymentStatus → Result (Unit {0}) → DeploymentStatus
deployment_after ty taken before (ok u) =
    if is_power ty
    then before
    else (if type_eq ty teardown then (if taken then before else deleted) else ready)
deployment_after ty taken before (err e) = if is_power ty then before else error

abbrev pub finished_row : RunStatus → ℕ → Run → Run
finished_row status t r = record r { status = status; finished_at = some t }

abbrev pub running_row : ℕ → Run → Run
running_row t r = record r { status = run_running; started_at = coalesce r.started_at t }

-- The two rows, as the end of a job finds them and leaves them.
abbrev Rows : Run → Run → Deployment → DeploymentStatus → Db → Type 0
Rows run r d status db =
    (find (run_has_id run.id) db.runs ≡ some r)
    × ((e : Deployment) × (find (dep_has_id d.id) db.deployments ≡ some e) × (e.status ≡ status))

finish-Rows :
    (run r : Run) (d : Deployment) (before status : _) (db : Db)
    → db.faults ≡ []
    → Rows run r d before db
    → Rows run (finished_row status (now_of db) r) d before (finish_run run.id status db).1
unfolding finish_run update_runs_found
finish-Rows run r d before status db h (a, (e, b, c)) =
    let there =
      find-update (run_has_id run.id) (finished_row status (now_of db)) db.runs r (λ y. refl) a in
    (ground (arith, there), (e, ground (arith, b), c))

status-Rows :
    (run r : Run) (d : Deployment) (before after' : DeploymentStatus) (db : Db)
    → db.faults ≡ []
    → Rows run r d before db
    → Rows run r d after' (set_deployment_status d.id after' db).1
unfolding set_deployment_status update_deployments_found
status-Rows run r d before after' db h (a, (e, b, c)) =
    let f : Deployment → Deployment = λ x. record x { status = after'; updated_at = now_of db } in
    let there = find-update (dep_has_id d.id) f db.deployments e (λ y. refl) b in
    (ground (arith, a), (f e, ground (arith, there), refl))

bury-Rows :
    (text : ℕ → Name) (run r : Run) (d : Deployment) (before : DeploymentStatus) (db : Db)
    → db.faults ≡ []
    → is_deleted before ≡ false
    → Rows run r d before db
    → Rows run r d
        (if dead_name_taken text d.id db.deployments then before else deleted)
        (mark_deployment_deleted text d.id db).1
unfolding mark_deployment_deleted bury delete_deployment_schedules
bury-Rows text run r d before db h live (a, (e, b, c)) =
    let f = buried text (now_of db) in
    let held = find-holds (dep_has_id d.id) db.deployments e b in
    let there =
      find-update_if (dep_has_id d.id) (live_with_id d.id) f db.deployments e (λ y. refl) b in
    elim (Bool-cases (dead_name_taken text d.id db.deployments)) [
      | inl t ↦ (ground (arith, a, t), (e, ground (arith, t, b), rw t c))
      | inr n ↦ (ground (arith, a, n), (f e, ground (arith, n, there, held, c), rw n refl))
    ]

start-Rows :
    (run r : Run) (d : Deployment) (before : DeploymentStatus) (db : Db)
    → db.faults ≡ []
    → Rows run r d before db
    → Rows run (running_row (now_of db) r) d before (start_run run.id db).1
unfolding start_run update_runs_found
start-Rows run r d before db h (a, (e, b, c)) =
    let there = find-update (run_has_id run.id) (running_row (now_of db)) db.runs r (λ y. refl) a in
    (ground (arith, there), (e, ground (arith, b), c))

carried :
    (run r : Run) (d : Deployment) (status : DeploymentStatus) (db db' : Db)
    → IsDiscreet db db'
    → Rows run r d status db
    → Rows run r d status db'
carried run r d status db db' c (a, (e, b, k)) = (
  ap (find (run_has_id run.id)) c.runs ∙ a,
  (e, ap (find (dep_has_id d.id)) c.deployments ∙ b, k),
)

finish-faults :
    (id : ℕ) (status : RunStatus) (db : Db)
    → db.faults ≡ []
    → (finish_run id status db).1.faults ≡ []
unfolding finish_run update_runs_found
finish-faults id status db h = ground arith

start-faults :
    (id : ℕ) (db : Db)
    → db.faults ≡ []
    → ((start_run id db).1.faults ≡ []) × ((start_run id db).1.clock ≡ db.clock)
unfolding start_run update_runs_found
start-faults id db h = (ground arith, ground arith)

finish-deployments :
    (id : ℕ) (status : RunStatus) (db : Db)
    → db.faults ≡ []
    → (finish_run id status db).1.deployments ≡ db.deployments
unfolding finish_run update_runs_found
finish-deployments id status db h = ground arith

start-deployments :
    (id : ℕ) (db : Db) → db.faults ≡ [] → (start_run id db).1.deployments ≡ db.deployments
unfolding start_run update_runs_found
start-deployments id db h = ground arith

module _ {W : Type 0} (driver : Driver W) where
  job_end-Rows :
      (text : ℕ → Name) (d : Deployment) (run r : Run) (cancelled : Bool)
      (before : DeploymentStatus) (x : Result (Unit {0})) (s : Site W)
      → s.orch.db.faults ≡ []
      → is_deleted before ≡ false
      → Rows run r d before s.orch.db
      → Rows run
          (finished_row (status_of cancelled x) (now_of s.orch.db) r)
          d
          (deployment_after run.run_type (dead_name_taken text d.id s.orch.db.deployments) before x)
          (job_end driver text d run cancelled (x, s)).orch.db
  unfolding succeed_job fail_job
  job_end-Rows text d run r cancelled before (err e) s h live rows =
      let status = if cancelled then run_cancelled else run_failed in
      let over = finish-Rows run r d before status s.orch.db h rows in
      let calm = finish-faults run.id status s.orch.db h in
      elim (Bool-cases (is_power run.run_type)) [
        | inl y ↦ rw y over
        | inr n ↦ rw n (status-Rows run _ d before error _ calm over)
      ]
  job_end-Rows text d run r cancelled before (ok u) s h live rows =
      let over = finish-Rows run r d before run_succeeded s.orch.db h rows in
      let calm = finish-faults run.id run_succeeded s.orch.db h in
      elim (Bool-cases (is_power run.run_type)) [
        | inl y ↦ rw y over
        | inr n ↦ elim (Bool-cases (type_eq run.run_type teardown)) [
          | inl t ↦
              let same = finish-deployments run.id run_succeeded s.orch.db h in
              rw (n, t)
                (rw same at (
                  bury-Rows text run (finished_row run_succeeded (now_of s.orch.db) r) d before
                    (finish_run run.id run_succeeded s.orch.db).1 calm live over))
          | inr o ↦ rw (n, o) (status-Rows run _ d before ready _ calm over)
        ]
      ]

  -- How a job comes out, once its run is started.
  abbrev pub outcome :
      Deployment → Run → (Deployment → M (Site W) (Unit {0})) → Site W → Result (Unit {0}) × Site W
  outcome d run job s =
      (drive (driver.open_driver d.connection_id) >> job d)
        (with_db (λ db. (start_run run.id db).1) s)

  -- Where no statement fails, and for a job that leaves the rows of runs and deployments alone, runJob
  -- ends with the run's row finished now, succeeded if the job did, else cancelled or failed; the
  -- deployment, not deleted before, is then as it was after a power job, in error after another job
  -- that failed, deleted after a teardown, unless another deployment has its name for the dead, when it is as
  -- it was, and else ready.
  pub run_job_records :
      (text : ℕ → Name) (d : Deployment) (run r : Run) (job : Deployment → M (Site W) (Unit {0}))
      (cancelled : Bool) (e : Deployment) (s : Site W)
      → DiscreetJob (job d)
      → s.orch.db.faults ≡ []
      → find (run_has_id run.id) s.orch.db.runs ≡ some r
      → find (dep_has_id d.id) s.orch.db.deployments ≡ some e
      → is_deleted e.status ≡ false
      → let x = (outcome d run job s).0 in
        let db' = (run_job driver text d run job cancelled s).orch.db in
        (find (run_has_id run.id) db'.runs
          ≡ some (
              finished_row
                (status_of cancelled x)
                (now_of s.orch.db)
                (running_row (now_of s.orch.db) r)))
        × ((e' : Deployment) × (find (dep_has_id d.id) db'.deployments ≡ some e')
            × (e'.status
                ≡ deployment_after run.run_type
                    (dead_name_taken text d.id s.orch.db.deployments)
                    e.status
                    x))
  unfolding run_job release
  run_job_records text d run r job cancelled e s quiet h a b live =
      let s₁ : Site W = with_db (λ db. (start_run run.id db).1) s in
      let calm = start-faults run.id s.orch.db h in
      let rows = start-Rows run r d e.status s.orch.db h (a, (e, b, refl)) in
      let c =
        bind-Discreet (drive (driver.open_driver d.connection_id)) (λ u. job d)
          (drive-Discreet (driver.open_driver d.connection_id)) (λ u. quiet) s₁ in
      let o = outcome d run job s in
      let now_same : now_of o.1.orch.db ≡ now_of s.orch.db =
        ap (λ t. t - t % second) (c.clock ∙ calm.1) in
      let rows_same : o.1.orch.db.deployments ≡ s.orch.db.deployments =
        c.deployments ∙ start-deployments run.id s.orch.db h in
      rw (now_same, rows_same) at
        (job_end-Rows text d run (running_row (now_of s.orch.db) r) cancelled e.status o.0 o.1
          (c.faults calm.0) live
          (carried run (running_row (now_of s.orch.db) r) d e.status s₁.orch.db o.1.orch.db c rows))
