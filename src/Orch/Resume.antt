-- ===== src/Orch/Resume.antt =====
-- internal/orch/orchestrator.go: ResumeInterrupted, once at startup.
use ghostfleet.Base.{true, false, List, [], ◌∷◌}
use ghostfleet.Base.Monad.{Result, ok, err}
use ghostfleet.Model.Records.{
  Deployment, ManagedVm, Run, RunType, run_failed, deploy, initial_fill, incremental, verify,
  scale_up, teardown, power_on, power_off, other_type,
}
use ghostfleet.Store.Vms.{list_managed_vms}
use ghostfleet.Store.Runs.{finish_run, list_running_runs}
use ghostfleet.Store.Deployments.{get_deployment}
use ghostfleet.Orch.State.{Orch, Work, on_abort, reconciles, tears_down, powers, fills, lift_at}
use ghostfleet.Orch.Jobs.{acquire, release}

abbrev pub started_with : Deployment → Run → Work → Orch → Orch
started_with d run work o = record o {
  tasks = record { deployment = d; run = run; work = work } ∷ o.tasks;
}

-- The error of FinishRun is dropped.
unfoldable pub orphaned : Run → Orch → Orch
orphaned run o = record o { db = (finish_run run.id run_failed o.db).1 }

abbrev pub resume_fill : Deployment → Run → Result (List ManagedVm) × Orch → Orch
resume_fill d run (ok vms, o) = started_with d run (fills vms) o
resume_fill d run (err e, o) = orphaned run (release d.id o)

unfoldable pub resume_as : RunType → Deployment → Run → Orch → Orch
unfolding orphaned
resume_as deploy d run o = started_with d run (reconciles on_abort) o
resume_as scale_up d run o = started_with d run (reconciles on_abort) o
resume_as teardown d run o = started_with d run tears_down o
resume_as power_on d run o = started_with d run (powers true) o
resume_as power_off d run o = started_with d run (powers false) o
resume_as initial_fill d run o = resume_fill d run (lift_at o (list_managed_vms d.id o.db))
resume_as incremental d run o = resume_fill d run (lift_at o (list_managed_vms d.id o.db))
resume_as verify d run o = resume_fill d run (lift_at o (list_managed_vms d.id o.db))
resume_as (other_type t) d run o = orphaned run (release d.id o)

abbrev pub resume_acquired : Deployment → Run → Result (Unit {0}) × Orch → Orch
resume_acquired d run (ok u, o) = resume_as run.run_type d run o
resume_acquired d run (err e, o) = o

abbrev pub resume_found : Run → Result Deployment × Orch → Orch
resume_found run (err e, o) = orphaned run o
resume_found run (ok d, o) = resume_acquired d run (acquire d.id o)

unfoldable pub resume_all : List Run → Orch → Orch
unfolding resume_as
resume_all [] o = o
resume_all (run ∷ runs) o =
    resume_all runs (resume_found run (lift_at o (get_deployment run.deployment_id o.db)))

abbrev pub resume_listed : Result (List Run) × Orch → Orch
resume_listed (ok runs, o) = resume_all runs o
resume_listed (err e, o) = o

unfoldable pub resume_interrupted : Orch → Orch
unfolding resume_all
resume_interrupted o = resume_listed (lift_at o (list_running_runs o.db))
