-- ===== src/Sched/Starting.antt =====
-- The orchestrator (internal/orch) is a Starter of the scheduler.
use ghostfleet.Base.{ℕ, Bool, List, [], ◌∷◌, arith, ◌∙◌}
use ghostfleet.Base.Monad.{M, Result, ok, err, bind_after}
use ghostfleet.Model.Records.{Deployment, ManagedVm, Run, RunType}
use ghostfleet.Store.Db.{new_id, update_deployments_found, update_runs_found, update_vms}
use ghostfleet.Store.Vms.{list_managed_vms, assign_fill}
use ghostfleet.Store.Runs.{create_run, start_run, has_succeeded_run}
use ghostfleet.Store.Deployments.{set_deployment_status, deployment_filled}
use ghostfleet.Orch.State.{Orch, lift}
use ghostfleet.Orch.Rates.{bytes_per_vm}
use ghostfleet.Orch.Jobs.{acquire, release, release_on_err}
use ghostfleet.Orch.Start.{
  start_fill, start_power, start_teardown, fill_body, fill_launch, some_vms, data_present,
  assign_all,
}
use ghostfleet.Sched.Scheduler.{Starter, IsCalm}

power-IsCalm : (d : Deployment) (on : Bool) (o : Orch) → IsCalm o (start_power d on o).1
unfolding start_power acquire release create_run new_id
power-IsCalm d on o = ground arith

teardown-IsCalm : (d : Deployment) (o : Orch) → IsCalm o (start_teardown d o).1
unfolding start_teardown acquire release create_run new_id set_deployment_status
    update_deployments_found
teardown-IsCalm d o = ground arith

abbrev Calm : {A : Type 0} → M Orch A → Type 0
Calm m = (o : Orch) → IsCalm o (m o).1

IsCalm-trans : (o p q : Orch) → IsCalm o p → IsCalm p q → IsCalm o q
IsCalm-trans o p q a b = record {
  schedules = b.schedules ∙ a.schedules;
  clock = b.clock ∙ a.clock;
  faults = λ h. b.faults (a.faults h);
}

bound-IsCalm :
    {A B : Type 0} (o : Orch) (r : Result A × Orch) (f : A → M Orch B)
    → IsCalm o r.1
    → ((a : A) → Calm (f a))
    → IsCalm o (bind_after r f).1
bound-IsCalm o (ok a, p) f h k = IsCalm-trans o p (f a p).1 h (k a p)
bound-IsCalm o (err e, p) f h k = h

assign_all-IsCalm :
    (run_id total : ℕ) (vs : List ManagedVm) (o : Orch)
    → IsCalm o (record o { db = assign_all run_id total vs o.db })
unfolding assign_all assign_fill update_vms
assign_all-IsCalm run_id total [] o = ground arith
assign_all-IsCalm run_id total (v ∷ vs) o =
    let one : Orch = record o { db = (assign_fill v.id run_id total o.db).1 } in
    IsCalm-trans o one _ (ground arith) (assign_all-IsCalm run_id total vs one)

fill_launch-Calm :
    (d : Deployment) (ty : RunType) (vs : List ManagedVm) → Calm (fill_launch d ty vs)
unfolding fill_launch create_run new_id start_run update_runs_found
fill_launch-Calm d ty vs o = bound-IsCalm o (lift (create_run d.id ty) o) _ (ground arith) λ run p.
    IsCalm-trans p (record p { db = assign_all run.id (bytes_per_vm d.spec ty) vs p.db }) _
      (assign_all-IsCalm run.id (bytes_per_vm d.spec ty) vs p) (ground arith)

fill_body-Calm : (d : Deployment) (ty : RunType) → Calm (fill_body d ty)
unfolding fill_body some_vms data_present list_managed_vms deployment_filled has_succeeded_run
fill_body-Calm d ty o = bound-IsCalm o (lift (list_managed_vms d.id) o) _ (ground arith) λ vms p.
    bound-IsCalm p (some_vms vms p) _ (ground arith)
      λ u q. bound-IsCalm q (data_present d ty q) _ (ground arith) λ w. fill_launch-Calm d ty vms

released-IsCalm :
    (id : ℕ) (o : Orch) (r : Result Run × Orch) → IsCalm o r.1 → IsCalm o (release_on_err id r).1
unfolding release
released-IsCalm id o (ok a, p) h = h
released-IsCalm id o (err e, p) h = record {
  schedules = h.schedules;
  clock = h.clock;
  faults = h.faults;
}

fill-IsCalm : (d : Deployment) (ty : RunType) (o : Orch) → IsCalm o (start_fill d ty o).1
unfolding start_fill acquire release
fill-IsCalm d ty o =
    bound-IsCalm o (acquire d.id o) _ (ground arith)
      λ u p. released-IsCalm d.id p (fill_body d ty p) (fill_body-Calm d ty p)

-- The orchestrator, as the scheduler uses it.
pub orchestrator : Starter
orchestrator = record {
  start_fill = start_fill;
  start_power = start_power;
  start_teardown = start_teardown;
  start_fill-IsCalm = fill-IsCalm;
  start_power-IsCalm = power-IsCalm;
  start_teardown-IsCalm = teardown-IsCalm;
}
