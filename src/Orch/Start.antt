-- ===== src/Orch/Start.antt =====
-- internal/orch: StartDeploy, StartTeardown and StartPower of orchestrator.go, StartFill of fill.go.
use ghostfleet.Base.{ℕ, Bool, ◌||◌, List, [], ◌∷◌, if◌then◌else◌}
use ghostfleet.Base.Monad.{
  ok, M, pure, fail, ◌>>=◌, ◌>>◌, precondition, adopted_not_deployable, nothing_to_fill, fill_first,
}
use ghostfleet.Model.Records.{
  Deployment, ManagedVm, Run, RunType, deploy, incremental, verify, scale_up, teardown, power_on,
  power_off, deploying, deleting, is_adopted, type_eq,
}
use ghostfleet.Store.Db.{Db}
use ghostfleet.Store.Vms.{list_managed_vms, assign_fill}
use ghostfleet.Store.Runs.{create_run, start_run}
use ghostfleet.Store.Deployments.{set_deployment_status, deployment_filled}
use ghostfleet.Orch.State.{
  Orch, Work, OnConflict, reconciles, tears_down, powers, fills, lift, quiet,
}
use ghostfleet.Orch.Jobs.{acquire, releasing}
use ghostfleet.Orch.Rates.{bytes_per_vm}

abbrev pub launch : Deployment → Run → Work → M Orch Run
launch d run work o =
    (ok run, record o { tasks = record { deployment = d; run = run; work = work } ∷ o.tasks })

abbrev pub deploy_type : List ManagedVm → RunType
deploy_type [] = deploy
deploy_type (v ∷ vs) = scale_up

unfoldable pub deploy_body : Deployment → OnConflict → M Orch Run
deploy_body d mode = do
  existing ← lift (list_managed_vms d.id)
  run ← lift (create_run d.id (deploy_type existing))
  quiet (set_deployment_status d.id deploying)
  launch d run (reconciles mode)

unfoldable pub start_deploy : Deployment → OnConflict → M Orch Run
unfolding deploy_body
start_deploy d mode =
    if is_adopted d.origin
    then fail (precondition adopted_not_deployable)
    else (do acquire d.id; releasing d.id (deploy_body d mode))

unfoldable pub teardown_body : Deployment → M Orch Run
teardown_body d = do
  run ← lift (create_run d.id teardown)
  quiet (set_deployment_status d.id deleting)
  launch d run tears_down

unfoldable pub start_teardown : Deployment → M Orch Run
unfolding teardown_body
start_teardown d = do acquire d.id; releasing d.id (teardown_body d)

unfoldable pub power_body : Deployment → Bool → M Orch Run
power_body d on = do
  run ← lift (create_run d.id (if on then power_on else power_off))
  launch d run (powers on)

unfoldable pub start_power : Deployment → Bool → M Orch Run
unfolding power_body
start_power d on = do acquire d.id; releasing d.id (power_body d on)

abbrev pub needs_data : RunType → Bool
needs_data ty = type_eq ty incremental || type_eq ty verify

-- `len(vms) == 0`
unfoldable pub some_vms : List ManagedVm → M Orch (Unit {0})
some_vms [] = fail (precondition nothing_to_fill)
some_vms (v ∷ vs) = pure tt

unfoldable pub data_present : Deployment → RunType → M Orch (Unit {0})
data_present d ty =
    if needs_data ty
    then (do
      filled ← lift (deployment_filled d.id)
      if filled || is_adopted d.origin then pure tt else fail (precondition fill_first))
    else pure tt

-- The loop of AssignFill, whose errors are dropped.
unfoldable pub assign_all : ℕ → ℕ → List ManagedVm → Db → Db
assign_all run_id total [] db = db
assign_all run_id total (v ∷ vs) db =
    assign_all run_id total vs (assign_fill v.id run_id total db).1

-- The last steps, none of which fails the method once the run exists.
unfoldable pub fill_launch : Deployment → RunType → List ManagedVm → M Orch Run
fill_launch d ty vms = do
  run ← lift (create_run d.id ty)
  λ o. (ok tt, record o { db = assign_all run.id (bytes_per_vm d.spec ty) vms o.db })
  quiet (start_run run.id)
  launch d run (fills vms)

unfoldable pub fill_body : Deployment → RunType → M Orch Run
fill_body d ty = do
  vms ← lift (list_managed_vms d.id)
  some_vms vms
  data_present d ty
  fill_launch d ty vms

unfoldable pub start_fill : Deployment → RunType → M Orch Run
unfolding fill_body
start_fill d ty = do acquire d.id; releasing d.id (fill_body d ty)
