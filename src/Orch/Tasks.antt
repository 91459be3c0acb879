-- ===== src/Orch/Tasks.antt =====
-- internal/orch/orchestrator.go: the jobs: powerFunc, teardown and runJob, whose deferred release ends
-- every one. The statistics of a job are not modelled.
use ghostfleet.Base.{ℕ, Bool, ◌||◌, List, [], ◌∷◌, Name, if◌then◌else◌}
use ghostfleet.Base.Monad.{Result, ok, err, M, pure, ◌>>=◌, ◌>>◌}
use ghostfleet.Model.Records.{
  Deployment, error, ready, ManagedVm, Run, RunType, run_succeeded, run_failed, run_cancelled,
  teardown, power_on, power_off, type_eq,
}
use ghostfleet.Store.Db.{Db}
use ghostfleet.Store.Vms.{list_managed_vms, delete_managed_vm}
use ghostfleet.Store.Runs.{start_run, finish_run}
use ghostfleet.Store.Deployments.{set_deployment_status, mark_deployment_deleted}
use ghostfleet.Orch.Jobs.{release}
use ghostfleet.Orch.Driver.{Driver}
use ghostfleet.Orch.Fleet.{Site, with_db}

-- A call of the store or of the driver in a job.
abbrev pub kept_at : {W A : Type 0} → Site W → Result A × Db → Result A × Site W
kept_at s (r, db) = (r, with_db (λ _. db) s)

abbrev pub keep : {W A : Type 0} → M Db A → M (Site W) A
keep m s = kept_at s (m s.orch.db)

abbrev pub driven_at : {W A : Type 0} → Site W → Result A × W → Result A × Site W
driven_at s (r, w) = (r, record s { world = w })

abbrev pub drive : {W A : Type 0} → M W A → M (Site W) A
drive m s = driven_at s (m s.world)

abbrev pub is_power : RunType → Bool
is_power ty = type_eq ty power_on || type_eq ty power_off

module _ {W : Type 0} (driver : Driver W) where
  unfoldable pub power_all : Bool → List ManagedVm → M (Site W) (Unit {0})
  power_all on [] = pure tt
  power_all on (vm ∷ vms) = do
    drive (if on then driver.power_on vm.ref else driver.power_off vm.ref)
    power_all on vms

  unfoldable pub power_func : Bool → Deployment → M (Site W) (Unit {0})
  unfolding power_all
  power_func on d = do vms ← keep (list_managed_vms d.id); power_all on vms

  unfoldable pub delete_all : List ManagedVm → M (Site W) (Unit {0})
  delete_all [] = pure tt
  delete_all (vm ∷ vms) = do
    drive (driver.delete_vm vm.ref)
    keep (delete_managed_vm vm.id)
    delete_all vms

  unfoldable pub teardown_fleet : Deployment → M (Site W) (Unit {0})
  unfolding delete_all
  teardown_fleet d = do vms ← keep (list_managed_vms d.id); delete_all vms

  -- The two ends of runJob; every error of the store in them is dropped.
  unfoldable pub fail_job : Deployment → Run → Bool → Site W → Site W
  fail_job d run cancelled s =
      let done =
        with_db (λ db. (finish_run run.id (if cancelled then run_cancelled else run_failed) db).1)
          s in
      if is_power run.run_type
      then done
      else with_db (λ db. (set_deployment_status d.id error db).1) done

  unfoldable pub succeed_job : (ℕ → Name) → Deployment → Run → Site W → Site W
  succeed_job text d run s =
      let done = with_db (λ db. (finish_run run.id run_succeeded db).1) s in
      if is_power run.run_type
      then done
      else (if type_eq run.run_type teardown
          then with_db (λ db. (mark_deployment_deleted text d.id db).1) done
          else with_db (λ db. (set_deployment_status d.id ready db).1) done)

  abbrev pub job_end : (ℕ → Name) → Deployment → Run → Bool → Result (Unit {0}) × Site W → Site W
  job_end text d run cancelled (ok u, s) = succeed_job text d run s
  job_end text d run cancelled (err e, s) = fail_job d run cancelled s

  -- `cancelled` says whether the context is cancelled when the job fails.
  unfoldable pub run_job :
      (ℕ → Name) → Deployment → Run → (Deployment → M (Site W) (Unit {0})) → Bool → Site W → Site W
  unfolding succeed_job fail_job
  run_job text d run job cancelled s =
      let started = with_db (λ db. (start_run run.id db).1) s in
      let over =
        job_end text d run cancelled
          ((drive (driver.open_driver d.connection_id) >> job d) started) in
      record over { orch = release d.id over.orch }
