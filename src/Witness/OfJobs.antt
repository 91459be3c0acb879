-- ===== src/Witness/OfJobs.antt =====
-- Applications to the teardown of a fleet (internal/orch/orchestrator.go).
use ghostfleet.Base.{
  ℕ, ◌≡◌, refl, true, false, ◌&&◌, List, some, find, any, select, sort_by, ◌==◌, arith, name_eq,
}
use ghostfleet.Base.Monad.{ok, Result}
use ghostfleet.Model.Records.{Deployment, Run, teardown}
use ghostfleet.Store.Db.{new_id, now_of}
use ghostfleet.Store.Vms.{
  name_le, add_managed_vm, has_id, in_deployment, list_managed_vms, vms_of, delete_managed_vm,
}
use ghostfleet.Store.Runs.{run_has_id}
use ghostfleet.Store.Deployments.{dead_name_taken, dep_has_id}
use ghostfleet.Datagen.WorkOrder.{itoa}
use ghostfleet.Orch.Fleet.{Site}
use ghostfleet.Orch.Tasks.{delete_all, teardown_fleet, run_job}
use ghostfleet.Orch.JobEnds.{teardown_fleet-Discreet}
use ghostfleet.Orch.JobRecord.{
  status_of, deployment_after, finished_row, running_row, outcome, run_job_records,
}
use ghostfleet.Orch.TeardownLaws.{teardown_fleet_clears}
use ghostfleet.Model.Naming.{vm_name}
use ghostfleet.Orch.State.{on_abort}
use ghostfleet.Orch.Reconcile.{
  missing_from, find_conflicts, resolve, create_vms, grow_all, reconcile_core,
}
use ghostfleet.Orch.ReconcileLaws.{has_vm}
use ghostfleet.Orch.ReconcileCover.{reconcile_core_covers}
use ghostfleet.Samples.{fleet_spec, fleet, fill_row, store, cold, cold_site}

abbrev teardown_row : Run
teardown_row = record fill_row { run_type = teardown }

run_stored : find (run_has_id 5) store.runs ≡ some fill_row
unfolding find
run_stored = refl

fleet_stored : find (dep_has_id 1) store.deployments ≡ some fleet
unfolding find
fleet_stored = refl

abbrev ends : Result (Unit {0})
ends = (outcome cold fleet teardown_row (teardown_fleet cold) cold_site).0

abbrev after_job : Site (List ℕ)
after_job = run_job cold itoa fleet teardown_row (teardown_fleet cold) false cold_site

run_job_records_example :
    (find (run_has_id 5) after_job.orch.db.runs
      ≡ some (
          finished_row (status_of false ends) (now_of store) (running_row (now_of store) fill_row)))
    × ((e' : Deployment) × (find (dep_has_id 1) after_job.orch.db.deployments ≡ some e')
        × (e'.status
            ≡ deployment_after teardown
                (dead_name_taken itoa 1 store.deployments)
                fleet.status
                ends))
run_job_records_example =
    run_job_records cold itoa fleet teardown_row fill_row (teardown_fleet cold) false fleet
      cold_site (teardown_fleet-Discreet cold fleet) refl run_stored fleet_stored refl

abbrev torn_down : Site (List ℕ)
torn_down = (teardown_fleet cold fleet cold_site).1

tears_down : teardown_fleet cold fleet cold_site ≡ (ok tt, torn_down)
unfolding teardown_fleet delete_all list_managed_vms vms_of select sort_by delete_managed_vm name_le
tears_down = refl

teardown_fleet_clears_example :
    (any (in_deployment 1) torn_down.orch.db.vms ≡ false)
    × ((j : ℕ)
        → any (λ w. in_deployment 1 w && j == w.id) store.vms ≡ false
        → find (has_id j) torn_down.orch.db.vms ≡ find (has_id j) store.vms)
teardown_fleet_clears_example = teardown_fleet_clears cold fleet cold_site torn_down refl tears_down

abbrev same_order : List ℕ → List ℕ
same_order is = is

abbrev reconciled : Site (List ℕ)
reconciled = (reconcile_core cold on_abort same_order fleet cold_site).1

reconciles : reconcile_core cold on_abort same_order fleet cold_site ≡ (ok tt, reconciled)
unfolding reconcile_core list_managed_vms vms_of select sort_by name_le find_conflicts resolve
    create_vms grow_all missing_from any name_eq vm_name add_managed_vm new_id
reconciles = refl

reconcile_core_covers_example : has_vm 1 (vm_name fleet_spec 2) reconciled.orch.db ≡ true
reconcile_core_covers_example =
    reconcile_core_covers cold fleet on_abort same_order cold_site reconciled 2 (λ is j m. m)
      reconciles (omega arith) (omega arith)
