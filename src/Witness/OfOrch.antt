-- ===== src/Witness/OfOrch.antt =====
-- Applications to the calls of a small fleet (internal/orch/orchestrator.go and fill.go).
use mathlib.Core.List.{Memᴰ}
use ghostfleet.Base.{
  ℕ, ◌+◌, ◌*◌, ◌^◌, ◌≤◌, ◌<◌, ◌≡◌, ◌≢◌, refl, true, false, ◌&&◌, List, [], ◌∷◌, none, some, find,
  any, count, select, sort_by, ltb, ◌==◌, if◌then◌else◌, arith,
}
use ghostfleet.Base.Monad.{ok}
use ghostfleet.Model.Spec.{validate, accepted, first_failure, prefix_matches}
use ghostfleet.Model.Records.{ManagedVm, Run, initial_fill, incremental, pending, run_running}
use ghostfleet.Store.Db.{now_of, new_id}
use ghostfleet.Store.Runs.{create_run, run_has_id}
use ghostfleet.Store.Deployments.{dep_has_id}
use ghostfleet.Store.Vms.{name_le, has_id, in_deployment, vms_of, list_managed_vms, assigned_fill}
use ghostfleet.Datagen.WorkOrder.{itoa, build_work_order}
use ghostfleet.Orch.State.{Orch, on_abort}
use ghostfleet.Orch.Jobs.{is_active, acquire}
use ghostfleet.Orch.Rates.{
  fill_bytes, bytes_per_vm, MayWrite, per_vm_rate_kbps, per_vm_rate_fills_cap, bytes_per_vm_fits,
}
use ghostfleet.Orch.Start.{start_fill, fill_body, some_vms, data_present, fill_launch}
use ghostfleet.Orch.History.{Call, deploys, fills, cancels, returns, run, goroutines, run_exclusive}
use ghostfleet.Orch.Assigned.{new_run}
use ghostfleet.Orch.StartFill.{DataPresent, start_fill_assigns}
use ghostfleet.Orch.Gate.{
  working_in, told_to_fill, taken_in, work_order_for_token, work_order_for_token_held,
  work_order_for_token_given,
}
use ghostfleet.Model.Int.{pos}
use ghostfleet.Samples.{raw_spec, fleet_spec, fleet, vm_row, fill_row, store, idle, length_hash}

abbrev calls : List Call
calls =
    fills fleet initial_fill
    ∷ deploys fleet on_abort
    ∷ cancels 1
    ∷ returns 1
    ∷ fills fleet incremental
    ∷ []

run_exclusive_example :
    (goroutines 1 (run idle calls) ≤ 1)
    × (is_active 1 (run idle calls) ≡ ltb 0 (goroutines 1 (run idle calls)))
run_exclusive_example = run_exclusive store calls 1

raw_validates : validate raw_spec ≡ none
unfolding validate first_failure prefix_matches
raw_validates = refl

per_vm_rate_fills_cap_example :
    (rate : ℕ) × (per_vm_rate_kbps fleet_spec ≡ pos rate)
    × ((n : ℕ) → MayWrite fleet_spec n → n * rate ≤ 100 * 1024)
    × ((n : ℕ) × MayWrite fleet_spec n × (100 * 1024 < n * rate + n))
per_vm_rate_fills_cap_example =
    per_vm_rate_fills_cap fleet_spec (omega arith) (omega arith) (omega arith)

bytes_per_vm_fits_example :
    (fill_bytes (accepted raw_spec) < 2 ^ 53)
    × (bytes_per_vm (accepted raw_spec) incremental < 2 ^ 63)
bytes_per_vm_fits_example = bytes_per_vm_fits raw_spec incremental raw_validates

abbrev new_fill : Run
new_fill = new_run fleet initial_fill store

abbrev filling : Orch
filling = (start_fill fleet initial_fill idle).1

starts : start_fill fleet initial_fill idle ≡ (ok new_fill, filling)
unfolding start_fill acquire is_active any fill_body list_managed_vms vms_of select sort_by some_vms
    data_present fill_launch create_run new_id name_le
starts = refl

start_fill_assigns_example :
    (is_active 1 idle ≡ false)
    × (vms_of 1 store ≢ [])
    × DataPresent fleet initial_fill store
    × Memᴰ
        (record new_fill { status = run_running; started_at = some (now_of store) })
        filling.db.runs
    × ((v : ManagedVm)
        → Memᴰ v store.vms
        → in_deployment 1 v ≡ true
        → Memᴰ (assigned_fill new_fill.id (bytes_per_vm fleet_spec initial_fill) v) filling.db.vms)
    × ((v : ManagedVm)
        → Memᴰ v store.vms
        → any (λ w. in_deployment 1 w && v.id == w.id) store.vms ≡ false
        → Memᴰ v filling.db.vms)
start_fill_assigns_example = start_fill_assigns fleet initial_fill idle filling new_fill refl starts

run_found : find (run_has_id 5) store.runs ≡ some fill_row
unfolding find
run_found = refl

fleet_found : find (dep_has_id 1) store.deployments ≡ some fleet
unfolding find
fleet_found = refl

one_row : count (has_id 2) store.vms ≤ 1
unfolding count
one_row = omega arith

none_working : working_in 5 store.vms ≤ 1
unfolding count
none_working = omega arith

work_order_for_token_held_example :
    working_in 5 (work_order_for_token length_hash itoa (vm_row 2 pending) store).1.vms ≤ 1
work_order_for_token_held_example =
    work_order_for_token_held length_hash itoa fleet fill_row (vm_row 2 pending) store refl one_row
      run_found fleet_found (omega arith) none_working

work_order_for_token_given_example :
    work_order_for_token length_hash itoa (vm_row 2 pending) store ≡ (
      if told_to_fill fleet fill_row (vm_row 2 pending) store
          then some
              (record (build_work_order length_hash itoa 1 fleet.name 5 initial_fill
                (2 ∷ [])
                fleet_spec) { rate_limit_kbps = per_vm_rate_kbps fleet_spec })
          else none,
      taken_in (told_to_fill fleet fill_row (vm_row 2 pending) store) (vm_row 2 pending) store,
    )
work_order_for_token_given_example =
    work_order_for_token_given length_hash itoa fleet fill_row (vm_row 2 pending) store refl
      run_found fleet_found
