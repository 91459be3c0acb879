-- ===== src/Witness/OfStore.antt =====
-- Applications to a store with one fleet (internal/store).
use ghostfleet.Base.{ℕ, ◌≡◌, ◌≢◌, refl, Bool, true, false, ◌&&◌, [], ◌∷◌, some, find, if◌then◌else◌}
use ghostfleet.Base.Monad.{ok}
use ghostfleet.Model.Records.{ManagedVm, pending, working, done, filled, online, is_done}
use ghostfleet.Store.Db.{Db, now_of}
use ghostfleet.Store.Vms.{has_id, of_writing_run, report_fill_progress, cancel_unfinished_fills}
use ghostfleet.Store.Deployments.{deployment_filled, filled_deployment_ids}
use ghostfleet.Store.Filled.{has_key, deployment_filled-key}
use ghostfleet.Store.Progress.{cancelled_row, report_fill_progress_settles, late_report_reopens}
use ghostfleet.Samples.{store, vm_row}

second_found : find (has_id 3) store.vms ≡ some (vm_row 3 pending)
unfolding find
second_found = refl

abbrev cancelled_store : Db
cancelled_store = record store {
  vms = cancelled_row (vm_row 2 pending) ∷ cancelled_row (vm_row 3 pending) ∷ [];
}

cancels_all : cancel_unfinished_fills 5 store ≡ (ok tt, cancelled_store)
unfolding cancel_unfinished_fills ghostfleet.Store.Db.update_vms ghostfleet.Base.update_where
cancels_all = refl

report_fill_progress_settles_example :
    (db' : Db) × (w : ManagedVm) × (report_fill_progress 3 4096 120 true [] store ≡ (ok tt, db'))
    × (find (has_id 3) db'.vms ≡ some w)
    × (w.agent_status ≡ online)
    × (w.agent_seen_at ≡ some (now_of store))
    × (w.bytes_written ≡ 4096)
    × (w.fill_status ≡ done)
    × (w.data_state ≡ (
        if is_done w.fill_status && of_writing_run store.runs (vm_row 3 pending)
        then filled
        else (vm_row 3 pending).data_state))
    × (w.data_run_id ≡ (
        if is_done w.fill_status && of_writing_run store.runs (vm_row 3 pending)
        then (vm_row 3 pending).fill_run_id
        else (vm_row 3 pending).data_run_id))
    × (w.data_seen_at ≡ (
        if is_done w.fill_status && of_writing_run store.runs (vm_row 3 pending)
        then some (now_of store)
        else (vm_row 3 pending).data_seen_at))
    × ((j : ℕ) → j ≢ 3 → find (has_id j) db'.vms ≡ find (has_id j) store.vms)
report_fill_progress_settles_example =
    report_fill_progress_settles store 3 4096 120 true [] (vm_row 3 pending) refl second_found

late_report_reopens_example :
    (db'' : Db) × (w : ManagedVm) × (report_fill_progress 3 4096 120 false [] cancelled_store
      ≡ (ok tt, db''))
    × (find (has_id 3) db''.vms ≡ some w)
    × (w.fill_status ≡ working)
late_report_reopens_example =
    late_report_reopens 5 3 4096 120 store cancelled_store (vm_row 3 pending) refl second_found refl
      cancels_all

deployment_filled-key_example :
    (ids : ghostfleet.Base.List ℕ) × (filled_deployment_ids store ≡ (ok ids, store))
    × (deployment_filled 1 store ≡ (ok (has_key 1 ids), store))
deployment_filled-key_example = deployment_filled-key 1 store refl
