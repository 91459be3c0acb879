-- ===== src/Orch/StartFill.antt =====
-- What a StartFill (internal/orch/fill.go) that succeeds leaves in the store.
use mathlib.Core.List.{Memᴰ}
use mathlib.Core.List.Memᴰ
use ghostfleet.Base.{
  ℕ, ◌≡◌, ◌≢◌, refl, ◌⊎◌, inl, inr, Bool, true, false, ◌&&◌, ◌||◌, List, [], ◌∷◌, ◌++◌, some, arith,
  ◌==◌, ltb, count, any, update_where, Bool-cases,
}
use ghostfleet.Base.Monad.{Error, precondition, fill_first, Result, ok, err}
use ghostfleet.Store.Db.{Db, now_of, new_id, update_runs_found}
use ghostfleet.Store.Vms.{in_deployment, vms_of, list_managed_vms}
use ghostfleet.Store.Runs.{has_succeeded_run, succeeded_as, create_run, start_run, run_has_id}
use ghostfleet.Store.Deployments.{deployment_filled, disks_filled}
use ghostfleet.Model.Records.{
  pending, no_error, Deployment, ManagedVm, Run, RunType, initial_fill, run_running, is_adopted,
  adopted,
}
use ghostfleet.Orch.State.{Orch, fills}
use ghostfleet.Orch.Jobs.{is_active, acquire, release_on_err}
use ghostfleet.Orch.Exclusion.{acquired}
use ghostfleet.Orch.Rates.{bytes_per_vm}
use ghostfleet.Orch.Start.{needs_data, fill_launch, fill_body, some_vms, data_present, start_fill}
use ghostfleet.Orch.Assigned.{
  assigned_row, assign_all-rows, listed, not_listed, new_run, started_row, run_added, launched_db,
}

fill_launch-ok :
    (d : Deployment) (ty : RunType) (vs : List ManagedVm) (o : Orch)
    → o.db.faults ≡ []
    → fill_launch d ty vs o ≡ (
      ok (new_run d ty o.db),
      record o {
        db = launched_db d ty vs o.db;
        tasks = record { deployment = d; run = new_run d ty o.db; work = fills vs } ∷ o.tasks;
      },
    )
unfolding fill_launch create_run new_id start_run update_runs_found launched_db run_added
fill_launch-ok d ty vs o h =
    let rows = assign_all-rows o.db.next_id (bytes_per_vm d.spec ty) vs (run_added d ty o.db) h in
    ground (arith, rows)

-- The deployment's data is there, as StartFill finds it.
abbrev pub DataPresent : Deployment → RunType → Db → Type 0
DataPresent d ty db =
    needs_data ty ≡ true → (deployment_filled d.id db ≡ (ok true, db)) ⊎ (d.origin ≡ adopted)

deployment_filled-state :
    (dep : ℕ) (db : Db) → db.faults ≡ [] → (b : Bool) × (deployment_filled dep db ≡ (ok b, db))
unfolding deployment_filled has_succeeded_run
deployment_filled-state dep db h =
    (ltb 0 (count (succeeded_as dep initial_fill) db.runs) || disks_filled dep db.vms, ground arith)

data_present-ok :
    (d : Deployment) (ty : RunType) (o o' : Orch)
    → o.db.faults ≡ []
    → data_present d ty o ≡ (ok tt, o')
    → (o' ≡ o) × DataPresent d ty o.db
unfolding data_present
data_present-ok d ty o o' h e =
    let state = deployment_filled-state d.id o.db h in
    (ground (arith, state.1), λ n. ground (arith, state.1))

data_present-cases :
    (d : Deployment) (ty : RunType) (o : Orch)
    → o.db.faults ≡ []
    → (data_present d ty o ≡ (ok tt, o)) ⊎ ((x : Error) × (data_present d ty o ≡ (err x, o)))
unfolding data_present
data_present-cases d ty o h =
    let state = deployment_filled-state d.id o.db h in
    elim (Bool-cases (needs_data ty)) [
      | inr f ↦ inl (rw f)
      | inl t ↦ elim (Bool-cases (state.0 || is_adopted d.origin)) [
        | inl y ↦ inl (ground (arith, state.1, t, y))
        | inr n ↦ inr (precondition fill_first, ground (arith, state.1, t, n))
      ]
    ]

fill_body-ok :
    (d : Deployment) (ty : RunType) (o o' : Orch) (r : Run)
    → o.db.faults ≡ []
    → fill_body d ty o ≡ (ok r, o')
    → (r ≡ new_run d ty o.db)
      × (vms_of d.id o.db ≢ [])
      × DataPresent d ty o.db
      × (o'.db ≡ launched_db d ty (vms_of d.id o.db) o.db)
unfolding fill_body some_vms list_managed_vms
fill_body-ok d ty o o' r h e = elim (data_present-cases d ty o h) [
  | inl p ↦
      let last = fill_launch-ok d ty (vms_of d.id o.db) o h in
      (
        ground (arith, p, last),
        ground (arith, p, last),
        (data_present-ok d ty o o h p).1,
        ground (arith, p, last),
      )
  | inr (x, q) ↦ absurd (ground (arith, q))
]

releasing-ok :
    (id : ℕ) (x : Result Run × Orch) (r : Run) (o' : Orch)
    → release_on_err id x ≡ (ok r, o')
    → x ≡ (ok r, o')
releasing-ok id (ok a, o) r o' h = h
releasing-ok id (err e, o) r o' h = cc

vms-Mem :
    (d : Deployment) (ty : RunType) (db : Db) (v : ManagedVm)
    → Memᴰ v db.vms
    → Memᴰ
        (assigned_row db.next_id (bytes_per_vm d.spec ty) (vms_of d.id db) v)
        (launched_db d ty (vms_of d.id db) db).vms
unfolding launched_db
vms-Mem d ty db v m = Memᴰ.map (assigned_row db.next_id (bytes_per_vm d.spec ty) (vms_of d.id db)) m

updated-Mem :
    (p : Run → Bool) (f : Run → Run) (rs : List Run) (r : Run)
    → p r ≡ true
    → Memᴰ (f r) (update_where p f (rs ++ (r ∷ [])))
unfolding update_where
updated-Mem p f [] r h = rw h (Memᴰ.head refl)
updated-Mem p f (x ∷ rs) r h = Memᴰ.tail (updated-Mem p f rs r h)

runs-Mem :
    (d : Deployment) (ty : RunType) (vs : List ManagedVm) (db : Db)
    → Memᴰ (started_row (now_of db) (new_run d ty db)) (launched_db d ty vs db).runs
unfolding launched_db
runs-Mem d ty vs db =
    updated-Mem (run_has_id db.next_id) (started_row (now_of db)) db.runs (new_run d ty db)
      (ground arith)

-- A StartFill that succeeds where no statement fails: the deployment was idle and has VMs, and the
-- data is there that an incremental or a verify needs. The new run is stored as running, every VM of
-- the deployment is pending for it with the byte target, and other VMs are as they were.
pub start_fill_assigns :
    (d : Deployment) (ty : RunType) (o o' : Orch) (r : Run)
    → o.db.faults ≡ []
    → start_fill d ty o ≡ (ok r, o')
    → (is_active d.id o ≡ false)
      × (vms_of d.id o.db ≢ [])
      × DataPresent d ty o.db
      × Memᴰ (record r { status = run_running; started_at = some (now_of o.db) }) o'.db.runs
      × ((v : ManagedVm)
          → Memᴰ v o.db.vms
          → in_deployment d.id v ≡ true
          → Memᴰ
              (record v {
                fill_run_id = r.id;
                fill_status = pending;
                bytes_written = 0;
                bytes_total = bytes_per_vm d.spec ty;
                mbps = 0;
                fill_error = no_error;
              })
              o'.db.vms)
      × ((v : ManagedVm)
          → Memᴰ v o.db.vms
          → any (λ w. in_deployment d.id w && v.id == w.id) o.db.vms ≡ false
          → Memᴰ v o'.db.vms)
unfolding start_fill acquire
start_fill_assigns d ty o o' r h e = elim (Bool-cases (is_active d.id o)) [
  | inl on ↦ absurd (ground (arith, on))
  | inr off ↦
      let body : fill_body d ty (acquired d.id o) ≡ (ok r, o') =
        releasing-ok d.id (fill_body d ty (acquired d.id o)) r o' (ground (arith, off)) in
      let (run, some', data', left) = fill_body-ok d ty (acquired d.id o) o' r h body in
      (
        off,
        some',
        data',
        rw (run, left) (runs-Mem d ty (vms_of d.id o.db) o.db),
        (λ v m i. rw (run, left) (rw (listed d.id o.db v m i) at (vms-Mem d ty o.db v m))),
        (λ v m i. rw left (rw (not_listed d.id o.db v.id i) at (vms-Mem d ty o.db v m))),
      )
]
