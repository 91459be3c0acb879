-- ===== src/Store/Deployments.antt =====
-- internal/store/deployments.go: the statements over deployments.
use ghostfleet.Base.{
  ℕ, Bool, true, false, ◌&&◌, ◌||◌, not, List, [], ◌∷◌, ◌++◌, Name, name_eq, ◌==◌, if◌then◌else◌,
  find, Option, none, some, update_where, count, any, delete_where, take, ltb,
}
use ghostfleet.Base.Monad.{ok, err, M, pure, ◌>>=◌, ◌>>◌, conflict, db_failure}
use ghostfleet.Model.Spec.{ProfileSpec}
use ghostfleet.Model.Records.{
  Deployment, ManagedVm, Run, DeploymentStatus, deleted, is_deleted, initial_fill, is_filled,
  type_eq, is_succeeded,
}
use ghostfleet.Store.Db.{Db, stmt, affecting, new_id, now, update_deployments_found, row_or_none}
use ghostfleet.Store.Vms.{in_deployment}
use ghostfleet.Store.Runs.{has_succeeded_run}

abbrev pub dep_has_id : ℕ → Deployment → Bool
dep_has_id id d = d.id == id

-- The foreign keys of a deployment: `profile_id` may be NULL.
abbrev pub refers : Deployment → Db → Bool
refers d db =
    any (λ c. c.connection.id == d.connection_id) db.connections
    && (d.profile_id == 0 || any (λ p. p.id == d.profile_id) db.profiles)

-- CreateDeployment, of a deployment with no ID yet. Names are UNIQUE.
unfoldable pub create_deployment : Deployment → M Db Deployment
create_deployment d = do
  id ← new_id
  t ← now
  stmt
  λ db.
      let row : Deployment = record d { id = id; created_at = t; updated_at = t } in
      if any (λ e. name_eq e.name d.name) db.deployments
      then (err conflict, db)
      else if refers d db
      then (ok row, record db { deployments = db.deployments ++ (row ∷ []) })
      else (err db_failure, db)

unfoldable pub update_deployment_spec : ℕ → ProfileSpec → M Db (Unit {0})
update_deployment_spec id spec = do
  t ← now
  update_deployments_found (dep_has_id id) (λ d. record d { spec = spec; updated_at = t })

unfoldable pub set_deployment_status : ℕ → DeploymentStatus → M Db (Unit {0})
set_deployment_status id status = do
  t ← now
  update_deployments_found (dep_has_id id) (λ d. record d { status = status; updated_at = t })

-- ` (deleted `, the first 8 characters of the ID, and `)`.
abbrev pub deleted_suffix : (ℕ → Name) → ℕ → Name
deleted_suffix text id =
    b' '
    ∷ b'('
    ∷ b'd'
    ∷ b'e'
    ∷ b'l'
    ∷ b'e'
    ∷ b't'
    ∷ b'e'
    ∷ b'd'
    ∷ b' '
    ∷ (take 8 (text id) ++ (b')' ∷ []))

abbrev pub live_with_id : ℕ → Deployment → Bool
live_with_id id d = d.id == id && not (is_deleted d.status)

abbrev pub buried : (ℕ → Name) → ℕ → Deployment → Deployment
buried text t d = record d {
  status = deleted;
  name = d.name ++ deleted_suffix text d.id;
  updated_at = t;
}

unfoldable pub delete_deployment_schedules : ℕ → M Db (Unit {0})
delete_deployment_schedules dep = do
  stmt
  λ db. (ok tt, record db { schedules = delete_where (λ s. s.deployment_id == dep) db.schedules })

-- Another deployment has the name that the UPDATE gives; the column is UNIQUE.
abbrev pub has_name_of : Deployment → Deployment → Bool
has_name_of d e = not (e.id == d.id) && name_eq e.name d.name

abbrev pub clashes : (ℕ → Name) → List Deployment → Option Deployment → Bool
clashes text ds none = false
clashes text ds (some d) = any (has_name_of (buried text 0 d)) ds

unfoldable pub dead_name_taken : (ℕ → Name) → ℕ → List Deployment → Bool
dead_name_taken text id ds = clashes text ds (find (live_with_id id) ds)

-- The UPDATE.
unfoldable pub bury : (ℕ → Name) → ℕ → ℕ → M Db (Unit {0})
unfolding dead_name_taken
bury text id t = do
  stmt
  λ db.
      if dead_name_taken text id db.deployments
      then (err db_failure, db)
      else affecting (any (live_with_id id) db.deployments) (record db {
        deployments = update_where (live_with_id id) (buried text t) db.deployments;
      })

unfoldable pub mark_deployment_deleted : (ℕ → Name) → ℕ → M Db (Unit {0})
unfolding bury
mark_deployment_deleted text id = do t ← now; bury text id t; delete_deployment_schedules id

unfoldable pub get_deployment : ℕ → M Db Deployment
get_deployment id = do stmt; λ db. row_or_none (find (dep_has_id id) db.deployments) db

abbrev pub unfilled_vm : ℕ → ManagedVm → Bool
unfilled_vm dep v = in_deployment dep v && not (is_filled v.data_state)

-- The aggregate query of DeploymentFilled: some VM, and none unfilled.
unfoldable pub disks_filled : ℕ → List ManagedVm → Bool
disks_filled dep vms = ltb 0 (count (in_deployment dep) vms) && count (unfilled_vm dep) vms == 0

unfoldable pub deployment_filled : ℕ → M Db Bool
deployment_filled dep = do
  run_filled ← has_succeeded_run dep initial_fill
  if run_filled then pure true else (do stmt; λ db. (ok (disks_filled dep db.vms), db))

-- The deployments of the runs, and of the groups of managed VMs whose sum is 0.
unfoldable pub filled_by_runs : List Run → List ℕ
filled_by_runs [] = []
filled_by_runs (r ∷ rs) =
    let rest = filled_by_runs rs in
    if type_eq r.run_type initial_fill && is_succeeded r.status
    then r.deployment_id ∷ rest
    else rest

unfoldable pub filled_groups : List ManagedVm → List ManagedVm → List ℕ
filled_groups vms [] = []
filled_groups vms (v ∷ vs) =
    let rest = filled_groups vms vs in
    if count (unfilled_vm v.deployment_id) vms == 0 then v.deployment_id ∷ rest else rest

-- FilledDeploymentIDs, the map as the list of its keys.
unfoldable pub filled_deployment_ids : M Db (List ℕ)
unfolding filled_by_runs filled_groups
filled_deployment_ids = do
  stmt
  λ db. (ok (filled_by_runs db.runs ++ filled_groups db.vms db.vms), db)
