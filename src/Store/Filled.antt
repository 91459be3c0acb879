-- ===== src/Store/Filled.antt =====
-- DeploymentFilled and FilledDeploymentIDs of internal/store/deployments.go agree.
use ghostfleet.Base.{
  ℕ, ◌≡◌, refl, Bool, ◌&&◌, List, [], ◌∷◌, ◌++◌, arith, any, count, ◌==◌, ltb, any-append, inl, inr,
  Bool-cases,
}
use ghostfleet.Base.Monad.{ok}
use ghostfleet.Model.Records.{Run, ManagedVm, initial_fill}
use ghostfleet.Store.Db.{Db}
use ghostfleet.Store.Vms.{in_deployment}
use ghostfleet.Store.Runs.{succeeded_as, has_succeeded_run}
use ghostfleet.Store.Deployments.{
  unfilled_vm, disks_filled, deployment_filled, filled_deployment_ids, filled_by_runs,
  filled_groups,
}

-- Whether the map has the key.
abbrev pub has_key : ℕ → List ℕ → Bool
has_key dep ids = any (λ i. i == dep) ids

runs_key :
    (dep : ℕ) (rs : List Run)
    → has_key dep (filled_by_runs rs) ≡ ltb 0 (count (succeeded_as dep initial_fill) rs)
unfolding filled_by_runs any count
runs_key dep [] = refl
runs_key dep (r ∷ rs) = ground (arith, runs_key dep rs)

groups_key :
    (dep : ℕ) (all vs : List ManagedVm)
    → has_key dep (filled_groups all vs)
      ≡ (ltb 0 (count (in_deployment dep) vs) && count (unfilled_vm dep) all == 0)
unfolding filled_groups any count
groups_key dep all [] = refl
groups_key dep all (v ∷ vs) = elim (Bool-cases (v.deployment_id == dep)) [
  | inl same ↦
      let e : v.deployment_id ≡ dep = ground (arith, same) in
      ground (arith, groups_key dep all vs, e)
  | inr other ↦ ground (arith, groups_key dep all vs, other)
]

-- A deployment is a key of FilledDeploymentIDs exactly if DeploymentFilled says that it is filled,
-- where no statement fails.
pub deployment_filled-key :
    (dep : ℕ) (db : Db)
    → db.faults ≡ []
    → (ids : List ℕ) × (filled_deployment_ids db ≡ (ok ids, db))
      × (deployment_filled dep db ≡ (ok (has_key dep ids), db))
unfolding filled_deployment_ids deployment_filled has_succeeded_run disks_filled
deployment_filled-key dep db h = (
  filled_by_runs db.runs ++ filled_groups db.vms db.vms,
  ground arith,
  ground (
    arith,
    any-append (λ i. i == dep) (filled_by_runs db.runs) (filled_groups db.vms db.vms),
    runs_key dep db.runs,
    groups_key dep db.vms db.vms,
  ),
)
