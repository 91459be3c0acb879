-- ===== src/Orch/Exclusion.antt =====
-- At most one job runs for a deployment (internal/orch/orchestrator.go).
use ghostfleet.Base.{ℕ, ◌≡◌, refl, inl, inr, Bool, false, List, ◌∷◌, arith, map, Bool-cases}
use ghostfleet.Store.Db.{Db}
use ghostfleet.Base.Monad.{bind_after, Result, ok, err, M, ◌>>◌}
use ghostfleet.Model.Records.{Deployment, Run, RunType, is_adopted}
use ghostfleet.Orch.State.{Orch, Job, Task, OnConflict, lift_at}
use ghostfleet.Orch.Jobs.{is_active, acquire, remove_job, release, releasing, release_on_err}
use ghostfleet.Orch.Start.{
  teardown_body, power_body, deploy_body, fill_body, fill_launch, some_vms, data_present,
  start_deploy, start_teardown, start_power, start_fill,
}

-- The deployments of the active jobs, and of the goroutines.
abbrev pub job_ids : List Job → List ℕ
job_ids = map λ j. j.deployment_id

abbrev pub task_ids : List Task → List ℕ
task_ids = map λ t. t.deployment.id

-- What the steps behind `acquire` do to the two: one goroutine if they succeed, nothing if not.
abbrev Body : ℕ → Orch → Result Run × Orch → Type 0
Body d o (ok r, o') = (o'.active ≡ o.active) × (task_ids o'.tasks ≡ d ∷ task_ids o.tasks)
Body d o (err e, o') = (o'.active ≡ o.active) × (o'.tasks ≡ o.tasks)

lift-Body :
    {A : Type 0} (d : ℕ) (o : Orch) (r : Result A × Db) (f : A → M Orch Run)
    → ((a : A) (db : Db) → Body d o (f a (record o { db = db })))
    → Body d o (bind_after (lift_at o r) f)
lift-Body d o (ok a, db) f h = h a db
lift-Body d o (err e, db) f h = (refl, refl)

-- What a Start method does to the two: one entry each for a deployment that had none if it succeeds,
-- nothing if it fails.
abbrev pub Started : ℕ → Orch → Result Run × Orch → Type 0
Started d o (ok r, o') =
    (is_active d o ≡ false)
    × (job_ids o'.active ≡ d ∷ job_ids o.active)
    × (task_ids o'.tasks ≡ d ∷ task_ids o.tasks)
Started d o (err e, o') = (o'.active ≡ o.active) × (o'.tasks ≡ o.tasks)

abbrev pub acquired : ℕ → Orch → Orch
acquired d o = record o { active = record { deployment_id = d; cancelled = false } ∷ o.active }

released-Started :
    (d : ℕ) (o : Orch) (r : Result Run × Orch)
    → is_active d o ≡ false
    → Body d (acquired d o) r
    → Started d o (release_on_err d r)
unfolding release remove_job
released-Started d o (ok run, o') free (a, t) = (free, ground (arith, a), t)
released-Started d o (err e, o') free (a, t) = (ground (arith, a), t)

wrap-Started :
    (d : ℕ) (o : Orch) (m : M Orch Run)
    → ((o' : Orch) → Body d o' (m o'))
    → Started d o ((acquire d >> releasing d m) o)
unfolding acquire
wrap-Started d o m h = elim (Bool-cases (is_active d o)) [
  | inl on ↦ rw on (refl, refl)
  | inr off ↦ rw off (released-Started d o (m (acquired d o)) off (h (acquired d o)))
]

teardown_body-Body : (d : Deployment) (o : Orch) → Body d.id o (teardown_body d o)
unfolding teardown_body
teardown_body-Body d o = ground arith

power_body-Body : (d : Deployment) (on : Bool) (o : Orch) → Body d.id o (power_body d on o)
unfolding power_body
power_body-Body d on o = ground arith

deploy_body-Body :
    (d : Deployment) (mode : OnConflict) (o : Orch) → Body d.id o (deploy_body d mode o)
unfolding deploy_body
deploy_body-Body d mode o = ground arith

fill_body-Body : (d : Deployment) (ty : RunType) (o : Orch) → Body d.id o (fill_body d ty o)
unfolding fill_body fill_launch some_vms data_present
fill_body-Body d ty o = ground arith

pub start_teardown-Started : (d : Deployment) (o : Orch) → Started d.id o (start_teardown d o)
unfolding start_teardown
start_teardown-Started d o = wrap-Started d.id o (teardown_body d) (teardown_body-Body d)

pub start_power-Started :
    (d : Deployment) (on : Bool) (o : Orch) → Started d.id o (start_power d on o)
unfolding start_power
start_power-Started d on o = wrap-Started d.id o (power_body d on) (power_body-Body d on)

-- StartDeploy succeeds only on an idle deployment and then adds one job and one goroutine for it; on
-- every error, also one behind `acquire`, it leaves the jobs and the goroutines as they were.
pub start_deploy-Started :
    (d : Deployment) (mode : OnConflict) (o : Orch) → Started d.id o (start_deploy d mode o)
unfolding start_deploy
start_deploy-Started d mode o = elim (Bool-cases (is_adopted d.origin)) [
  | inl e ↦ rw e (refl, refl)
  | inr e ↦ rw e (wrap-Started d.id o (deploy_body d mode) (deploy_body-Body d mode))
]

-- StartFill succeeds only on an idle deployment and then adds one job and one goroutine for it; on
-- every error, also one behind `acquire`, it leaves the jobs and the goroutines as they were.
pub start_fill-Started :
    (d : Deployment) (ty : RunType) (o : Orch) → Started d.id o (start_fill d ty o)
unfolding start_fill
start_fill-Started d ty o = wrap-Started d.id o (fill_body d ty) (fill_body-Body d ty)
