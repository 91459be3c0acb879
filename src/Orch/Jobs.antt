-- ===== src/Orch/Jobs.antt =====
-- internal/orch/orchestrator.go: acquire, release, Cancel, Stop and IsActive. `active` is a map from
-- deployments; each method holds the mutex throughout.
use ghostfleet.Base.{
  ℕ, Bool, true, false, List, [], ◌∷◌, ◌==◌, if◌then◌else◌, any, update_where, map,
}
use ghostfleet.Base.Monad.{Result, ok, err, M, busy, not_running}
use ghostfleet.Orch.State.{Orch, Job}

abbrev pub job_of : ℕ → Job → Bool
job_of id j = j.deployment_id == id

unfoldable pub is_active : ℕ → Orch → Bool
is_active id o = any (job_of id) o.active

unfoldable pub acquire : ℕ → M Orch (Unit {0})
unfolding is_active
acquire id o =
    if is_active id o
    then (err busy, o)
    else (ok tt, record o { active = record { deployment_id = id; cancelled = false } ∷ o.active })

-- `delete(o.active, id)`: a map has one entry for a key.
unfoldable pub remove_job : ℕ → List Job → List Job
remove_job id [] = []
remove_job id (j ∷ js) = let rest = remove_job id js in if job_of id j then js else j ∷ rest

unfoldable pub release : ℕ → Orch → Orch
release id o = record o { active = remove_job id o.active }

abbrev pub cancel_job : Job → Job
cancel_job j = record j { cancelled = true }

unfoldable pub cancel : ℕ → M Orch (Unit {0})
unfolding is_active
cancel id o =
    if is_active id o
    then (ok tt, record o { active = update_where (job_of id) cancel_job o.active })
    else (err not_running, o)

-- The cancellation of every job by Stop, before it waits.
unfoldable pub stop : Orch → Orch
stop o = record o { active = map cancel_job o.active }

abbrev pub release_on_err : {A : Type 0} → ℕ → Result A × Orch → Result A × Orch
release_on_err id (ok a, o) = (ok a, o)
release_on_err id (err e, o) = (err e, release id o)

-- The steps of a Start method behind `acquire`: each `if err != nil` releases and returns.
abbrev pub releasing : {A : Type 0} → ℕ → M Orch A → M Orch A
releasing id m o = release_on_err id (m o)
