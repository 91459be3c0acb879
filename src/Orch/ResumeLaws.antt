-- ===== src/Orch/ResumeLaws.antt =====
-- What ResumeInterrupted (internal/orch/orchestrator.go) does to the jobs and the goroutines.
use ghostfleet.Base.{ℕ, ◌≡◌, refl, ◌⊎◌, inl, inr, false, List, Bool-cases, arith}
use ghostfleet.Base.Monad.{Result, ok, err, busy}
use ghostfleet.Model.Records.{
  Deployment, ManagedVm, Run, RunType, deploy, initial_fill, incremental, verify, scale_up,
  teardown, power_on, power_off, other_type,
}
use ghostfleet.Store.Db.{Db}
use ghostfleet.Store.Vms.{list_managed_vms}
use ghostfleet.Orch.State.{Orch, lift_at}
use ghostfleet.Orch.Jobs.{is_active, acquire, release, remove_job}
use ghostfleet.Orch.Exclusion.{Started, acquired}
use ghostfleet.Orch.Resume.{orphaned, resume_fill, resume_as, resume_acquired, resume_found}

-- One job and one goroutine for an idle deployment, or the jobs and goroutines as they were.
abbrev pub Resumed : ℕ → Run → Orch → Orch → Type 0
Resumed d run o o' = Started d o (ok run, o') ⊎ ((o'.active ≡ o.active) × (o'.tasks ≡ o.tasks))

given_up :
    (d : ℕ) (run : Run) (o : Orch) (db : Db)
    → Resumed d run o (orphaned run (release d (record (acquired d o) { db = db })))
unfolding orphaned release remove_job
given_up d run o db = inr (ground arith, refl)

fill-Resumed :
    (d : Deployment) (run : Run) (o : Orch) (r : Result (List ManagedVm)) (db : Db)
    → is_active d.id o ≡ false
    → Resumed d.id run o (resume_fill d run (lift_at (acquired d.id o) (r, db)))
fill-Resumed d run o (ok vms) db free = inl (free, refl, refl)
fill-Resumed d run o (err e) db free = given_up d.id run o db

resume_as-Resumed :
    (ty : RunType) (d : Deployment) (run : Run) (o : Orch)
    → is_active d.id o ≡ false
    → Resumed d.id run o (resume_as ty d run (acquired d.id o))
unfolding resume_as
resume_as-Resumed deploy d run o free = inl (free, refl, refl)
resume_as-Resumed scale_up d run o free = inl (free, refl, refl)
resume_as-Resumed teardown d run o free = inl (free, refl, refl)
resume_as-Resumed power_on d run o free = inl (free, refl, refl)
resume_as-Resumed power_off d run o free = inl (free, refl, refl)
resume_as-Resumed initial_fill d run o free =
    fill-Resumed d run o (list_managed_vms d.id o.db).0 (list_managed_vms d.id o.db).1 free
resume_as-Resumed incremental d run o free =
    fill-Resumed d run o (list_managed_vms d.id o.db).0 (list_managed_vms d.id o.db).1 free
resume_as-Resumed verify d run o free =
    fill-Resumed d run o (list_managed_vms d.id o.db).0 (list_managed_vms d.id o.db).1 free
resume_as-Resumed (other_type t) d run o free = given_up d.id run o o.db

acquired-Resumed :
    (d : Deployment) (run : Run) (o : Orch)
    → Resumed d.id run o (resume_acquired d run (acquire d.id o))
unfolding acquire
acquired-Resumed d run o = elim (Bool-cases (is_active d.id o)) [
  | inl on ↦
      let held : acquire d.id o ≡ (err busy, o) = ground (arith, on) in rw held (inr (refl, refl))
  | inr off ↦
      let taken : acquire d.id o ≡ (ok tt, acquired d.id o) = ground (arith, off) in
      rw taken (resume_as-Resumed run.run_type d run o off)
]

-- The deployment that a step of ResumeInterrupted is about, 0 if it is not found.
abbrev pub found_id : Result Deployment → ℕ
found_id (ok d) = d.id
found_id (err e) = 0

pub resume_found-Resumed :
    (run : Run) (o : Orch) (r : Result Deployment) (db : Db)
    → Resumed (found_id r) run (record o { db = db }) (resume_found run (lift_at o (r, db)))
unfolding orphaned
resume_found-Resumed run o (err e) db = inr (refl, refl)
resume_found-Resumed run o (ok d) db = acquired-Resumed d run (record o { db = db })
