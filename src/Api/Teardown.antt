-- ===== src/Api/Teardown.antt =====
-- The synchronous end of a teardown (internal/api/operations.go) beside a job of the deployment.
use ghostfleet.Base.{
  ℕ, ◌-◌, ◌%◌, ◌≡◌, refl, ap, ◌∙◌, true, false, List, [], ◌∷◌, some, Name, find, any,
  find-update_if, update_where, arith, if◌then◌else◌, Bool-cases, inl, inr, ◌==◌,
}
use ghostfleet.Base.Monad.{ok}
use ghostfleet.Model.Records.{
  Deployment, DeploymentStatus, is_deleted, ready, Run, deploy, RunStatus, run_succeeded, second,
}
use ghostfleet.Store.Db.{Db, now_of, update_runs_found, update_deployments_found}
use ghostfleet.Store.Runs.{finish_run}
use ghostfleet.Store.Vms.{list_managed_vms, vms_of}
use ghostfleet.Store.Deployments.{
  dep_has_id, get_deployment, live_with_id, buried, dead_name_taken, set_deployment_status,
}
use ghostfleet.Store.Deletion.{after_mark, mark-live}
use ghostfleet.Orch.State.{Orch}
use ghostfleet.Orch.Driver.{Driver}
use ghostfleet.Orch.Tasks.{succeed_job}
use ghostfleet.Api.Reply.{bare}
use ghostfleet.Api.Operations.{teardown_deployment}

read_one :
    (id : ℕ) (d : Deployment) (db : Db)
    → db.faults ≡ []
    → find (dep_has_id id) db.deployments ≡ some d
    → get_deployment id db ≡ (ok d, db)
unfolding get_deployment
read_one id d db h there = ground (arith, h, there)

list_none :
    (id : ℕ) (db : Db) → db.faults ≡ [] → vms_of id db ≡ [] → list_managed_vms id db ≡ (ok [], db)
unfolding list_managed_vms
list_none id db h e = ground (arith, h, e)

-- The first row of an ID is live, so some row is.
live_found :
    (id : ℕ) (d : Deployment) (rows : List Deployment)
    → find (dep_has_id id) rows ≡ some d
    → is_deleted d.status ≡ false
    → any (live_with_id d.id) rows ≡ true
unfolding find any
live_found id d [] h live = cc
live_found id d (r ∷ rows) h live = elim (Bool-cases (r.id == id)) [
  | inl hit ↦
      let off : some r ≡ some d = rw hit at h in let same : r ≡ d = cc in ground (arith, same, live)
  | inr miss ↦ ground (arith, live_found id d rows (rw miss at h) live)
]

abbrev torn_down : (ℕ → Name) → Deployment → Orch → Orch
torn_down text d o = record o { db = after_mark text d.id o.db }

teardown-buries :
    (text : ℕ → Name) (id : ℕ) (d : Deployment) (o : Orch)
    → o.db.faults ≡ []
    → find (dep_has_id id) o.db.deployments ≡ some d
    → is_deleted d.status ≡ false
    → vms_of d.id o.db ≡ []
    → dead_name_taken text d.id o.db.deployments ≡ false
    → teardown_deployment text id o ≡ bare 204 (torn_down text d o)
unfolding teardown_deployment
teardown-buries text id d o h there live none_yet free =
    let got : get_deployment id o.db ≡ (ok d, o.db) = read_one id d o.db h there in
    let listed : list_managed_vms d.id o.db ≡ (ok [], o.db) = list_none d.id o.db h none_yet in
    let found = live_found id d o.db.deployments there live in
    rw (got, live, listed, mark-live text d.id o.db h found free) refl

buried_row :
    (text : ℕ → Name) (id : ℕ) (d : Deployment) (o : Orch)
    → find (dep_has_id id) o.db.deployments ≡ some d
    → is_deleted d.status ≡ false
    → find (dep_has_id id) (torn_down text d o).db.deployments ≡ some (buried text (now_of o.db) d)
unfolding after_mark
buried_row text id d o there live =
    find-update_if (dep_has_id id) (live_with_id d.id) (buried text (now_of o.db)) o.db.deployments
      d (λ y. refl) there
    ∙ ap (λ b. some (if b then buried text (now_of o.db) d else d)) mine
  where
    mine : live_with_id d.id d ≡ true
    mine = ground (arith, live)

finish-keeps :
    (id : ℕ) (status : RunStatus) (db : Db)
    → db.faults ≡ []
    → ((finish_run id status db).1.faults ≡ [])
      × ((finish_run id status db).1.clock ≡ db.clock)
      × ((finish_run id status db).1.deployments ≡ db.deployments)
unfolding finish_run update_runs_found
finish-keeps id status db h = (ground arith, ground arith, ground arith)

status_rows :
    (id : ℕ) (status : DeploymentStatus) (db : Db)
    → db.faults ≡ []
    → (set_deployment_status id status db).1.deployments
      ≡ update_where
          (dep_has_id id)
          (λ d. record d { status = status; updated_at = now_of db })
          db.deployments
unfolding set_deployment_status update_deployments_found
status_rows id status db h = ground (arith, h)

-- A row that reads as deleted, after a status.
restated :
    (id : ℕ) (d e : Deployment) (status : DeploymentStatus) (db : Db)
    → db.faults ≡ []
    → find (dep_has_id id) db.deployments ≡ some e
    → e.id ≡ d.id
    → find (dep_has_id id) (set_deployment_status d.id status db).1.deployments
      ≡ some (record e { status = status; updated_at = now_of db })
restated id d e status db h there same =
    ap (find (dep_has_id id)) (status_rows d.id status db h)
    ∙ find-update_if (dep_has_id id) (dep_has_id d.id) _ db.deployments e (λ y. refl) there
    ∙ ap (λ b. some (if b then record e { status = status; updated_at = now_of db } else e)) mine
  where
    mine : dep_has_id d.id e ≡ true
    mine = ground (arith, same)

readied :
    {W : Type 0} (driver : Driver W) (text : ℕ → Name) (id : ℕ) (d : Deployment) (run : Run)
    (o : Orch) (world : W)
    → o.db.faults ≡ []
    → find (dep_has_id id) o.db.deployments ≡ some d
    → is_deleted d.status ≡ false
    → run.run_type ≡ deploy
    → find
        (dep_has_id id)
        (succeed_job driver text d run
          (record { orch = torn_down text d o; world = world })).orch.db.deployments
      ≡ some (record (buried text (now_of o.db) d) { status = ready })
unfolding succeed_job after_mark
readied driver text id d run o world h there live job =
    let db = (torn_down text d o).db in
    let (f, c, k) = finish-keeps run.id run_succeeded db h in
    rw job (
      restated id d (buried text (now_of o.db) d) ready (finish_run run.id run_succeeded db).1 f
        (ap (find (dep_has_id id)) k ∙ buried_row text id d o there live) refl
      ∙ ap
          (λ t.
            some (record (buried text (now_of o.db) d) {
              status = ready;
              updated_at = t - t % second;
            }))
          c)

-- A request to tear down a deployment that has no VM row yet is answered with 204 and marks the deployment as
-- deleted, where no statement fails and no other deployment has its name for the dead, whatever job the deployment has: the job goes on, and when it is a deploy
-- job that succeeds, the deployment with its name for the dead is ready again.
pub teardown_beside_job :
    {W : Type 0} (driver : Driver W) (text : ℕ → Name) (id : ℕ) (d : Deployment) (run : Run)
    (o : Orch) (world : W)
    → o.db.faults ≡ []
    → find (dep_has_id id) o.db.deployments ≡ some d
    → is_deleted d.status ≡ false
    → vms_of d.id o.db ≡ []
    → dead_name_taken text d.id o.db.deployments ≡ false
    → run.run_type ≡ deploy
    → ((teardown_deployment text id o).0.code ≡ 204)
      × (find (dep_has_id id) (teardown_deployment text id o).1.db.deployments
          ≡ some (buried text (now_of o.db) d))
      × ((teardown_deployment text id o).1.active ≡ o.active)
      × (find
            (dep_has_id id)
            (succeed_job driver text d run (record {
              orch = (teardown_deployment text id o).1;
              world = world;
            })).orch.db.deployments
          ≡ some (record (buried text (now_of o.db) d) { status = ready }))
teardown_beside_job driver text id d run o world h there live none_yet free job =
    rw (teardown-buries text id d o h there live none_yet free) (
      refl,
      buried_row text id d o there live,
      refl,
      readied driver text id d run o world h there live job,
    )
