-- ===== src/Store/Deletion.antt =====
-- MarkDeploymentDeleted of internal/store/deployments.go.
use ghostfleet.Base.{ℕ, ◌≡◌, true, false, not, [], arith, any, ◌==◌, Name, update_where, select}
use ghostfleet.Base.Monad.{ok}
use ghostfleet.Model.Records.{Schedule}
use ghostfleet.Store.Db.{Db, now_of}
use ghostfleet.Store.Deployments.{
  live_with_id, buried, delete_deployment_schedules, mark_deployment_deleted, bury, dead_name_taken,
}

abbrev pub NotOf : ℕ → Schedule → Type 0
NotOf id s = (s.deployment_id == id) ≡ false

unfoldable pub after_mark : (ℕ → Name) → ℕ → Db → Db
after_mark text id db = record db {
  deployments = update_where (live_with_id id) (buried text (now_of db)) db.deployments;
  schedules = select (λ s. not (s.deployment_id == id)) db.schedules;
}

pub mark-live :
    (text : ℕ → Name) (id : ℕ) (db : Db)
    → db.faults ≡ []
    → any (live_with_id id) db.deployments ≡ true
    → dead_name_taken text id db.deployments ≡ false
    → mark_deployment_deleted text id db ≡ (ok tt, after_mark text id db)
unfolding mark_deployment_deleted bury delete_deployment_schedules after_mark
mark-live text id db h e n = ground (arith, e, n)
