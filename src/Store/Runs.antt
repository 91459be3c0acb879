-- ===== src/Store/Runs.antt =====
-- internal/store: the statements over runs.
use ghostfleet.Base.{
  ℕ, Bool, ◌&&◌, List, [], ◌∷◌, ◌++◌, Option, none, some, ◌==◌, select, find, count, ltb,
}
use ghostfleet.Base.Monad.{ok, M, ◌>>=◌, ◌>>◌}
use ghostfleet.Model.Records.{
  Run, RunType, RunStatus, run_pending, run_running, is_running, is_succeeded, type_eq,
}
use ghostfleet.Store.Db.{Db, stmt, new_id, now, update_runs_found, row_or_none}

abbrev pub run_has_id : ℕ → Run → Bool
run_has_id id r = r.id == id

unfoldable pub create_run : ℕ → RunType → M Db Run
create_run dep ty = do
  id ← new_id
  stmt
  λ db.
      let r : Run = record {
        id = id;
        deployment_id = dep;
        run_type = ty;
        status = run_pending;
        started_at = none;
        finished_at = none;
        triggered_by = 0;
      } in
      (ok r, record db { runs = db.runs ++ (r ∷ []) })

-- COALESCE(started_at, t).
abbrev pub coalesce : Option ℕ → ℕ → Option ℕ
coalesce none t = some t
coalesce (some s) t = some s

unfoldable pub start_run : ℕ → M Db (Unit {0})
start_run id = do
  t ← now
  update_runs_found (run_has_id id)
      (λ r. record r { status = run_running; started_at = coalesce r.started_at t })

unfoldable pub finish_run : ℕ → RunStatus → M Db (Unit {0})
finish_run id status = do
  t ← now
  update_runs_found (run_has_id id) (λ r. record r { status = status; finished_at = some t })

unfoldable pub set_run_trigger : ℕ → ℕ → M Db (Unit {0})
set_run_trigger run_id schedule_id =
    update_runs_found (run_has_id run_id) (λ r. record r { triggered_by = schedule_id })

unfoldable pub get_run : ℕ → M Db Run
get_run id = do stmt; λ db. row_or_none (find (run_has_id id) db.runs) db

-- Runs are kept oldest first, so ORDER BY created_at is the table's order.
unfoldable pub list_running_runs : M Db (List Run)
list_running_runs = do stmt; λ db. (ok (select (λ r. is_running r.status) db.runs), db)

abbrev pub succeeded_as : ℕ → RunType → Run → Bool
succeeded_as dep ty r = r.deployment_id == dep && type_eq r.run_type ty && is_succeeded r.status

unfoldable pub has_succeeded_run : ℕ → RunType → M Db Bool
has_succeeded_run dep ty = do stmt; λ db. (ok (ltb 0 (count (succeeded_as dep ty) db.runs)), db)
