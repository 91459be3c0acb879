-- ===== src/Store/Schedules.antt =====
-- internal/store/schedules.go: the statements over schedules.
use ghostfleet.Base.{
  ℕ, ◌-◌, ◌%◌, Name, Bool, true, false, ◌&&◌, List, [], ◌∷◌, ◌++◌, Option, none, some, ◌==◌, leb,
  select, find, any, sort_by, delete_where,
}
use ghostfleet.Base.Monad.{ok, M, ◌>>=◌, ◌>>◌}
use ghostfleet.Model.Records.{Schedule, RunType, Kind, FireResult, never_fired, second}
use ghostfleet.Store.Db.{Db, stmt, new_id, now, affecting, update_schedules_found, row_or_none}

abbrev pub sched_has_id : ℕ → Schedule → Bool
sched_has_id id s = s.id == id

-- nullableTime: times are stored in whole seconds.
abbrev pub in_seconds : ℕ → ℕ
in_seconds t = t - t % second

abbrev pub nullable_time : Option ℕ → Option ℕ
nullable_time none = none
nullable_time (some t) = some (in_seconds t)

-- CreateSchedule, of the fields that its caller sets.
unfoldable pub create_schedule : ℕ → RunType → Kind → Name → Name → Bool → Option ℕ → M Db Schedule
create_schedule dep action kind spec timezone enabled next = do
  id ← new_id
  t ← now
  stmt
  λ db.
      let row : Schedule = record {
        id = id;
        deployment_id = dep;
        action = action;
        kind = kind;
        spec = spec;
        timezone = timezone;
        enabled = enabled;
        next_run_at = next;
        last_fired_at = none;
        last_run_id = 0;
        last_result = never_fired;
        updated_at = t;
      } in
      (
        ok row,
        record db {
          schedules = db.schedules ++ (record row { next_run_at = nullable_time next } ∷ []);
        },
      )

-- The fire history stays as it is.
unfoldable pub update_schedule :
    ℕ → RunType → Kind → Name → Name → Bool → Option ℕ → M Db (Unit {0})
update_schedule id action kind spec timezone enabled next = do
  t ← now
  update_schedules_found (sched_has_id id) (λ s. record s {
    action = action;
    kind = kind;
    spec = spec;
    timezone = timezone;
    enabled = enabled;
    next_run_at = nullable_time next;
    updated_at = t;
  })

abbrev pub is_set : Option ℕ → Bool
is_set none = false
is_set (some t) = true

abbrev pub advanced : FireResult → ℕ → ℕ → Option ℕ → ℕ → Schedule → Schedule
advanced result run_id fired_at next t s = record s {
  last_fired_at = some (in_seconds fired_at);
  last_run_id = run_id;
  last_result = result;
  next_run_at = nullable_time next;
  enabled = is_set next;
  updated_at = t;
}

unfoldable pub advance_schedule : ℕ → FireResult → ℕ → ℕ → Option ℕ → M Db (Unit {0})
advance_schedule id result run_id fired_at next = do
  t ← now
  update_schedules_found (sched_has_id id) (advanced result run_id fired_at next t)

unfoldable pub delete_schedule : ℕ → M Db (Unit {0})
delete_schedule id = do
  stmt
  λ db.
      affecting (any (sched_has_id id) db.schedules)
        (record db { schedules = delete_where (sched_has_id id) db.schedules })

unfoldable pub get_schedule : ℕ → M Db Schedule
get_schedule id = do stmt; λ db. row_or_none (find (sched_has_id id) db.schedules) db

-- `next_run_at IS NOT NULL AND next_run_at <= t`
abbrev pub reached : Option ℕ → ℕ → Bool
reached none t = false
reached (some n) t = leb n t

abbrev pub is_due : ℕ → Schedule → Bool
is_due t s = s.enabled && reached s.next_run_at t

abbrev pub fires_before : Schedule → Schedule → Bool
fires_before a b = before a.next_run_at b.next_run_at
  where
    before : Option ℕ → Option ℕ → Bool
    before none y = true
    before (some x) none = false
    before (some x) (some y) = leb x y

unfoldable pub list_due_schedules : ℕ → M Db (List Schedule)
list_due_schedules t = do
  stmt
  λ db. (ok (sort_by fires_before (select (is_due t) db.schedules)), db)
