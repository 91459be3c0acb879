-- ===== src/Store/Vms.antt =====
-- internal/store/managed_vms.go: the statements over managed_vms.
use ghostfleet.Base.{
  ℕ, Bool, true, false, ◌&&◌, ◌||◌, not, List, [], ◌∷◌, none, some, Name, name_eq, ◌==◌,
  if◌then◌else◌, select, find, count, any, sort_by, update_where, delete_where, ltb, ◌++◌,
}
use ghostfleet.Base.Monad.{ok, err, M, pure, ◌>>=◌, ◌>>◌, db_failure}
use ghostfleet.Model.Records.{
  ManagedVm, Run, DataState, FillStatus, FillError, offline, online, unknown_data, filled,
  unassigned, pending, working, done, failed, no_error, cancelled_note, agent_error, is_done,
  is_pending, is_working, type_eq, initial_fill, incremental,
}
use ghostfleet.Store.Db.{Db, stmt, new_id, now, to_lower, update_vms, update_vms_found, row_or_none}

-- `name <= name'` in SQLite's binary order.
unfoldable pub name_le : Name → Name → Bool
name_le [] bs = true
name_le (a ∷ as') [] = false
name_le (a ∷ as') (b ∷ bs) = ltb a b || (a == b && name_le as' bs)

abbrev pub has_id : ℕ → ManagedVm → Bool
has_id id v = v.id == id

abbrev pub same_place : ℕ → Name → ManagedVm → Bool
same_place dep name v = v.deployment_id == dep && name_eq v.name name

-- The row that AddManagedVM inserts, of the fields that its callers give.
abbrev pub new_vm : ℕ → Name → ℕ → Name → ℕ → ℕ → ℕ → ℕ → ManagedVm
new_vm dep name ref mac disk_count disk_size_gib id token = record {
  id = id;
  deployment_id = dep;
  name = name;
  ref = ref;
  disk_count = disk_count;
  disk_size_gib = disk_size_gib;
  mac = to_lower mac;
  boot_token = token;
  agent_status = offline;
  agent_seen_at = none;
  data_state = unknown_data;
  data_run_id = 0;
  data_manifest = false;
  data_seen_at = none;
  fill_run_id = 0;
  fill_status = unassigned;
  bytes_written = 0;
  bytes_total = 0;
  mbps = 0;
  fill_error = no_error;
}

-- AddManagedVM. A deployment's VM names are UNIQUE.
unfoldable pub add_managed_vm : ℕ → Name → ℕ → Name → ℕ → ℕ → M Db ℕ
add_managed_vm dep name ref mac disk_count disk_size_gib = do
  id ← new_id
  token ← new_id
  stmt
  λ db. if any (same_place dep name) db.vms then (err db_failure, db) else (
    ok id,
    record db { vms = db.vms ++ (new_vm dep name ref mac disk_count disk_size_gib id token ∷ []) },
  )

unfoldable pub update_managed_vm_disks : ℕ → ℕ → ℕ → M Db (Unit {0})
update_managed_vm_disks id disk_count disk_size_gib =
    update_vms_found (has_id id)
      (λ v. record v { disk_count = disk_count; disk_size_gib = disk_size_gib })

unfoldable pub touch_agent : ℕ → M Db (Unit {0})
touch_agent id = do
  t ← now
  update_vms_found (has_id id) (λ v. record v { agent_status = online; agent_seen_at = some t })

unfoldable pub reset_agent : ℕ → M Db (Unit {0})
reset_agent id =
    update_vms_found (has_id id) (λ v. record v { agent_status = offline; agent_seen_at = none })

-- The four single-row reads: by ID, boot token, MAC and name.
unfoldable pub get_vm_where : (ManagedVm → Bool) → M Db ManagedVm
get_vm_where p = do stmt; λ db. row_or_none (find p db.vms) db

unfoldable pub get_managed_vm : ℕ → M Db ManagedVm
get_managed_vm id = get_vm_where (has_id id)

unfoldable pub get_managed_vm_by_token : ℕ → M Db ManagedVm
get_managed_vm_by_token token = get_vm_where (λ v. v.boot_token == token)

unfoldable pub get_managed_vm_by_mac : Name → M Db ManagedVm
get_managed_vm_by_mac mac = get_vm_where (λ v. name_eq v.mac (to_lower mac))

unfoldable pub get_managed_vm_by_name : ℕ → Name → M Db ManagedVm
get_managed_vm_by_name dep name = get_vm_where (same_place dep name)

unfoldable pub set_vm_data_state : ℕ → DataState → ℕ → Bool → M Db (Unit {0})
set_vm_data_state id state run_id manifest = do
  t ← now
  update_vms_found (has_id id) (λ v. record v {
    data_state = state;
    data_run_id = run_id;
    data_manifest = manifest;
    data_seen_at = some t;
  })

abbrev pub rebound : Name → ℕ → ManagedVm → ManagedVm
rebound mac ref v = record v {
  mac = to_lower mac;
  ref = ref;
  agent_status = offline;
  agent_seen_at = none;
  data_state = unknown_data;
  data_run_id = 0;
  data_manifest = false;
  data_seen_at = none;
}

unfoldable pub rebind_managed_vm : ℕ → Name → ℕ → M Db (Unit {0})
rebind_managed_vm id mac ref = update_vms_found (has_id id) (rebound mac ref)

unfoldable pub delete_managed_vm : ℕ → M Db (Unit {0})
delete_managed_vm id = do stmt; λ db. (ok tt, record db { vms = delete_where (has_id id) db.vms })

abbrev pub in_deployment : ℕ → ManagedVm → Bool
in_deployment dep v = v.deployment_id == dep

unfoldable pub vms_of : ℕ → Db → List ManagedVm
vms_of dep db = sort_by (λ a b. name_le a.name b.name) (select (in_deployment dep) db.vms)

unfoldable pub list_managed_vms : ℕ → M Db (List ManagedVm)
list_managed_vms dep = do stmt; λ db. (ok (vms_of dep db), db)

abbrev pub assigned_fill : ℕ → ℕ → ManagedVm → ManagedVm
assigned_fill run_id total v = record v {
  fill_run_id = run_id;
  fill_status = pending;
  bytes_written = 0;
  bytes_total = total;
  mbps = 0;
  fill_error = no_error;
}

unfoldable pub assign_fill : ℕ → ℕ → ℕ → M Db (Unit {0})
assign_fill vm_id run_id total = update_vms (has_id vm_id) (assigned_fill run_id total)

unfoldable pub set_fill_total : ℕ → ℕ → M Db (Unit {0})
set_fill_total vm_id total =
    update_vms (λ v. v.id == vm_id && not (v.bytes_total == total))
      (λ v. record v { bytes_total = total })

abbrev pub fills_as : ℕ → (FillStatus → Bool) → ManagedVm → Bool
fills_as run_id p v = v.fill_run_id == run_id && p v.fill_status

unfoldable pub count_fill_status : ℕ → (FillStatus → Bool) → M Db ℕ
count_fill_status run_id p = do stmt; λ db. (ok (count (fills_as run_id p) db.vms), db)

unfoldable pub set_fill_status : ℕ → FillStatus → M Db (Unit {0})
set_fill_status vm_id status = update_vms (has_id vm_id) (λ v. record v { fill_status = status })

unfoldable pub fail_fill_vm : ℕ → FillError → M Db (Unit {0})
fail_fill_vm vm_id msg =
    update_vms (has_id vm_id) (λ v. record v { fill_status = failed; fill_error = msg })

abbrev pub is_unfinished : FillStatus → Bool
is_unfinished s = is_pending s || is_working s

unfoldable pub cancel_unfinished_fills : ℕ → M Db (Unit {0})
cancel_unfinished_fills run_id =
    update_vms (fills_as run_id is_unfinished)
      (λ v. record v { fill_status = failed; fill_error = cancelled_note })

-- The status that a progress report sets; `[]` is the empty error text.
unfoldable pub reported_status : Bool → Name → FillStatus
reported_status done_flag (c ∷ cs) = failed
reported_status true [] = done
reported_status false [] = working

abbrev reported_error : Name → FillError
reported_error [] = no_error
reported_error (c ∷ cs) = agent_error (c ∷ cs)

-- `fill_run_id IN (SELECT id FROM runs WHERE type IN (initial-fill, incremental))`
abbrev pub writes_data : Run → Bool
writes_data r = type_eq r.run_type initial_fill || type_eq r.run_type incremental

abbrev pub of_writing_run : List Run → ManagedVm → Bool
of_writing_run runs v = any (λ r. r.id == v.fill_run_id && writes_data r) runs

abbrev pub progressed : ℕ → ℕ → ℕ → Bool → Name → ManagedVm → ManagedVm
progressed t bytes mbps done_flag msg v = record v {
  bytes_written = bytes;
  mbps = mbps;
  fill_status = reported_status done_flag msg;
  fill_error = reported_error msg;
  agent_status = online;
  agent_seen_at = some t;
}

abbrev pub settled : ℕ → ManagedVm → ManagedVm
settled t v = record v {
  data_state = filled;
  data_run_id = v.fill_run_id;
  data_manifest = true;
  data_seen_at = some t;
}

unfoldable pub settle_data : ℕ → ℕ → M Db (Unit {0})
settle_data vm_id t = do
  stmt
  λ db. (
    ok tt,
    record db {
      vms = update_where (λ v. v.id == vm_id && of_writing_run db.runs v) (settled t) db.vms;
    },
  )

unfoldable pub report_fill_progress : ℕ → ℕ → ℕ → Bool → Name → M Db (Unit {0})
unfolding settle_data
report_fill_progress vm_id bytes mbps done_flag msg = do
  t ← now
  update_vms (has_id vm_id) (progressed t bytes mbps done_flag msg)
  if is_done (reported_status done_flag msg) then settle_data vm_id t else pure tt
