-- ===== src/Store/Discovered.antt =====
-- internal/store/discovered_vms.go: the statements over discovered_vms.
use ghostfleet.Base.{
  ℕ, Bool, List, [], ◌∷◌, ◌++◌, none, some, Name, name_eq, ◌==◌, if◌then◌else◌, find, any,
  update_where, delete_where,
}
use ghostfleet.Base.Monad.{ok, M, ◌>>=◌, ◌>>◌}
use ghostfleet.Model.Records.{DiscoveredStatus, seen}
use ghostfleet.Datagen.Report.{DiscoveryDisk}
use ghostfleet.Store.Db.{
  Db, DiscoveredVm, no_report, report, stmt, new_id, now, to_lower, affecting, row_or_none,
}

abbrev pub disc_has_id : ℕ → DiscoveredVm → Bool
disc_has_id id v = v.id == id

unfoldable pub update_discovered :
    (DiscoveredVm → Bool) → (DiscoveredVm → DiscoveredVm) → M Db (Unit {0})
update_discovered p f = do
  stmt
  λ db. affecting (any p db.discovered) (record db { discovered = update_where p f db.discovered })

unfoldable pub has_mac : Name → DiscoveredVm → Bool
has_mac mac v = name_eq v.mac mac

-- INSERT … ON CONFLICT(mac) DO UPDATE.
unfoldable pub upsert : Name → ℕ → ℕ → ℕ → Db → Db
unfolding has_mac
upsert mac id token t db =
    if any (has_mac mac) db.discovered
    then record db {
      discovered = update_where (has_mac mac) (λ v. record v { last_seen_at = t }) db.discovered;
    }
    else record db { discovered = db.discovered ++ (fresh ∷ []) }
  where
    fresh : DiscoveredVm
    fresh = record {
      id = id;
      mac = mac;
      token = token;
      status = seen;
      inspection = no_report;
      first_seen_at = t;
      last_seen_at = t;
      agent_seen_at = none;
    }

unfoldable pub ensure_discovered_vm : Name → M Db DiscoveredVm
unfolding upsert
ensure_discovered_vm mac = do
  t ← now
  id ← new_id
  token ← new_id
  stmt
  λ db. (ok tt, upsert (to_lower mac) id token t db)
  stmt
  λ db. row_or_none (find (has_mac (to_lower mac)) db.discovered) db

unfoldable pub get_discovered_vm : ℕ → M Db DiscoveredVm
get_discovered_vm id = do stmt; λ db. row_or_none (find (disc_has_id id) db.discovered) db

unfoldable pub get_discovered_vm_by_token : ℕ → M Db DiscoveredVm
get_discovered_vm_by_token token = do
  stmt
  λ db. row_or_none (find (λ v. v.token == token) db.discovered) db

unfoldable pub set_discovered_inspection : ℕ → List DiscoveryDisk → M Db (Unit {0})
unfolding update_discovered
set_discovered_inspection id disks = do
  t ← now
  update_discovered (disc_has_id id)
      (λ v. record v { inspection = report disks; last_seen_at = t; agent_seen_at = some t })

-- The affected rows are not checked.
unfoldable pub touch_discovered_agent : ℕ → M Db (Unit {0})
touch_discovered_agent id = do
  t ← now
  stmt
  λ db. (
    ok tt,
    record db {
      discovered =
          update_where (disc_has_id id) (λ v. record v { last_seen_at = t; agent_seen_at = some t })
            db.discovered;
    },
  )

unfoldable pub set_discovered_status : ℕ → DiscoveredStatus → M Db (Unit {0})
unfolding update_discovered
set_discovered_status id status =
    update_discovered (disc_has_id id) (λ v. record v { status = status })

unfoldable pub delete_discovered_vm : ℕ → M Db (Unit {0})
delete_discovered_vm id = do
  stmt
  λ db. (ok tt, record db { discovered = delete_where (disc_has_id id) db.discovered })
