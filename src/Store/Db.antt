-- ===== src/Store/Db.antt =====
-- internal/store/store.go: the database. A statement can fail (a full disk, a closed handle): the
-- coming failures are a list in the state, and a failed statement changes nothing else. The clock
-- does not move within one operation.
use ghostfleet.Base.{
  ℕ, suc, ◌+◌, ◌-◌, ◌%◌, leb, ◌&&◌, map, Bool, true, false, List, [], ◌∷◌, Option, none, some, Name,
  if◌then◌else◌, update_where, any,
}
use ghostfleet.Base.Monad.{Result, ok, err, M, ◌>>◌, db_failure, not_found}
use ghostfleet.Model.Records.{
  Deployment, ManagedVm, Run, Schedule, DiscoveredStatus, second, ProfileRow, ProfileVersion,
  Connection,
}
use ghostfleet.Datagen.Report.{DiscoveryDisk}

-- The parsed inspection: none before the first report, or text that does not parse.
pub data Inspection : Type 0 where
  no_report unreadable : Inspection
  report : List DiscoveryDisk → Inspection

pub record DiscoveredVm : Type 0 where
  pub id : ℕ
  pub mac : Name
  pub token : ℕ
  pub status : DiscoveredStatus
  pub inspection : Inspection
  pub first_seen_at : ℕ
  pub last_seen_at : ℕ
  pub agent_seen_at : Option ℕ

-- A connection with its encrypted secret.
pub record StoredConnection : Type 0 where
  pub connection : Connection
  pub secret_enc : Name

pub record Db : Type 0 where
  pub profiles : List ProfileRow
  pub versions : List ProfileVersion
  pub connections : List StoredConnection
  pub deployments : List Deployment
  pub vms : List ManagedVm
  pub runs : List Run
  pub schedules : List Schedule
  pub discovered : List DiscoveredVm
  pub next_id : ℕ
  pub clock : ℕ
  pub faults : List Bool

-- One statement: it fails if the next failure is due.
abbrev pub stmt_at : List Bool → Db → Result (Unit {0}) × Db
stmt_at [] db = (ok tt, db)
stmt_at (true ∷ rest) db = (err db_failure, record db { faults = rest })
stmt_at (false ∷ rest) db = (ok tt, record db { faults = rest })

abbrev pub stmt : M Db (Unit {0})
stmt db = stmt_at db.faults db

-- `newID`: fresh, by the 128 random bits of the source.
unfoldable pub new_id : M Db ℕ
new_id db = (ok db.next_id, record db { next_id = suc db.next_id })

-- `now`, in whole seconds.
abbrev pub now_of : Db → ℕ
now_of db = db.clock - db.clock % second

abbrev pub now : M Db ℕ
now db = (ok (now_of db), db)

-- Lower case, for MAC addresses.
abbrev lower_byte : ℕ → ℕ
lower_byte c = if leb b'A' c && leb c b'Z' then c + 32 else c

unfoldable pub to_lower : Name → Name
to_lower = map lower_byte

-- A write that fails with ErrNotFound when it affected no row.
abbrev pub affecting : Bool → Db → Result (Unit {0}) × Db
affecting true db = (ok tt, db)
affecting false db = (err not_found, db)

-- UPDATE managed_vms … WHERE, without and with the check of the affected rows.
unfoldable pub update_vms : (ManagedVm → Bool) → (ManagedVm → ManagedVm) → M Db (Unit {0})
update_vms p f = do stmt; λ db. (ok tt, record db { vms = update_where p f db.vms })

unfoldable pub update_vms_found : (ManagedVm → Bool) → (ManagedVm → ManagedVm) → M Db (Unit {0})
update_vms_found p f = do
  stmt
  λ db. affecting (any p db.vms) (record db { vms = update_where p f db.vms })

unfoldable pub update_runs_found : (Run → Bool) → (Run → Run) → M Db (Unit {0})
update_runs_found p f = do
  stmt
  λ db. affecting (any p db.runs) (record db { runs = update_where p f db.runs })

unfoldable pub update_deployments_found :
    (Deployment → Bool) → (Deployment → Deployment) → M Db (Unit {0})
update_deployments_found p f = do
  stmt
  λ db.
      affecting (any p db.deployments) (record db { deployments = update_where p f db.deployments })

unfoldable pub update_schedules_found : (Schedule → Bool) → (Schedule → Schedule) → M Db (Unit {0})
update_schedules_found p f = do
  stmt
  λ db. affecting (any p db.schedules) (record db { schedules = update_where p f db.schedules })

-- A row, or ErrNotFound.
abbrev pub row_or_none : {S A : Type 0} → Option A → M S A
row_or_none none s = (err not_found, s)
row_or_none (some a) s = (ok a, s)

-- A transaction: the tables are rolled back on an error.
abbrev pub rolled_back : {A : Type 0} → Db → Result A × Db → Result A × Db
rolled_back db (ok a, db') = (ok a, db')
rolled_back db (err e, db') = (err e, record db { faults = db'.faults; next_id = db'.next_id })

abbrev pub transaction : {A : Type 0} → M Db A → M Db A
transaction m db = rolled_back db (m db)
