-- ===== src/Samples.antt =====
-- A small fleet, a store with it and the parameters of the model made concrete, for the tests.
use ghostfleet.Base.{
  suc, ℕ, ◌+◌, ◌*◌, ◌/◌, ◌%◌, true, false, List, [], ◌∷◌, none, some, Name, arith, length,
}
use ghostfleet.Base.Monad.{ok}
use ghostfleet.Model.Int.{ℤ, pos}
use ghostfleet.Model.Spec.{SpecOf, ProfileSpec, shutdown, percent}
use ghostfleet.Model.Records.{
  Deployment, ready, created, ManagedVm, FillStatus, Run, Schedule, initial_fill, offline,
  unknown_data, no_error, run_running, daily, never_fired, power_on, pending, second, minute,
  Connection,
}
use ghostfleet.Model.Timer.{Calendar}
use ghostfleet.Model.Recurring.{KeepsDays}
use ghostfleet.Model.Seconds.{IsOnSeconds}
use ghostfleet.Store.Db.{Db}
use ghostfleet.Orch.State.{Orch}
use ghostfleet.Orch.Driver.{Vm, Driver, powered_off}
use ghostfleet.Orch.Fleet.{Site}

abbrev pub spec_of : {N : Type 0} → (ℕ → N) → SpecOf N
spec_of n = record {
  vm_count = n 2;
  name_prefix = b'g' ∷ b'f' ∷ [];
  name_pad = n 4;
  vcpus = n 2;
  memory_mib = n 2048;
  disks_per_vm = n 2;
  disk_size_gib = n 10;
  data_per_disk_gib = n 4;
  thick = false;
  compress_percent = n (50 * percent);
  dedupe_percent = n (20 * percent);
  cross_vm_dedupe_percent = n (25 * percent);
  change_percent = n (5 * percent);
  growth_percent = n percent;
  tag = [];
  after_fill = shutdown;
  rate_limit_mbps = n 100;
  max_parallel_vms = n 1;
}

abbrev pub raw_spec : SpecOf ℤ
raw_spec = spec_of pos

abbrev pub fleet_spec : ProfileSpec
fleet_spec = spec_of (λ n. n)

abbrev pub fleet : Deployment
fleet = record {
  id = 1;
  name = b'f' ∷ [];
  profile_id = 90;
  profile_version = 1;
  connection_id = 91;
  spec = fleet_spec;
  placement = record { datastore = []; others = [] };
  status = ready;
  origin = created;
  created_at = 0;
  updated_at = 0;
}

abbrev pub vm_row : ℕ → FillStatus → ManagedVm
vm_row id status = record {
  id = id;
  deployment_id = 1;
  name = id ∷ [];
  ref = id;
  disk_count = 2;
  disk_size_gib = 10;
  mac = id ∷ [];
  boot_token = id;
  agent_status = offline;
  agent_seen_at = none;
  data_state = unknown_data;
  data_run_id = 0;
  data_manifest = false;
  data_seen_at = none;
  fill_run_id = 5;
  fill_status = status;
  bytes_written = 0;
  bytes_total = 0;
  mbps = 0;
  fill_error = no_error;
}

abbrev pub fill_row : Run
fill_row = record {
  id = 5;
  deployment_id = 1;
  run_type = initial_fill;
  status = run_running;
  started_at = none;
  finished_at = none;
  triggered_by = 0;
}

abbrev pub nightly : Schedule
nightly = record {
  id = 7;
  deployment_id = 1;
  action = power_on;
  kind = daily;
  spec = b'0' ∷ b'2' ∷ b':' ∷ b'3' ∷ b'0' ∷ [];
  timezone = [];
  enabled = true;
  next_run_at = some 100;
  last_fired_at = none;
  last_run_id = 0;
  last_result = never_fired;
  updated_at = 0;
}

abbrev pub lab : Connection
lab = record {
  id = 91;
  name = b'l' ∷ [];
  plugin = b'v' ∷ [];
  endpoint = b'e' ∷ [];
  username = b'u' ∷ [];
  insecure_tls = false;
  created_at = 0;
  updated_at = 0;
}

abbrev pub store : Db
store = record {
  profiles =
      record { id = 90; name = b'p' ∷ []; current_version = 1; created_at = 0; updated_at = 0 }
      ∷ [];
  versions = record { profile_id = 90; version = 1; spec = fleet_spec; created_at = 0 } ∷ [];
  connections = record { connection = lab; secret_enc = b'x' ∷ [] } ∷ [];
  deployments = fleet ∷ [];
  vms = vm_row 2 pending ∷ vm_row 3 pending ∷ [];
  runs = fill_row ∷ [];
  schedules = nightly ∷ [];
  discovered = [];
  next_id = 10;
  clock = 5 * second;
  faults = [];
}

abbrev pub idle : Orch
idle = record { db = store; active = []; tasks = [] }

-- A day in nanoseconds.
abbrev pub day : ℕ
day = 86400 * second

-- Days of 24 hours from the epoch, in every zone; every duration is an hour.
abbrev pub plain_calendar : Calendar
plain_calendar = record {
  parse_duration = λ n. some (pos (60 * minute));
  parse_rfc3339 = λ n. none;
  load_location = λ n. none;
  utc = 0;
  day_at = λ zone now i hour min.
      (now / day + i) * day + (hour % 24) * (60 * minute) + (min % 60) * minute;
  weekday = λ zone t. t / day % 7;
}

pub plain-KeepsDays : (zone now hour min : ℕ) → KeepsDays plain_calendar zone now hour min
plain-KeepsDays zone now hour min = record {
  later = λ i h. omega (arith, h);
  weekdays = λ i. omega arith;
}

pub plain-IsOnSeconds : IsOnSeconds plain_calendar
plain-IsOnSeconds zone now i hour min = omega arith

-- A hash and a hypervisor in which every VM is off.
abbrev pub length_hash : Name → ℕ
length_hash n = length n

abbrev pub cold_vm : ℕ → Vm
cold_vm ref = record {
  ref = ref;
  name = ref ∷ [];
  state = powered_off;
  disk_count = 2;
  mac = ref ∷ [];
  owner_id = 1;
  owner_name = [];
}

abbrev pub cold : Driver (List ℕ)
cold = record {
  open_driver = λ id w. (ok tt, w);
  create_vm = λ spec w. (ok (suc (length w)), w);
  add_disks = λ ref disks w. (ok tt, w);
  extend_disks = λ ref size w. (ok tt, w);
  get_vm = λ ref w. (ok (some (cold_vm ref)), w);
  find_vms = λ place names w. (ok [], w);
  find_vm_by_mac = λ mac w. (ok (some (cold_vm 4)), w);
  read_console = λ ref w. (ok [], w);
  delete_vm = λ ref w. (ok tt, w);
  power_on = λ ref w. (ok tt, ref ∷ w);
  power_off = λ ref w. (ok tt, w);
}

abbrev pub cold_site : Site (List ℕ)
cold_site = record { orch = idle; world = [] }
