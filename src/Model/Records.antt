-- ===== src/Model/Records.antt =====
-- internal/model/model.go: the records that internal/store keeps. An identifier is a number, 0 for
-- the empty string; a time counts nanoseconds.
use ghostfleet.Base.{ℕ, Bool, true, false, Option, List, Name, ◌*◌, name_eq}
use ghostfleet.Base.Monad.{Error}
use ghostfleet.Model.Spec.{ProfileSpec}

abbrev pub second : ℕ
second = 1000000000

abbrev pub minute : ℕ
minute = 60 * second

pub data DeploymentStatus : Type 0 where
  new deploying ready error deleting deleted : DeploymentStatus

pub data Origin : Type 0 where
  created adopted : Origin

-- The placement's "datastore" value, and its other keys.
pub record Placement : Type 0 where
  pub datastore : Name
  pub others : List (Name × Name)

pub record Deployment : Type 0 where
  pub id : ℕ
  pub name : Name
  pub profile_id : ℕ
  pub profile_version : ℕ
  pub connection_id : ℕ
  pub spec : ProfileSpec
  pub placement : Placement
  pub status : DeploymentStatus
  pub origin : Origin
  pub created_at : ℕ
  pub updated_at : ℕ

pub data AgentStatus : Type 0 where
  offline online : AgentStatus

pub data DataState : Type 0 where
  unknown_data empty partial filled : DataState

-- "" is `unassigned`.
pub data FillStatus : Type 0 where
  unassigned pending working done failed : FillStatus

-- The messages of `fill_error`; an agent's own text is `agent_error`, never empty.
pub data FillError : Type 0 where
  no_error cancelled_note never_registered : FillError
  agent_error : Name → FillError

pub record ManagedVm : Type 0 where
  pub id : ℕ
  pub deployment_id : ℕ
  pub name : Name
  pub ref : ℕ
  pub disk_count : ℕ
  pub disk_size_gib : ℕ
  pub mac : Name
  pub boot_token : ℕ
  pub agent_status : AgentStatus
  pub agent_seen_at : Option ℕ
  pub data_state : DataState
  pub data_run_id : ℕ
  pub data_manifest : Bool
  pub data_seen_at : Option ℕ
  pub fill_run_id : ℕ
  pub fill_status : FillStatus
  pub bytes_written : ℕ
  pub bytes_total : ℕ
  pub mbps : ℕ
  pub fill_error : FillError

-- `other_type` is any text but the constants'.
pub data RunType : Type 0 where
  deploy initial_fill incremental verify scale_up teardown power_on power_off : RunType
  other_type : Name → RunType

pub data RunStatus : Type 0 where
  run_pending run_running run_succeeded run_failed run_cancelled : RunStatus

pub record Run : Type 0 where
  pub id : ℕ
  pub deployment_id : ℕ
  pub run_type : RunType
  pub status : RunStatus
  pub started_at : Option ℕ
  pub finished_at : Option ℕ
  pub triggered_by : ℕ

-- `other_kind` is any text but the constants'.
pub data Kind : Type 0 where
  every daily once other_kind : Kind

-- The text of `last_result`.
pub data FireResult : Type 0 where
  never_fired fired skipped_deleted skipped_busy deployment_missing : FireResult
  fire_error : Error → FireResult

pub record Schedule : Type 0 where
  pub id : ℕ
  pub deployment_id : ℕ
  pub action : RunType
  pub kind : Kind
  pub spec : Name
  pub timezone : Name
  pub enabled : Bool
  pub next_run_at : Option ℕ
  pub last_fired_at : Option ℕ
  pub last_run_id : ℕ
  pub last_result : FireResult
  pub updated_at : ℕ

pub data DiscoveredStatus : Type 0 where
  seen taken : DiscoveredStatus

abbrev pub is_pending : FillStatus → Bool
is_pending pending = true
is_pending _ = false

abbrev pub is_working : FillStatus → Bool
is_working working = true
is_working _ = false

abbrev pub is_done : FillStatus → Bool
is_done done = true
is_done _ = false

abbrev pub is_failed : FillStatus → Bool
is_failed failed = true
is_failed _ = false

abbrev pub is_running : RunStatus → Bool
is_running run_running = true
is_running _ = false

abbrev pub is_succeeded : RunStatus → Bool
is_succeeded run_succeeded = true
is_succeeded _ = false

abbrev pub is_filled : DataState → Bool
is_filled filled = true
is_filled _ = false

abbrev pub is_deleted : DeploymentStatus → Bool
is_deleted deleted = true
is_deleted _ = false

abbrev pub is_deleting : DeploymentStatus → Bool
is_deleting deleting = true
is_deleting _ = false

abbrev pub is_ready : DeploymentStatus → Bool
is_ready ready = true
is_ready _ = false

abbrev pub is_adopted : Origin → Bool
is_adopted adopted = true
is_adopted created = false

abbrev pub type_eq : RunType → RunType → Bool
type_eq deploy deploy = true
type_eq initial_fill initial_fill = true
type_eq incremental incremental = true
type_eq verify verify = true
type_eq scale_up scale_up = true
type_eq teardown teardown = true
type_eq power_on power_on = true
type_eq power_off power_off = true
type_eq (other_type a) (other_type b) = name_eq a b
type_eq _ _ = false

-- `Profile` without its spec, which is that of its current version.
pub record ProfileRow : Type 0 where
  pub id : ℕ
  pub name : Name
  pub current_version : ℕ
  pub created_at : ℕ
  pub updated_at : ℕ

pub record ProfileVersion : Type 0 where
  pub profile_id : ℕ
  pub version : ℕ
  pub spec : ProfileSpec
  pub created_at : ℕ

pub record Profile : Type 0 where
  pub row : ProfileRow
  pub spec : ProfileSpec

pub record Connection : Type 0 where
  pub id : ℕ
  pub name : Name
  pub plugin : Name
  pub endpoint : Name
  pub username : Name
  pub insecure_tls : Bool
  pub created_at : ℕ
  pub updated_at : ℕ
