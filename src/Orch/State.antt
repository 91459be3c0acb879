-- ===== src/Orch/State.antt =====
-- internal/orch: the orchestrator's state: the store, the active jobs and the goroutines started.
use ghostfleet.Base.{ℕ, Bool, List}
use ghostfleet.Base.Monad.{Result, ok, M}
use ghostfleet.Model.Records.{Deployment, ManagedVm, Run}
use ghostfleet.Store.Db.{Db}

-- `model.OnConflict*`.
pub data OnConflict : Type 0 where
  on_abort on_adopt on_clean : OnConflict

-- What a goroutine runs.
pub data Work : Type 0 where
  reconciles : OnConflict → Work
  tears_down : Work
  powers : Bool → Work
  fills : List ManagedVm → Work

pub record Task : Type 0 where
  pub deployment : Deployment
  pub run : Run
  pub work : Work

-- An entry of `active`, with whether its context is cancelled.
pub record Job : Type 0 where
  pub deployment_id : ℕ
  pub cancelled : Bool

pub record Orch : Type 0 where
  pub db : Db
  pub active : List Job
  pub tasks : List Task

abbrev pub lift_at : {A : Type 0} → Orch → Result A × Db → Result A × Orch
lift_at o (r, db) = (r, record o { db = db })

-- A call of the store.
abbrev pub lift : {A : Type 0} → M Db A → M Orch A
lift m o = lift_at o (m o.db)

-- A call of the store whose error is dropped.
abbrev pub quiet : {A : Type 0} → M Db A → M Orch (Unit {0})
quiet m o = (ok tt, record o { db = (m o.db).1 })
