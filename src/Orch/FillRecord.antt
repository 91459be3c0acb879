-- ===== src/Orch/FillRecord.antt =====
-- What a poll of runFill (internal/orch/fill.go) that ends leaves in the store.
use ghostfleet.Base.{ℕ, ◌≤◌, ◌≡◌, [], some, find}
use ghostfleet.Model.Records.{Run, RunStatus, run_succeeded}
use ghostfleet.Store.Db.{Db, now_of}
use ghostfleet.Store.Runs.{run_has_id}
use ghostfleet.Orch.Driver.{Driver}
use ghostfleet.Orch.Watch.{Outcome, goes_on, ended, Progress}

-- The steps of a poll before its end write no run.
record Calm (db db' : Db) : Type 0 where
  pub runs : db'.runs ≡ db.runs
  pub clock : db'.clock ≡ db.clock
  pub faults : db.faults ≡ [] → db'.faults ≡ []

-- The row of a run that ended.
abbrev pub ended_row : RunStatus → ℕ → Run → Run
ended_row status t r = record r { status = status; finished_at = some t }

module _ {W : Type 0} (driver : Driver W) where
  -- What an outcome that ended records, with the counts it is judged by.
  abbrev pub Recorded : Run → Run → ℕ → Progress → Db → Outcome W → Type 0
  Recorded run r total p db₀ (goes_on l s) = Unit
  Recorded run r total p db₀ (ended status s) =
      (find (run_has_id run.id) s.orch.db.runs ≡ some (ended_row status (now_of db₀) r))
      × (status ≡ run_succeeded → (p.failed_vms ≡ 0) × (total ≤ p.done_vms))
