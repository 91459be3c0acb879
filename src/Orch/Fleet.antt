-- ===== src/Orch/Fleet.antt =====
-- internal/orch/fill.go: the power operations of a fill (bootVM, powerCycle, applyAfterFill) and its
-- ends (finishFill, failFill, cancelFill). The hypervisor is a parameter.
use ghostfleet.Base.{
  ℕ, ◌-◌, ◌*◌, Bool, true, false, List, [], ◌∷◌, Option, none, some, ltb, if◌then◌else◌,
}
use ghostfleet.Base.Monad.{Result, ok, err}
use ghostfleet.Model.Spec.{AfterFill, unset, shutdown, keep_running, unknown}
use ghostfleet.Model.Records.{
  Deployment, ManagedVm, Run, RunStatus, run_succeeded, run_failed, run_cancelled, second,
}
use ghostfleet.Store.Db.{Db}
use ghostfleet.Store.Vms.{reset_agent, cancel_unfinished_fills}
use ghostfleet.Store.Runs.{finish_run}
use ghostfleet.Orch.State.{Orch}
use ghostfleet.Orch.Driver.{Driver, Vm, VmState, powered_on, powered_off}

pub record Site (W : Type 0) : Type 0 where
  pub orch : Orch
  pub world : W

abbrev pub agent_fresh_limit : ℕ
agent_fresh_limit = 30 * second

-- `time.Since(t) < limit`, for a heartbeat if there was one.
abbrev pub is_fresh : ℕ → Option ℕ → Bool
is_fresh now none = false
is_fresh now (some t) = ltb (now - t) agent_fresh_limit

abbrev pub state_on : VmState → Bool
state_on powered_on = true
state_on powered_off = false

abbrev pub is_on : Option Vm → Bool
is_on none = false
is_on (some v) = state_on v.state

abbrev pub reads_on : Result (Option Vm) → Bool
reads_on (ok v) = is_on v
reads_on (err e) = false

abbrev pub is_shutdown : AfterFill → Bool
is_shutdown shutdown = true
is_shutdown unset = false
is_shutdown keep_running = false
is_shutdown (unknown n) = false

abbrev pub with_db : {W : Type 0} → (Db → Db) → Site W → Site W
with_db f s = record s { orch = record (s.orch) { db = f s.orch.db } }

-- The errors of FinishRun and CancelUnfinishedFills are dropped or logged.
unfoldable pub end_run : {W : Type 0} → Run → RunStatus → Site W → Site W
end_run run status = with_db (λ db. (finish_run run.id status db).1)

unfoldable pub cancel_fill : {W : Type 0} → Run → Site W → Site W
unfolding end_run
cancel_fill run s =
    end_run run run_cancelled (with_db (λ db. (cancel_unfinished_fills run.id db).1) s)

module _ {W : Type 0} (driver : Driver W) where
  -- Errors of the driver are logged.
  unfoldable pub power_cycle : ManagedVm → W → W
  power_cycle vm w =
      let seen = driver.get_vm vm.ref w in
      let off = if reads_on seen.0 then (driver.power_off vm.ref seen.1).1 else seen.1 in
      (driver.power_on vm.ref off).1

  abbrev pub boot_seen : ℕ → ManagedVm → Result (Option Vm) × W → W
  boot_seen now vm (err e, w) = power_cycle vm w
  boot_seen now vm (ok v, w) =
      if is_on v
      then (if is_fresh now vm.agent_seen_at then w else power_cycle vm w)
      else (driver.power_on vm.ref w).1

  unfoldable pub boot_vm : ℕ → ManagedVm → W → W
  unfolding power_cycle
  boot_vm now vm w = boot_seen now vm (driver.get_vm vm.ref w)

  abbrev pub after_off : ManagedVm → Site W → Result (Unit {0}) × W → Site W
  after_off vm s (err e, w) = record s { world = w }
  after_off vm s (ok u, w) = with_db (λ db. (reset_agent vm.id db).1) (record s { world = w })

  unfoldable pub power_off_all : List ManagedVm → Site W → Site W
  power_off_all [] s = s
  power_off_all (vm ∷ vms) s = power_off_all vms (after_off vm s (driver.power_off vm.ref s.world))

  unfoldable pub apply_after_fill : Deployment → List ManagedVm → Site W → Site W
  unfolding power_off_all
  apply_after_fill d vms s = if is_shutdown d.spec.after_fill then power_off_all vms s else s

  -- The status that finishFill records.
  abbrev pub finish_status : ℕ → RunStatus
  finish_status failed_vms = if ltb 0 failed_vms then run_failed else run_succeeded

  unfoldable pub finish_fill : Deployment → Run → List ManagedVm → ℕ → Site W → Site W
  unfolding apply_after_fill end_run
  finish_fill d run vms failed_vms s =
      end_run run (finish_status failed_vms) (apply_after_fill d vms s)

  -- failFillWithStats, and the power state behind it.
  unfoldable pub fail_fill_after : Deployment → Run → List ManagedVm → Site W → Site W
  unfolding apply_after_fill end_run
  fail_fill_after d run vms s = apply_after_fill d vms (end_run run run_failed s)
