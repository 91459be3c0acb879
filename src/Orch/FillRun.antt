-- ===== src/Orch/FillRun.antt =====
-- internal/orch/fill.go: the whole goroutine of runFill, over the wake-ups of its poll loop.
use ghostfleet.Base.{ℕ, Bool, List, [], ◌∷◌, if◌then◌else◌, map, length, ◌*◌}
use ghostfleet.Base.Monad.{Result, ok, err}
use ghostfleet.Model.Records.{Deployment, ManagedVm, Run, run_failed, run_cancelled, second}
use ghostfleet.Orch.Jobs.{release}
use ghostfleet.Orch.Driver.{Driver}
use ghostfleet.Orch.Fleet.{Site, end_run, cancel_fill, boot_vm}
use ghostfleet.Orch.Watch.{Boot, Loop, Outcome, goes_on, ended, poll}

abbrev pub fill_poll_interval : ℕ
fill_poll_interval = 5 * second

-- One turn of the loop: what the others did since the last one, and whether the job was cancelled.
pub record Wake (W : Type 0) : Type 0 where
  pub others : Site W → Site W
  pub cancelled : Bool

module _ {W : Type 0} (driver : Driver W) where
  unfoldable pub boot_all : ℕ → List ManagedVm → W → W
  boot_all now [] w = w
  boot_all now (vm ∷ vms) w = boot_all now vms (boot_vm driver now vm w)

  abbrev pub first_boot : ℕ → ManagedVm → Boot
  first_boot now vm = record { vm_id = vm.id; at = now; tries = 1 }

  module _ (d : Deployment) (run : Run) (vms : List ManagedVm) where
    abbrev pub opened : Site W → Result (Unit {0}) × W → Outcome W
    opened s (err e, w) = ended run_failed (end_run run run_failed (record s { world = w }))
    opened s (ok u, w) =
        goes_on
          (record {
            start = s.orch.db.clock;
            boots = map (first_boot s.orch.db.clock) vms;
            last_progress = s.orch.db.clock;
            prev_written = 0;
          })
          (record s { world = boot_all s.orch.db.clock vms w })

    unfoldable pub begin : Site W → Outcome W
    unfolding boot_all
    begin s = opened s (driver.open_driver d.connection_id s.world)

    unfoldable pub wake : Wake W → Loop → Site W → Outcome W
    wake e l s =
        if e.cancelled
        then ended run_cancelled (cancel_fill run (e.others s))
        else poll driver d run (length vms) l (e.others s)

    unfoldable pub polls : List (Wake W) → Outcome W → Outcome W
    unfolding wake
    polls [] x = x
    polls (e ∷ es) (ended status s) = ended status s
    polls (e ∷ es) (goes_on l s) = polls es (wake e l s)

    -- `defer o.release(d.ID)`
    abbrev pub released : Outcome W → Outcome W
    released (goes_on l s) = goes_on l s
    released (ended status s) = ended status (record s { orch = release d.id s.orch })

    unfoldable pub run_fill : List (Wake W) → Site W → Outcome W
    unfolding begin polls
    run_fill es s = released (polls es (begin s))
