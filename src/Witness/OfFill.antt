-- ===== src/Witness/OfFill.antt =====
-- Applications to the fill of a fleet whose VMs never boot (internal/orch/fill.go).
use ghostfleet.Base.{
  Option, none, ℕ, suc, zero, ◌+◌, ◌*◌, ◌≤◌, ◌≡◌, refl, false, List, [], ◌∷◌, some, All, length,
  replicate, arith,
}
use ghostfleet.Model.Records.{ManagedVm, RunStatus, pending, done, second, run_succeeded}
use ghostfleet.Store.Vms.{vms_of}
use ghostfleet.Orch.Fleet.{Site, boot_vm}
use ghostfleet.Orch.Watch.{
  Loop, Outcome, ended, judge, goes_on, max_boot_attempts, boot_tries, watch_vm, poll, progress_of,
}
use ghostfleet.Orch.FillRun.{Wake, begin, polls, boot_all, run_fill}
use ghostfleet.Orch.FillEnds.{IsEnded, Advances, run_fill_ends}
use ghostfleet.Orch.FillBoots.{run_fill_boots, CountsBoot, BootedOnce}
use ghostfleet.Samples.{fleet, vm_row, fill_row, store, cold, cold_site}

abbrev vms : List ManagedVm
vms = vm_row 2 pending ∷ vm_row 3 pending ∷ []

-- An hour passes between two polls, and nothing else happens.
abbrev slow : Wake (List ℕ)
slow = record {
  others = λ s. record s {
    orch = record (s.orch) { db = record (s.orch.db) { clock = s.orch.db.clock + 3600 * second } };
  };
  cancelled = false;
}

slow-Advances : (n : ℕ) → All (Advances cold fleet fill_row vms) (replicate n slow)
slow-Advances zero = tt
slow-Advances (suc n) = ((λ s. omega arith), slow-Advances n)

length-slow : (n : ℕ) → length (replicate n slow) ≡ n
length-slow zero = refl
length-slow (suc n) = omega (arith, length-slow n)

run_fill_ends_example : IsEnded (run_fill cold fleet fill_row vms (replicate 9000 slow) cold_site)
run_fill_ends_example =
    run_fill_ends cold fleet fill_row vms (replicate 9000 slow) cold_site (slow-Advances 9000)
      (omega (arith, length-slow 9000))

abbrev first_loop : Loop
first_loop = record {
  start = 5 * second;
  boots =
      record { vm_id = 2; at = 5 * second; tries = 1 }
      ∷ record { vm_id = 3; at = 5 * second; tries = 1 }
      ∷ [];
  last_progress = 5 * second;
  prev_written = 0;
}

abbrev booted : Site (List ℕ)
booted = record cold_site { world = 3 ∷ 2 ∷ [] }

begins : run_fill cold fleet fill_row vms [] cold_site ≡ goes_on first_loop booted
unfolding run_fill begin polls boot_all boot_vm
begins = refl

run_fill_boots_example :
    (boot_tries 3 first_loop.boots ≤ max_boot_attempts)
    × ((now : ℕ) (vm : ManagedVm) (l : Loop) (s : Site (List ℕ))
        → CountsBoot cold fleet fill_row vms vm (l, s) (watch_vm cold now vm (l, s)))
    × BootedOnce cold fleet fill_row vms (run_fill cold fleet fill_row vms [] cold_site)
run_fill_boots_example =
    run_fill_boots cold fleet fill_row vms [] cold_site booted first_loop 3 begins

-- Both VMs report their fill as done.
abbrev filled_site : Site (List ℕ)
filled_site = record booted {
  orch = record (booted.orch) { db = record store { vms = vm_row 2 done ∷ vm_row 3 done ∷ [] } };
}

-- How a poll ends, if it does.
abbrev status_of : Outcome (List ℕ) → Option RunStatus
status_of (goes_on l s) = none
status_of (ended status s) = some status

poll_succeeds : status_of (poll cold fleet fill_row 2 first_loop filled_site) ≡ some run_succeeded
unfolding poll progress_of judge vms_of ghostfleet.Store.Vms.list_managed_vms
    ghostfleet.Base.sort_by ghostfleet.Base.select ghostfleet.Store.Vms.name_le
    ghostfleet.Orch.Watch.watch
poll_succeeds = refl
