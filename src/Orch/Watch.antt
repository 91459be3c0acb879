-- ===== src/Orch/Watch.antt =====
-- internal/orch/fill.go: runFill. Its goroutine boots the VMs and then polls; between two polls the
-- other goroutines, the agents and the clock move. The clock stands during one poll.
use ghostfleet.Base.{
  ℕ, suc, ◌+◌, ◌-◌, ◌*◌, Bool, false, ◌&&◌, ◌||◌, List, [], ◌∷◌, Option, none, some, ◌==◌, ltb, leb,
  if◌then◌else◌,
}
use ghostfleet.Base.Monad.{Result, ok, err}
use ghostfleet.Model.Records.{
  Deployment, ManagedVm, Run, RunStatus, FillStatus, unassigned, pending, working, done, failed,
  run_failed, never_registered, second, minute,
}
use ghostfleet.Store.Db.{Db}
use ghostfleet.Store.Vms.{list_managed_vms, fail_fill_vm}
use ghostfleet.Orch.Driver.{Driver}
use ghostfleet.Orch.Fleet.{
  Site, with_db, end_run, power_cycle, finish_status, finish_fill, fail_fill_after,
}

abbrev pub fill_timeout : ℕ
fill_timeout = 12 * (60 * minute)

abbrev pub agent_silence_limit : ℕ
agent_silence_limit = 90 * second

abbrev pub fill_stall_limit : ℕ
fill_stall_limit = 10 * minute

abbrev pub boot_timeout : ℕ
boot_timeout = 5 * minute

abbrev pub max_boot_attempts : ℕ
max_boot_attempts = 3

-- The entries of `bootAt` and `bootTries` for a VM; a key that is missing reads as zero.
pub record Boot : Type 0 where
  pub vm_id : ℕ
  pub at : ℕ
  pub tries : ℕ

unfoldable pub boot_at : ℕ → List Boot → ℕ
boot_at id [] = 0
boot_at id (b ∷ bs) = if b.vm_id == id then b.at else boot_at id bs

unfoldable pub boot_tries : ℕ → List Boot → ℕ
boot_tries id [] = 0
boot_tries id (b ∷ bs) = if b.vm_id == id then b.tries else boot_tries id bs

-- The counts of one poll.
pub record Progress : Type 0 where
  pub done_vms : ℕ
  pub failed_vms : ℕ
  pub working_vms : ℕ
  pub bytes_written : ℕ
  pub silent : Bool
  pub pending_vms : List ManagedVm

abbrev pub is_silent : ℕ → Option ℕ → Bool
is_silent now none = false
is_silent now (some t) = ltb agent_silence_limit (now - t)

abbrev pub no_progress : Progress
no_progress = record {
  done_vms = 0;
  failed_vms = 0;
  working_vms = 0;
  bytes_written = 0;
  silent = false;
  pending_vms = [];
}

abbrev pub count_vm : ℕ → ManagedVm → FillStatus → Progress → Progress
count_vm now vm done p = record p { done_vms = suc p.done_vms }
count_vm now vm failed p = record p { failed_vms = suc p.failed_vms }
count_vm now vm pending p = record p { pending_vms = vm ∷ p.pending_vms }
count_vm now vm working p = record p {
  working_vms = suc p.working_vms;
  silent = p.silent || is_silent now vm.agent_seen_at;
}
count_vm now vm unassigned p = p

-- The loop over the listed VMs, of which others than the run's are skipped.
unfoldable pub progress_of : ℕ → ℕ → List ManagedVm → Progress
progress_of now run_id [] = no_progress
progress_of now run_id (vm ∷ vms) =
    let rest = progress_of now run_id vms in
    if vm.fill_run_id == run_id
    then count_vm now vm vm.fill_status
        (record rest { bytes_written = vm.bytes_written + rest.bytes_written })
    else rest

-- What the goroutine keeps from poll to poll.
pub record Loop : Type 0 where
  pub start : ℕ
  pub boots : List Boot
  pub last_progress : ℕ
  pub prev_written : ℕ

pub data Outcome (W : Type 0) : Type 0 where
  goes_on : Loop → Site W → Outcome W
  ended : RunStatus → Site W → Outcome W

-- `vm.AgentSeenAt != nil && vm.AgentSeenAt.After(bootAt[vm.ID])`
abbrev pub seen_after : ℕ → Option ℕ → Bool
seen_after t none = false
seen_after t (some seen) = ltb t seen

module _ {W : Type 0} (driver : Driver W) where
  -- The boot watchdog for one pending VM.
  unfoldable pub watch_vm : ℕ → ManagedVm → Loop × Site W → Loop × Site W
  watch_vm now vm (l, s) =
      let at = boot_at vm.id l.boots in
      let tries = boot_tries vm.id l.boots in
      if seen_after at vm.agent_seen_at || ltb (now - at) boot_timeout
      then (l, s)
      else (if leb max_boot_attempts tries
          then (l, with_db (λ db. (fail_fill_vm vm.id never_registered db).1) s)
          else (
            record l {
              boots = record { vm_id = vm.id; at = now; tries = suc tries } ∷ l.boots;
              last_progress = now;
            },
            record s { world = power_cycle driver vm s.world },
          ))

  unfoldable pub watch : ℕ → List ManagedVm → Loop × Site W → Loop × Site W
  watch now [] x = x
  watch now (vm ∷ vms) x = watch now vms (watch_vm now vm x)

  abbrev pub moved_on : ℕ → Progress → Loop → Loop
  moved_on now p l = record l {
    last_progress =
        if ltb 0 p.working_vms || ltb l.prev_written p.bytes_written then now else l.last_progress;
    prev_written = p.bytes_written;
  }

  module _ (d : Deployment) (run : Run) (total : ℕ) where
    -- The ends of one poll behind the watchdog, in the order of the source.
    unfoldable pub judge : ℕ → List ManagedVm → Progress → Loop × Site W → Outcome W
    judge now cur p (l, s) =
        let next = moved_on now p l in
        let fails = ended run_failed (fail_fill_after driver d run cur s) in
        if p.silent && ltb agent_silence_limit (now - l.start)
        then fails
        else (if ltb fill_stall_limit (now - next.last_progress)
            then fails
            else (if leb total (p.done_vms + p.failed_vms)
                then ended (finish_status driver p.failed_vms)
                    (finish_fill driver d run cur p.failed_vms s)
                else (if ltb (l.start + fill_timeout) now then fails else goes_on next s)))

    unfoldable pub poll_listed : Loop → Site W → Result (List ManagedVm) × Db → Outcome W
    poll_listed l s (err e, db) = ended run_failed (end_run run run_failed (with_db (λ _. db) s))
    poll_listed l s (ok cur, db) =
        let now = s.orch.db.clock in
        let p = progress_of now run.id cur in
        judge now cur p (watch now p.pending_vms (l, with_db (λ _. db) s))

    unfoldable pub poll : Loop → Site W → Outcome W
    unfolding poll_listed
    poll l s = poll_listed l s (list_managed_vms d.id s.orch.db)
