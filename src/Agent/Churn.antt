-- ===== src/Agent/Churn.antt =====
-- cmd/agent/gen.go and progress.go: the plan of an incremental run, the choice of what a work order runs, and
-- the progress over the jobs of fio. Percentages count millionths of a percent, as in the specs; the rounding
-- of float64 is not modelled.
use ghostfleet.Base.{
  Bool, ℕ, ◌+◌, ◌*◌, ◌/◌, ◌&&◌, ◌||◌, List, [], ◌∷◌, Option, none, some, Name, ◌==◌, if◌then◌else◌,
  length, get_elem?, take, ltb, leb, sort_by,
}
use ghostfleet.Model.Spec.{percent}
use ghostfleet.Model.Records.{RunType, verify, incremental, type_eq}
use ghostfleet.Datagen.WorkOrder.{WorkOrder}
use ghostfleet.Store.Vms.{name_le}

pub record PlanFile : Type 0 where
  pub name : Name
  pub size : ℕ

pub record ChurnPlan : Type 0 where
  pub rewrite : List PlanFile
  pub grow : ℕ

unfoldable pub total_size : List PlanFile → ℕ
total_size [] = 0
total_size (f ∷ fs) = f.size + total_size fs

unfoldable pub plan_bytes : ChurnPlan → ℕ
unfolding total_size
plan_bytes p = p.grow + total_size p.rewrite

unfoldable pub grow_bytes : List ChurnPlan → ℕ
grow_bytes [] = 0
grow_bytes (p ∷ ps) = p.grow + grow_bytes ps

-- How many of `len` files are rewritten: the share, rounded, at least one if any is due.
unfoldable pub change_count : ℕ → ℕ → ℕ
change_count len change =
    let rounded = (len * change + 50 * percent) / (100 * percent) in
    let due = if ltb 0 change && rounded == 0 && ltb 0 len then 1 else rounded in
    if ltb len due then len else due

abbrev pub cons_some : Option PlanFile → List PlanFile → List PlanFile
cons_some none fs = fs
cons_some (some f) fs = f ∷ fs

unfoldable pub picked : List PlanFile → List ℕ → List PlanFile
picked files [] = []
picked files (i ∷ is) = cons_some (get_elem? files i) (picked files is)

-- `shuffle` is rand.Shuffle of the indices below a length, from a seed.
module _ (shuffle : ℕ → ℕ → List ℕ) where
  unfoldable pub pick_change_set : List PlanFile → ℕ → ℕ → List PlanFile
  unfolding picked
  pick_change_set files n seed =
      if n == 0
      then []
      else (if leb (length files) n
          then files
          else picked files (sort_by leb (take n (shuffle seed (length files)))))

  -- `files` are the regular files of the local directory, in any order.
  unfoldable pub plan_churn : WorkOrder → List PlanFile → ChurnPlan
  unfolding change_count pick_change_set total_size
  plan_churn wo files =
      let named = sort_by (λ a b. name_le a.name b.name) files in
      record {
        rewrite = pick_change_set named (change_count (length named) wo.change_percent) wo.run_seed;
        grow = total_size files * wo.growth_percent / (100 * percent);
      }

-- The marker of a finished run at the root of a disk: the run, and the bytes if they are there.
pub record Marker : Type 0 where
  pub run_id : ℕ
  pub total : Option ℕ

abbrev total_or : Option ℕ → ℕ → ℕ
total_or none total = total
total_or (some n) total = n

-- `none` is a disk with no file system or no readable marker.
unfoldable pub run_already_complete : ℕ → List (Option Marker) → ℕ → Option ℕ
run_already_complete run_id [] total = some total
run_already_complete run_id (none ∷ ms) total = none
run_already_complete run_id (some m ∷ ms) total =
    let rest = run_already_complete run_id ms (total_or m.total total) in
    if m.run_id == run_id then rest else none

pub data AgentRun : Type 0 where
  verifies increments fills_anew : AgentRun
  confirms : ℕ → AgentRun

abbrev unless_complete : Option ℕ → RunType → AgentRun
unless_complete (some total) ty = confirms total
unless_complete none ty = if type_eq ty incremental then increments else fills_anew

-- runFill behind the search for the devices.
unfoldable pub run_for : WorkOrder → List (Option Marker) → AgentRun
unfolding run_already_complete
run_for wo markers =
    if type_eq wo.run_type verify
    then verifies
    else unless_complete (run_already_complete wo.run_id markers 0) wo.run_type

-- `job_frac` is the share of the current job that is done, in millionths.
pub record Progress : Type 0 where
  pub base : ℕ
  pub job_bytes : ℕ
  pub job_frac : ℕ
  pub mbps : ℕ

unfoldable pub start_job : ℕ → Progress → Progress
start_job bytes p = record p { base = p.base + p.job_bytes; job_bytes = bytes; job_frac = 0 }

unfoldable pub update_progress : ℕ → ℕ → Progress → Progress
update_progress frac mbps p = record p { job_frac = frac; mbps = mbps }

unfoldable pub progress_bytes : Progress → ℕ
progress_bytes p = p.base + p.job_frac * p.job_bytes / 1000000

abbrev with_byte : ℕ → Option Name → Option Name
with_byte b none = none
with_byte b (some line) = some (b ∷ line)

-- The bytes before the first carriage return or newline.
unfoldable pub cut_line : Name → Option Name
cut_line [] = none
cut_line (b ∷ bs) = if b == 10 || b == 13 then some [] else with_byte b (cut_line bs)

abbrev rest_at_end : Name → Bool → ℕ × Option Name
rest_at_end [] at_eof = (0, none)
rest_at_end (b ∷ bs) at_eof = if at_eof then (length (b ∷ bs), some (b ∷ bs)) else (0, none)

abbrev advanced_by : Name → Bool → Option Name → ℕ × Option Name
advanced_by bytes at_eof none = rest_at_end bytes at_eof
advanced_by bytes at_eof (some line) = (length line + 1, some line)

-- scanCRLF: how many bytes it takes, and the token that it gives.
unfoldable pub scan_crlf : Name → Bool → ℕ × Option Name
unfolding cut_line
scan_crlf bytes at_eof = advanced_by bytes at_eof (cut_line bytes)
