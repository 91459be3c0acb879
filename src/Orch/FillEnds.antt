-- ===== src/Orch/FillEnds.antt =====
-- The poll loop of runFill (internal/orch/fill.go): its end and its boot attempts.
use ghostfleet.Base.{
  ℕ, ◌+◌, ◌*◌, ◌≤◌, ◌<◌, ◌≡◌, refl, inl, inr, List, [], ◌∷◌, length, map, All, arith, Bool-cases,
}
use ghostfleet.Base.Monad.{Result, ok, err}
use ghostfleet.Model.Records.{Deployment, ManagedVm, Run, RunStatus}
use ghostfleet.Store.Db.{Db, update_vms}
use ghostfleet.Store.Vms.{list_managed_vms, fail_fill_vm}
use ghostfleet.Orch.Driver.{Driver}
use ghostfleet.Orch.Fleet.{Site}
use ghostfleet.Orch.Watch.{
  Loop, Outcome, goes_on, ended, Progress, fill_timeout, max_boot_attempts, boot_tries, watch_vm,
  watch, judge, progress_of, poll_listed, poll,
}
use ghostfleet.Orch.FillRun.{
  Wake, fill_poll_interval, first_boot, begin, opened, wake, polls, released, run_fill,
}

abbrev pub IsEnded : {W : Type 0} → Outcome W → Type 0
IsEnded (goes_on l s) = ⊥
IsEnded (ended status s) = Unit

-- What a poll that goes on keeps.
pub record Kept {W : Type 0} (l : Loop) (t : ℕ) (l' : Loop) (s' : Site W) : Type 0 where
  pub clock : s'.orch.db.clock ≡ t
  pub start : l'.start ≡ l.start

-- A VM has been booted at most as often as the source's limit says.
abbrev pub BootsHeld : Loop → Type 0
BootsHeld l = (id : ℕ) → boot_tries id l.boots ≤ max_boot_attempts

module _ {W : Type 0} (driver : Driver W) where
  watch_vm-Kept :
      (now t : ℕ) (vm : ManagedVm) (l₀ l : Loop) (s : Site W)
      → Kept l₀ t l s
      → Kept l₀ t (watch_vm driver now vm (l, s)).0 (watch_vm driver now vm (l, s)).1
  unfolding watch_vm fail_fill_vm update_vms
  watch_vm-Kept now t vm l₀ l s k = ground arith

  watch-Kept :
      (now t : ℕ) (vms : List ManagedVm) (l₀ l : Loop) (s : Site W)
      → Kept l₀ t l s
      → Kept l₀ t (watch driver now vms (l, s)).0 (watch driver now vms (l, s)).1
  unfolding watch
  watch-Kept now t [] l₀ l s k = k
  watch-Kept now t (vm ∷ vms) l₀ l s k =
      watch-Kept now t vms l₀ (watch_vm driver now vm (l, s)).0 (watch_vm driver now vm (l, s)).1
        (watch_vm-Kept now t vm l₀ l s k)

  watch_vm-BootsHeld :
      (now : ℕ) (vm : ManagedVm) (l : Loop) (s : Site W)
      → BootsHeld l
      → BootsHeld (watch_vm driver now vm (l, s)).0
  unfolding watch_vm boot_tries
  watch_vm-BootsHeld now vm l s h id = ground (arith, h id, h vm.id)

  watch-BootsHeld :
      (now : ℕ) (vms : List ManagedVm) (l : Loop) (s : Site W)
      → BootsHeld l
      → BootsHeld (watch driver now vms (l, s)).0
  unfolding watch
  watch-BootsHeld now [] l s h = h
  watch-BootsHeld now (vm ∷ vms) l s h =
      watch-BootsHeld now vms (watch_vm driver now vm (l, s)).0 (watch_vm driver now vm (l, s)).1
        (watch_vm-BootsHeld now vm l s h)

  module _ (d : Deployment) (run : Run) (vms : List ManagedVm) where
    -- What holds of every outcome that goes on.
    unfoldable pub Going : (Loop → Site W → Type 0) → Outcome W → Type 0
    Going P (goes_on l s) = P l s
    Going P (ended status s) = Unit

    judge-Going :
        (now : ℕ) (cur : List ManagedVm) (p : Progress) (l₀ l : Loop) (s : Site W) (total : ℕ)
        → Kept l₀ now l s
        → BootsHeld l
        → Going
            (λ l' s'. Kept l₀ now l' s' × BootsHeld l' × (now ≤ l₀.start + fill_timeout))
            (judge driver d run total now cur p (l, s))
    unfolding judge Going
    judge-Going now cur p l₀ l s total k h = ground (arith, k, h)

    unfoldable pub Polled : Loop → ℕ → Loop → Site W → Type 0
    Polled l₀ now l s = Kept l₀ now l s × BootsHeld l × (now ≤ l₀.start + fill_timeout)

    list-clock : (db : Db) → (list_managed_vms d.id db).1.clock ≡ db.clock
    unfolding list_managed_vms
    list-clock db = ground arith

    listed-Going :
        (l : Loop) (s : Site W) (total : ℕ) (r : Result (List ManagedVm)) (db : Db)
        → BootsHeld l
        → db.clock ≡ s.orch.db.clock
        → Going (Polled l s.orch.db.clock) (poll_listed driver d run total l s (r, db))
    unfolding poll_listed Going Polled watch
    listed-Going l s total (err e) db h c = tt
    listed-Going l s total (ok cur) db h c =
        let now = s.orch.db.clock in
        let s₁ : Site W = record s { orch = record (s.orch) { db = db } } in
        let p = progress_of now run.id cur in
        let x = watch driver now p.pending_vms (l, s₁) in
        judge-Going now cur p l x.0 x.1 total
          (watch-Kept now now p.pending_vms l l s₁ (record { clock = c; start = refl }))
          (watch-BootsHeld now p.pending_vms l s₁ h)

    pub poll-Going :
        (l : Loop) (s : Site W) (total : ℕ)
        → BootsHeld l
        → Going (Polled l s.orch.db.clock) (poll driver d run total l s)
    unfolding poll
    poll-Going l s total h =
        listed-Going l s total (list_managed_vms d.id s.orch.db).0
          (list_managed_vms d.id s.orch.db).1 h (list-clock s.orch.db)

    -- The others let at least the poll interval pass, as the timer does.
    abbrev pub Advances : Wake W → Type 0
    Advances e = (s : Site W) → s.orch.db.clock + fill_poll_interval ≤ (e.others s).orch.db.clock

    polls-ended :
        (es : List (Wake W)) (status : RunStatus) (s : Site W)
        → IsEnded (polls driver d run vms es (ended status s))
    unfolding polls
    polls-ended [] status s = tt
    polls-ended (e ∷ es) status s = tt

    Late : ℕ → Loop → List (Wake W) → Type 0
    Late t l es = l.start + fill_timeout < t + length es * fill_poll_interval

    Ends : List (Wake W) → Type 0
    Ends es =
        (l : Loop) (s : Site W)
        → BootsHeld l
        → s.orch.db.clock ≤ l.start + fill_timeout
        → Late s.orch.db.clock l es
        → IsEnded (polls driver d run vms es (goes_on l s))

    outcome-IsEnded :
        (es : List (Wake W)) (l : Loop) (t : ℕ) (x : Outcome W)
        → Ends es
        → Going (Polled l t) x
        → Late t l es
        → IsEnded (polls driver d run vms es x)
    unfolding Going Polled Ends Late
    outcome-IsEnded es l t (ended status s) ih g lt = polls-ended es status s
    outcome-IsEnded es l t (goes_on l' s) ih (k, h, le) lt =
        ih l' s h (omega (arith, k.clock, k.start, le)) (omega (arith, k.clock, k.start, lt))

    polls-IsEnded : (es : List (Wake W)) → All Advances es → Ends es
    unfolding polls wake Ends Late
    polls-IsEnded [] a l s h le lt = absurd (omega (arith, le, lt))
    polls-IsEnded (e ∷ es) (ae, a) l s h le lt = elim (Bool-cases e.cancelled) [
      | inl y ↦ rw y (polls-ended es _ _)
      | inr n ↦ rw n (
          outcome-IsEnded es l (e.others s).orch.db.clock
            (poll driver d run (length vms) l (e.others s)) (polls-IsEnded es a)
            (poll-Going l (e.others s) (length vms) h) (omega (arith, lt, ae s)))
    ]

    pub first-BootsHeld :
        (now id : ℕ) (us : List ManagedVm)
        → boot_tries id (map (first_boot driver now) us) ≤ max_boot_attempts
    unfolding boot_tries
    first-BootsHeld now id [] = ground arith
    first-BootsHeld now id (u ∷ us) = ground (arith, first-BootsHeld now id us)

    begin-IsEnded :
        (es : List (Wake W)) (s : Site W) (r : Result (Unit {0})) (w : W)
        → All Advances es
        → fill_timeout < length es * fill_poll_interval
        → IsEnded (polls driver d run vms es (opened driver d run vms s (r, w)))
    unfolding Ends Late
    begin-IsEnded es s (err e) w a lt = polls-ended es _ _
    begin-IsEnded es s (ok u) w a lt =
        polls-IsEnded es a _ _ (λ id. first-BootsHeld s.orch.db.clock id vms) (ground arith)
          (omega (arith, lt))

    released-IsEnded : (x : Outcome W) → IsEnded x → IsEnded (released driver d run vms x)
    released-IsEnded (goes_on l s) h = absurd h
    released-IsEnded (ended status s) h = tt

    -- Where the others let the poll interval pass between two polls, a fill has ended once its polls
    -- span the timeout, whatever the others, the agents and the hypervisor do and whichever statement
    -- fails.
    pub run_fill_ends :
        (es : List (Wake W)) (s : Site W)
        → All Advances es
        → fill_timeout < length es * fill_poll_interval
        → IsEnded (run_fill driver d run vms es s)
    unfolding run_fill begin
    run_fill_ends es s a lt = released-IsEnded _ (
        begin-IsEnded es s (driver.open_driver d.connection_id s.world).0
          (driver.open_driver d.connection_id s.world).1 a lt)
