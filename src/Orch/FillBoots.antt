-- ===== src/Orch/FillBoots.antt =====
-- The boot attempts of runFill (internal/orch/fill.go).
use ghostfleet.Store.Vms.{has_id}
use ghostfleet.Base.{
  All, any, map, true, ◌==◌, suc, refl, ◌-◌, ◌||◌, ◌⊎◌, ◌≢◌, leb, ltb, ℕ, ◌≤◌, ◌≡◌, List, [], ◌∷◌,
  Bool-cases, inl, inr, length, arith,
}
use ghostfleet.Base.Monad.{Result, ok, err}
use ghostfleet.Model.Records.{Deployment, ManagedVm, Run}
use ghostfleet.Orch.Driver.{Driver}
use ghostfleet.Orch.Fleet.{Site, power_cycle}
use ghostfleet.Orch.Watch.{
  Loop, Outcome, goes_on, ended, max_boot_attempts, boot_tries, boot_at, boot_timeout, seen_after,
  watch_vm,
}
use ghostfleet.Orch.FillRun.{Wake, first_boot, begin, opened, wake, polls, released, run_fill}
use ghostfleet.Orch.FillEnds.{BootsHeld, Going, Polled, poll-Going, first-BootsHeld}

module _ {W : Type 0} (driver : Driver W) (d : Deployment) (run : Run) (vms : List ManagedVm) where
  Held : Outcome W → Type 0
  Held (goes_on l s) = BootsHeld l
  Held (ended status s) = Unit

  Polled-Held :
      (l : Loop) (t : ℕ) (x : Outcome W)
      → Going driver d run vms (Polled driver d run vms l t) x
      → Held x
  unfolding Going Polled Held
  Polled-Held l t (goes_on l' s') (k, h, le) = h
  Polled-Held l t (ended status s') g = tt

  polls-Held : (es : List (Wake W)) (x : Outcome W) → Held x → Held (polls driver d run vms es x)
  unfolding polls wake Held
  polls-Held [] x h = h
  polls-Held (e ∷ es) (ended status s) h = tt
  polls-Held (e ∷ es) (goes_on l s) h = elim (Bool-cases e.cancelled) [
    | inl y ↦ rw y (polls-Held es (ended _ _) tt)
    | inr n ↦ rw n (
        polls-Held es _ (
          Polled-Held l (e.others s).orch.db.clock _
            (poll-Going driver d run vms l (e.others s) (length vms) h)))
  ]

  opened-Held :
      (s : Site W) (r : Result (Unit {0})) (w : W) → Held (opened driver d run vms s (r, w))
  unfolding Held
  opened-Held s (ok u) w = λ id. first-BootsHeld driver d run vms s.orch.db.clock id vms
  opened-Held s (err e) w = tt

  released-Held :
      (x : Outcome W) (l : Loop) (s : Site W)
      → Held x
      → released driver d run vms x ≡ goes_on l s
      → BootsHeld l
  unfolding Held
  released-Held (goes_on l' s') l s h e id = ground (arith, e, h id)
  released-Held (ended status s') l s h e id = absurd (ground (arith, e))

  -- What the watchdog does to one VM: nothing to the hypervisor, or a boot attempt that it counts, as one more
  -- than before and at most three.
  abbrev pub CountsBoot : ManagedVm → Loop × Site W → Loop × Site W → Type 0
  CountsBoot vm x y =
      ((y.1.world ≡ x.1.world) × (y.0.boots ≡ x.0.boots))
      ⊎ ((y.1.world ≡ power_cycle driver vm x.1.world)
          × (boot_tries vm.id y.0.boots ≡ suc (boot_tries vm.id x.0.boots))
          × (boot_tries vm.id y.0.boots ≤ max_boot_attempts)
          × ((id : ℕ) → id ≢ vm.id → boot_tries id y.0.boots ≡ boot_tries id x.0.boots))

  watch_vm-CountsBoot :
      (now : ℕ) (vm : ManagedVm) (l : Loop) (s : Site W)
      → CountsBoot vm (l, s) (watch_vm driver now vm (l, s))
  unfolding watch_vm boot_tries
  watch_vm-CountsBoot now vm l s =
      elim (Bool-cases (
        seen_after (boot_at vm.id l.boots) vm.agent_seen_at
        || ltb (now - boot_at vm.id l.boots) boot_timeout)) [
          | inl early ↦ rw early (inl (refl, refl))
          | inr late ↦ elim (Bool-cases (leb max_boot_attempts (boot_tries vm.id l.boots))) [
            | inl spent ↦ rw (late, spent) (inl (refl, refl))
            | inr left ↦
                rw (late, left)
                  (inr (refl, ground arith, ground (arith, left), λ id ne. ground (arith, ne)))
          ]
        ]

  -- Each VM has one attempt counted.
  abbrev pub BootedOnce : Outcome W → Type 0
  BootedOnce (goes_on l s) = All (λ vm. boot_tries vm.id l.boots ≡ 1) vms
  BootedOnce (ended status s) = Unit

  counted :
      (now id : ℕ) (vs : List ManagedVm)
      → any (has_id id) vs ≡ true
      → boot_tries id (map (first_boot driver now) vs) ≡ 1
  unfolding any boot_tries
  counted now id [] h = absurd (ground (arith, h))
  counted now id (v ∷ vs) h = elim (Bool-cases (v.id == id)) [
    | inl e ↦ rw e refl
    | inr e ↦ rw e (counted now id vs (ground (arith, h, e)))
  ]

  All-counted :
      (now : ℕ) (vs ws : List ManagedVm)
      → ((id : ℕ) → any (has_id id) ws ≡ true → any (has_id id) vs ≡ true)
      → All (λ vm. boot_tries vm.id (map (first_boot driver now) vs) ≡ 1) ws
  unfolding any
  All-counted now vs [] k = tt
  All-counted now vs (w ∷ ws) k = (
    counted now w.id vs (k w.id ground arith),
    All-counted now vs ws (λ id h. k id (ground (arith, h))),
  )

  opened-BootedOnce :
      (s : Site W) (r : Result (Unit {0})) (w : W) → BootedOnce (opened driver d run vms s (r, w))
  opened-BootedOnce s (ok u) w = All-counted s.orch.db.clock vms vms (λ id h. h)
  opened-BootedOnce s (err e) w = tt

  released-BootedOnce : (x : Outcome W) → BootedOnce x → BootedOnce (released driver d run vms x)
  released-BootedOnce (goes_on l s) h = h
  released-BootedOnce (ended status s) h = tt

  -- At any moment of a fill that goes on, whatever the agents, the hypervisor and the store do, the boot attempts
  -- counted for each VM are at most three; and the watchdog, whenever it looks at a VM, either leaves the
  -- hypervisor alone or power-cycles that VM, counts one attempt more for it, at most three, and none for another. The boot at the
  -- start is counted as one attempt for each VM.
  pub run_fill_boots :
      (es : List (Wake W)) (s s' : Site W) (l : Loop) (id : ℕ)
      → run_fill driver d run vms es s ≡ goes_on l s'
      → (boot_tries id l.boots ≤ max_boot_attempts)
        × ((now : ℕ) (vm : ManagedVm) (l : Loop) (s : Site W)
            → CountsBoot vm (l, s) (watch_vm driver now vm (l, s)))
        × BootedOnce (run_fill driver d run vms [] s)
  unfolding run_fill begin polls
  run_fill_boots es s s' l id e =
      let opens = driver.open_driver d.connection_id s.world in
      (
        released-Held _ l s' (polls-Held es _ (opened-Held s opens.0 opens.1)) e id,
        watch_vm-CountsBoot,
        released-BootedOnce _ (opened-BootedOnce s opens.0 opens.1),
      )
