-- ===== src/Orch/ReconcileCover.antt =====
-- A reconcileCore (internal/orch/orchestrator.go) that succeeds has a VM for every name.
use ghostfleet.Base.{
  ℕ, ◌≤◌, ◌≡◌, refl, sym, ap, ◌∙◌, Bool, true, false, List, [], ◌∷◌, Option, none, some, Name, ◌==◌,
  any, Bool-cases, Option-cases, map, inl, inr, arith,
}
use ghostfleet.Base.Monad.{Result, ok, err, Error, M}
use ghostfleet.Model.Naming.{vm_name}
use ghostfleet.Model.Records.{Deployment, ManagedVm}
use ghostfleet.Store.Vms.{same_place, list_managed_vms, vms_of, add_managed_vm}
use ghostfleet.Orch.State.{OnConflict}
use ghostfleet.Orch.Driver.{Driver}
use ghostfleet.Orch.Fleet.{Site}
use ghostfleet.Orch.Tasks.{keep, drive}
use ghostfleet.Orch.Reconcile.{
  is_named, missing, mac_of, noted, spec_of_vm, find_conflicts, resolve, record_vm, create_vms,
  created, grow_all, reconcile_core,
}
use ghostfleet.Orch.ReconcileLaws.{
  has_vm, Keeps, chain-ok, add_ok-has_vm, missing_complete, recorded-has_vm, grow_all-Keeps,
  resolve-Keeps, conflicts-Keeps, create_vms-has_vm,
}

noted-some : {A : Type 0} (e : Error) (r : Result A) → noted (some e) r ≡ some e
noted-some e (ok a) = refl
noted-some e (err x) = refl

noted-none : {A : Type 0} (r : Result A) → noted none r ≡ none → (a : A) × (r ≡ ok a)
noted-none (ok a) h = (a, refl)
noted-none (err x) h = absurd (ground (arith, h))

module _ {W : Type 0} (driver : Driver W) (d : Deployment) where
  -- Once there is an error it stays.
  record_vm-failed :
      (i : ℕ) (e : Error) (r : Result ℕ) (s : Site W)
      → (record_vm driver d i (some e) (r, s)).0 ≡ some e
  record_vm-failed i e (err x) s = refl
  record_vm-failed i e (ok ref) s =
      noted-some e
        (add_managed_vm d.id (vm_name d.spec i) ref (mac_of (driver.get_vm ref s.world).0)
          d.spec.disks_per_vm d.spec.disk_size_gib s.orch.db).0

  create_vms-failed :
      (is : List ℕ) (e : Error) (first : Option Error) (s : Site W)
      → first ≡ some e
      → (create_vms driver d is (first, s)).0 ≡ some e
  unfolding create_vms
  create_vms-failed [] e first s h = h
  create_vms-failed (i ∷ is) e first s h =
      let x = drive (driver.create_vm (spec_of_vm d i)) s in
      create_vms-failed is e (record_vm driver d i first x).0 (record_vm driver d i first x).1
        (ap (λ o. (record_vm driver d i o x).0) h ∙ record_vm-failed i e x.0 x.1)

  record_vm-recorded :
      (i : ℕ) (r : Result ℕ) (s : Site W)
      → (record_vm driver d i none (r, s)).0 ≡ none
      → has_vm d.id (vm_name d.spec i) (record_vm driver d i none (r, s)).1.orch.db ≡ true
  record_vm-recorded i (err x) s h = absurd (ground (arith, h))
  record_vm-recorded i (ok ref) s h =
      let mac = mac_of (driver.get_vm ref s.world).0 in
      let added =
        noted-none
          (add_managed_vm d.id (vm_name d.spec i) ref mac d.spec.disks_per_vm d.spec.disk_size_gib
            s.orch.db).0
          h in
      add_ok-has_vm d.id (vm_name d.spec i) ref mac d.spec.disks_per_vm d.spec.disk_size_gib added.0
        s.orch.db added.1

  create_vms-covers :
      (is : List ℕ) (first : Option Error) (s : Site W) (k : ℕ)
      → first ≡ none
      → (create_vms driver d is (first, s)).0 ≡ none
      → any (λ j. j == k) is ≡ true
      → has_vm d.id (vm_name d.spec k) (create_vms driver d is (first, s)).1.orch.db ≡ true
  unfolding create_vms any
  create_vms-covers [] first s k n e m = absurd (ground (arith, m))
  create_vms-covers (i ∷ is) first s k n e m =
      let x = drive (driver.create_vm (spec_of_vm d i)) s in
      let y = record_vm driver d i first x in
      elim (Option-cases y.0) [
        | inr (err', f) ↦ absurd (ground (arith, e, create_vms-failed is err' y.0 y.1 f))
        | inl clear ↦ elim (Bool-cases (i == k)) [
          | inl same ↦
              let w : i ≡ k = ground (arith, same) in
              create_vms-has_vm driver (vm_name d.spec k) d is y.0 y.1 (
                ap (λ j. has_vm d.id (vm_name d.spec j) y.1.orch.db) (sym w)
                ∙ first_recorded i first x.0 x.1 n clear)
          | inr other ↦ create_vms-covers is y.0 y.1 k clear e (ground (arith, m, other))
        ]
      ]
    where
      first_recorded :
          (i : ℕ) (first : Option Error) (r : Result ℕ) (s : Site W)
          → first ≡ none
          → (record_vm driver d i first (r, s)).0 ≡ none
          → has_vm d.id (vm_name d.spec i) (record_vm driver d i first (r, s)).1.orch.db ≡ true
      first_recorded i none r s n c = record_vm-recorded i r s c
      first_recorded i (some e) r s n c = absurd (ground (arith, n))

  created-ok :
      (x : Option Error × Site W) (u : Unit {0}) (s' : Site W)
      → created driver x ≡ (ok u, s')
      → (x.0 ≡ none) × (x.1 ≡ s')
  created-ok (none, s) u s' e = (refl, cc)
  created-ok (some x, s) u s' e = absurd (ground (arith, e))

  list-found_at :
      (s s' : Site W) (vms : List ManagedVm) (fs : List Bool)
      → s.orch.db.faults ≡ fs
      → keep (list_managed_vms d.id) s ≡ (ok vms, s')
      → (vms ≡ vms_of d.id s.orch.db) × (s'.orch.db.vms ≡ s.orch.db.vms)
  unfolding list_managed_vms vms_of
  list-found_at s s' vms [] h e = (ground (arith, e, h), ground (arith, e, h))
  list-found_at s s' vms (true ∷ fs) h e = absurd (ground (arith, e, h))
  list-found_at s s' vms (false ∷ fs) h e = (ground (arith, e, h), ground (arith, e, h))

  list-found :
      (s s' : Site W) (vms : List ManagedVm)
      → keep (list_managed_vms d.id) s ≡ (ok vms, s')
      → (vms ≡ vms_of d.id s.orch.db) × (s'.orch.db.vms ≡ s.orch.db.vms)
  list-found s s' vms e = list-found_at s s' vms s.orch.db.faults refl e

  -- The end of a step keeps what the step keeps.
  kept_by :
      {A : Type 0} (name : Name) (m : M (Site W) A) (s t : Site W) (a : A)
      → Keeps d.id name m
      → m s ≡ (ok a, t)
      → has_vm d.id name s.orch.db ≡ true
      → has_vm d.id name t.orch.db ≡ true
  kept_by name m s t a k e h = ap (λ x. has_vm d.id name x.1.orch.db) (sym e) ∙ k s h

  find_conflicts-Keeps :
      (name : Name) (actual : List ManagedVm) → Keeps d.id name (find_conflicts driver d actual)
  unfolding find_conflicts
  find_conflicts-Keeps name actual =
      conflicts-Keeps driver d.id name d (map (vm_name d.spec) (missing d.spec actual))

  created-has_vm :
      (actual : List ManagedVm) (order : List ℕ → List ℕ) (k : ℕ) (s t : Site W) (u : Unit {0})
      → 1 ≤ k
      → k ≤ d.spec.vm_count
      → ((is : List ℕ) (j : ℕ) → any (λ i. i == j) is ≡ true → any (λ i. i == j) (order is) ≡ true)
      → (any (is_named (vm_name d.spec k)) actual ≡ true
          → has_vm d.id (vm_name d.spec k) s.orch.db ≡ true)
      → created driver (create_vms driver d (order (missing d.spec actual)) (none, s)) ≡ (ok u, t)
      → has_vm d.id (vm_name d.spec k) t.orch.db ≡ true
  created-has_vm actual order k s t u lo hi all there e =
      let name = vm_name d.spec k in
      let todo = order (missing d.spec actual) in
      let ended = created-ok (create_vms driver d todo (none, s)) u t e in
      ap (λ x. has_vm d.id name x.orch.db) (sym ended.1)
      ∙ elim (Bool-cases (any (is_named name) actual)) [
        | inl y ↦ create_vms-has_vm driver name d todo none s (there y)
        | inr n ↦ create_vms-covers todo none s k refl ended.0 (
            all (missing d.spec actual) k
              (missing_complete d.spec actual 1 d.spec.vm_count k lo (omega (arith, hi)) n))
      ]

  -- A reconcileCore that succeeds, in whichever order the goroutines come to record their VMs, has a
  -- recorded VM of the deployment for every name of the spec, whatever the hypervisor answers and
  -- however conflicts are resolved.
  pub reconcile_core_covers :
      (mode : OnConflict) (order : List ℕ → List ℕ) (s s' : Site W) (k : ℕ)
      → ((is : List ℕ) (j : ℕ) → any (λ i. i == j) is ≡ true → any (λ i. i == j) (order is) ≡ true)
      → reconcile_core driver mode order d s ≡ (ok tt, s')
      → 1 ≤ k
      → k ≤ d.spec.vm_count
      → has_vm d.id (vm_name d.spec k) s'.orch.db ≡ true
  unfolding reconcile_core
  reconcile_core_covers mode order s s' k all e lo hi =
      let name = vm_name d.spec k in
      let (actual, s₁, r₁, e₁) = chain-ok (keep (list_managed_vms d.id) s) _ tt s' e in
      let (cs, s₂, r₂, e₂) = chain-ok (find_conflicts driver d actual s₁) _ tt s' e₁ in
      let (u, s₃, r₃, e₃) = chain-ok (resolve driver mode cs s₂) _ tt s' e₂ in
      let (w, s₄, r₄, e₄) =
        chain-ok (created driver (create_vms driver d (order (missing d.spec actual)) (none, s₃))) _
          tt s' e₃ in
      let found = list-found s s₁ actual r₁ in
      let before = λ (y : any (is_named name) actual ≡ true).
        kept_by name (resolve driver mode cs) s₂ s₃ u (resolve-Keeps driver d.id name mode cs) r₃ (
          kept_by name (find_conflicts driver d actual) s₁ s₂ cs (find_conflicts-Keeps name actual)
            r₂
            (ap (any (same_place d.id name)) found.1
              ∙ sym (recorded-has_vm d.id name s.orch.db)
              ∙ ap (any (is_named name)) (sym found.0)
              ∙ y)) in
      kept_by name (grow_all driver d.spec actual) s₄ s' tt
        (grow_all-Keeps driver d.id name d.spec actual) e₄
        (created-has_vm actual order k s₃ s₄ w lo hi all before r₄)
