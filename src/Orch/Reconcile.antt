-- ===== src/Orch/Reconcile.antt =====
-- internal/orch/orchestrator.go: reconcileCore and findConflicts. The goroutines that create VMs write
-- to the store under a mutex: `order` is the order in which they do, and the driver's calls of each are
-- taken there. The owner's name, which a conflict shows, and the statistics are not modelled.
use ghostfleet.Base.{
  ℕ, zero, suc, ◌-◌, ◌%◌, Bool, ◌||◌, not, List, [], ◌∷◌, Option, none, some, Name, name_eq, ◌==◌,
  ltb, if◌then◌else◌, map, any, select, length, replicate, get_elem?,
}
use ghostfleet.Base.Monad.{Result, ok, err, Error, M, pure, fail, ◌>>=◌, ◌>>◌, name_conflicts}
use ghostfleet.Model.Spec.{ProfileSpec}
use ghostfleet.Model.Naming.{vm_name}
use ghostfleet.Model.Places.{datastores, with_datastore}
use ghostfleet.Model.Records.{Deployment, ManagedVm, Placement}
use ghostfleet.Store.Vms.{list_managed_vms, add_managed_vm, update_managed_vm_disks}
use ghostfleet.Orch.State.{OnConflict, on_abort, on_adopt, on_clean}
use ghostfleet.Orch.Driver.{Driver, Vm, VmSpec, DiskSpec}
use ghostfleet.Orch.Fleet.{Site}
use ghostfleet.Orch.Tasks.{keep, drive}

abbrev pub is_named : Name → ManagedVm → Bool
is_named name v = name_eq v.name name

-- The numbers from i on, `left` of them, whose name is not recorded.
unfoldable pub missing_from : ProfileSpec → List ManagedVm → ℕ → ℕ → List ℕ
missing_from spec actual i zero = []
missing_from spec actual i (suc left) =
    let rest = missing_from spec actual (suc i) left in
    if any (is_named (vm_name spec i)) actual then rest else i ∷ rest

abbrev pub missing : ProfileSpec → List ManagedVm → List ℕ
missing spec actual = missing_from spec actual 1 spec.vm_count

abbrev pub disk_specs : ℕ → ℕ → Bool → List DiskSpec
disk_specs count size_gib thin = replicate count (record { size_gib = size_gib; thin = thin })

-- Round robin over the datastores, by the number of the VM.
abbrev pub place_on : ℕ → List Name → Placement → Placement
place_on i [] p = p
place_on i (s ∷ ss) p = elim (get_elem? (s ∷ ss) ((i - 1) % length (s ∷ ss))) [
  | none ↦ p
  | some name ↦ with_datastore name p
]

unfoldable pub spec_of_vm : Deployment → ℕ → VmSpec
spec_of_vm d i = record {
  name = vm_name d.spec i;
  vcpus = d.spec.vcpus;
  memory_mib = d.spec.memory_mib;
  disks = disk_specs d.spec.disks_per_vm d.spec.disk_size_gib (not d.spec.thick);
  tag = d.spec.tag;
  deployment_id = d.id;
  deployment_name = d.name;
  placement = place_on i (datastores d.placement) d.placement;
}

abbrev pub first_of : Option Error → Error → Option Error
first_of none e = some e
first_of (some x) e = some x

abbrev pub noted : {A : Type 0} → Option Error → Result A → Option Error
noted first (ok a) = first
noted first (err e) = first_of first e

abbrev pub mac_of : Result (Option Vm) → Name
mac_of (ok none) = []
mac_of (ok (some v)) = v.mac
mac_of (err e) = []

module _ {W : Type 0} (driver : Driver W) where
  abbrev pub conflicts_of : Deployment → List Vm → List Vm
  conflicts_of d found = select (λ v. not (v.owner_id == d.id)) found

  abbrev pub conflicts_among : Deployment → List Name → M (Site W) (List Vm)
  conflicts_among d [] = pure []
  conflicts_among d (n ∷ ns) = do
    found ← drive (driver.find_vms d.placement (n ∷ ns))
    pure (conflicts_of d found)

  unfoldable pub find_conflicts : Deployment → List ManagedVm → M (Site W) (List Vm)
  find_conflicts d actual = conflicts_among d (map (vm_name d.spec) (missing d.spec actual))

  -- The warning before a deploy, over a driver of its own.
  unfoldable pub detect_conflicts : Deployment → M (Site W) (List Vm)
  unfolding find_conflicts
  detect_conflicts d = do
    drive (driver.open_driver d.connection_id)
    actual ← keep (list_managed_vms d.id)
    find_conflicts d actual

  unfoldable pub clean_all : List Vm → M (Site W) (Unit {0})
  clean_all [] = pure tt
  clean_all (c ∷ cs) = do drive (driver.delete_vm c.ref); clean_all cs

  unfoldable pub resolve : OnConflict → List Vm → M (Site W) (Unit {0})
  unfolding clean_all
  resolve mode [] = pure tt
  resolve on_clean (c ∷ cs) = clean_all (c ∷ cs)
  resolve on_adopt (c ∷ cs) = pure tt
  resolve on_abort (c ∷ cs) = fail name_conflicts

  -- What one goroutine does once CreateVM has answered; the first error is kept.
  abbrev pub record_vm : Deployment → ℕ → Option Error → Result ℕ × Site W → Option Error × Site W
  record_vm d i first (err e, s) = (first_of first e, s)
  record_vm d i first (ok ref, s) =
      let seen = drive (driver.get_vm ref) s in
      let added =
        keep
          (add_managed_vm d.id (vm_name d.spec i) ref (mac_of seen.0) d.spec.disks_per_vm
            d.spec.disk_size_gib)
          seen.1 in
      (noted first added.0, added.1)

  unfoldable pub create_vms : Deployment → List ℕ → Option Error × Site W → Option Error × Site W
  create_vms d [] x = x
  create_vms d (i ∷ is) (first, s) =
      create_vms d is (record_vm d i first (drive (driver.create_vm (spec_of_vm d i)) s))

  abbrev pub created : Option Error × Site W → Result (Unit {0}) × Site W
  created (none, s) = (ok tt, s)
  created (some e, s) = (err e, s)

  abbrev pub add_missing_disks : ProfileSpec → ManagedVm → M (Site W) (Unit {0})
  add_missing_disks spec vm =
      if ltb 0 (spec.disks_per_vm - vm.disk_count)
      then drive (
          driver.add_disks vm.ref
            (disk_specs (spec.disks_per_vm - vm.disk_count) spec.disk_size_gib (not spec.thick)))
      else pure tt

  abbrev pub extend_small_disks : ProfileSpec → ManagedVm → M (Site W) (Unit {0})
  extend_small_disks spec vm =
      if ltb vm.disk_size_gib spec.disk_size_gib
      then drive (driver.extend_disks vm.ref spec.disk_size_gib)
      else pure tt

  abbrev pub record_disks : ProfileSpec → ManagedVm → M (Site W) (Unit {0})
  record_disks spec vm =
      if not (vm.disk_count == spec.disks_per_vm) || not (vm.disk_size_gib == spec.disk_size_gib)
      then keep (update_managed_vm_disks vm.id spec.disks_per_vm spec.disk_size_gib)
      else pure tt

  unfoldable pub grow_all : ProfileSpec → List ManagedVm → M (Site W) (Unit {0})
  grow_all spec [] = pure tt
  grow_all spec (vm ∷ vms) = do
    add_missing_disks spec vm
    extend_small_disks spec vm
    record_disks spec vm
    grow_all spec vms

  unfoldable pub reconcile_core :
      OnConflict → (List ℕ → List ℕ) → Deployment → M (Site W) (Unit {0})
  unfolding find_conflicts resolve create_vms grow_all
  reconcile_core mode order d = do
    actual ← keep (list_managed_vms d.id)
    conflicts ← find_conflicts d actual
    resolve mode conflicts
    λ s. created (create_vms d (order (missing d.spec actual)) (none, s))
    grow_all d.spec actual
