-- ===== src/Orch/Adopt.antt =====
-- internal/orch/adopt.go: the adoption of a discovered VM, by rebinding its old record (AdoptRebind) or
-- into an adopted deployment (AdoptNew).
use ghostfleet.Base.{
  ℕ, suc, Bool, true, false, List, [], ◌∷◌, ◌++◌, Option, none, some, Name, ◌==◌, if◌then◌else◌,
  ◌||◌, not,
}
use ghostfleet.Base.Monad.{
  Error, Result, ok, err, M, pure, fail, ◌>>=◌, ◌>>◌, precondition, already_adopted, not_inspected,
  no_identity, deployment_gone, no_vm_record, mac_not_found, target_not_adopted, bad_report,
}
use ghostfleet.Model.Spec.{ProfileSpec}
use ghostfleet.Model.Records.{
  Deployment, ManagedVm, DiscoveredStatus, seen, taken, ready, adopted, is_adopted, is_deleted,
}
use ghostfleet.Datagen.Report.{DiscoveryDisk, IdentityMarker, ghost_identity, data_state}
use ghostfleet.Store.Db.{Db, DiscoveredVm, Inspection, no_report, unreadable, report}
use ghostfleet.Store.Vms.{
  add_managed_vm, get_managed_vm, get_managed_vm_by_name, rebind_managed_vm, set_vm_data_state,
}
use ghostfleet.Store.Deployments.{get_deployment, create_deployment, update_deployment_spec}
use ghostfleet.Store.Discovered.{set_discovered_status}
use ghostfleet.Orch.Driver.{Driver, Vm}
use ghostfleet.Orch.Fleet.{Site}
use ghostfleet.Orch.Tasks.{keep, drive}

-- The warning names the VM that the record pointed at before.
pub record AdoptResult : Type 0 where
  pub deployment : Deployment
  pub vm : ManagedVm
  pub warning : Option (Name × ℕ)

abbrev pub is_taken : DiscoveredStatus → Bool
is_taken seen = false
is_taken taken = true

abbrev pub identity_or_none :
    List DiscoveryDisk → Option IdentityMarker → Result (List DiscoveryDisk × IdentityMarker)
identity_or_none disks none = err (precondition no_identity)
identity_or_none disks (some id) = ok (disks, id)

unfoldable pub discovered_identity : Inspection → Result (List DiscoveryDisk × IdentityMarker)
discovered_identity no_report = err (precondition not_inspected)
discovered_identity unreadable = err bad_report
discovered_identity (report disks) = identity_or_none disks (ghost_identity disks)

abbrev pub lift_result : {S A : Type 0} → Result A → M S A
lift_result r s = (r, s)

abbrev pub with_error : {S A : Type 0} → Error → Result A × S → Result A × S
with_error e (ok a, s) = (ok a, s)
with_error e (err x, s) = (err e, s)

-- Every error of `m` is answered with `e`.
abbrev pub or_fail : {S A : Type 0} → Error → M S A → M S A
or_fail e m s = with_error e (m s)

abbrev pub some_or : {S A : Type 0} → Error → Option A → M S A
some_or e none = fail e
some_or e (some a) = pure a

-- `err != nil || d.Status == deleted`
unfoldable pub live_deployment : ℕ → M Db Deployment
live_deployment id = do
  d ← get_deployment id
  if is_deleted d.status then fail (precondition deployment_gone) else pure d

unfoldable pub set_data_state_from_report : ℕ → List DiscoveryDisk → M Db (Unit {0})
set_data_state_from_report vm_id disks =
    let state = data_state disks in set_vm_data_state vm_id state.0 state.1 state.2

-- The writes of AdoptRebind, and the row read back.
unfoldable pub take_over : DiscoveredVm → List DiscoveryDisk → ℕ → ℕ → M Db ManagedVm
unfolding set_data_state_from_report
take_over dv disks vm_id ref = do
  rebind_managed_vm vm_id dv.mac ref
  set_data_state_from_report vm_id disks
  set_discovered_status dv.id taken
  get_managed_vm vm_id

-- The deployment of a spec that AdoptNew creates.
abbrev pub adopted_deployment : Name → ℕ → ProfileSpec → Deployment
adopted_deployment name connection spec = record {
  id = 0;
  name = name;
  profile_id = 0;
  profile_version = 0;
  connection_id = connection;
  spec = record spec { vm_count = 1 };
  placement = record { datastore = []; others = [] };
  status = ready;
  origin = adopted;
  created_at = 0;
  updated_at = 0;
}

abbrev pub adopted_prefix : Name
adopted_prefix = b'a' ∷ b'd' ∷ b'o' ∷ b'p' ∷ b't' ∷ b'e' ∷ b'd' ∷ b'-' ∷ []

abbrev pub name_or : Name → Name → Name
name_or (c ∷ cs) vm_name = c ∷ cs
name_or [] vm_name = adopted_prefix ++ vm_name

-- The deployment to join; none for an empty ID.
unfoldable pub join_target : ℕ → M Db (Option Deployment)
join_target id = if id == 0 then pure none else (do
  d ← get_deployment id
  if not (is_adopted d.origin) || is_deleted d.status
      then fail (precondition target_not_adopted)
      else pure (some d))

abbrev joined_connection : ℕ → Option Deployment → ℕ
joined_connection connection none = connection
joined_connection connection (some d) = d.connection_id

unfoldable pub connection_for : ℕ → IdentityMarker → Option Deployment → M Db ℕ
connection_for connection id join =
    let given = joined_connection connection join in
    if given == 0
    then (do
      orig ← or_fail (precondition deployment_gone) (get_deployment id.deployment_id)
      pure orig.connection_id)
    else pure given

abbrev pub one_more : ProfileSpec → ProfileSpec
one_more spec = record spec { vm_count = suc spec.vm_count }

unfoldable pub target_deployment :
    Name → ℕ → IdentityMarker → Vm → Option Deployment → M Db Deployment
target_deployment name connection id hv none =
    create_deployment (adopted_deployment (name_or name hv.name) connection id.spec)
target_deployment name connection id hv (some d) = do
  update_deployment_spec d.id (one_more d.spec)
  pure (record d { spec = one_more d.spec })

-- The writes of AdoptNew behind the deployment's.
unfoldable pub take_in :
    DiscoveredVm → List DiscoveryDisk → IdentityMarker → Vm → Deployment → M Db AdoptResult
unfolding set_data_state_from_report
take_in dv disks id hv d = do
  vm_id ← add_managed_vm d.id hv.name hv.ref dv.mac hv.disk_count id.spec.disk_size_gib
  set_data_state_from_report vm_id disks
  vm ← get_managed_vm vm_id
  set_discovered_status dv.id taken
  pure (record { deployment = d; vm = vm; warning = none })

module _ {W : Type 0} (driver : Driver W) where
  -- The error of GetVM is dropped.
  abbrev still_there : ℕ → Result (Option Vm) → Option (Name × ℕ)
  still_there ref (err e) = none
  still_there ref (ok none) = none
  still_there ref (ok (some old)) = some (old.name, ref)

  unfoldable pub old_vm : ℕ → ℕ → M W (Option (Name × ℕ))
  old_vm ref new_ref w =
      if new_ref == ref
      then (ok none, w)
      else (let got = driver.get_vm ref w in (ok (still_there ref got.0), got.1))

  unfoldable pub locate : ℕ → Name → M (Site W) Vm
  locate connection mac = do
    drive (driver.open_driver connection)
    found ← drive (driver.find_vm_by_mac mac)
    some_or (precondition mac_not_found) found

  -- The record that the identity names, and its deployment.
  unfoldable pub rebind_target : IdentityMarker → M (Site W) (Deployment × ManagedVm)
  unfolding live_deployment
  rebind_target id = do
    d ← or_fail (precondition deployment_gone) (keep (live_deployment id.deployment_id))
    vm ← or_fail (precondition no_vm_record) (keep (get_managed_vm_by_name d.id id.vm_name))
    pure (d, vm)

  unfoldable pub rebind_to :
      DiscoveredVm → List DiscoveryDisk → Deployment → ManagedVm → Vm → M (Site W) AdoptResult
  unfolding take_over old_vm
  rebind_to dv disks d vm hv = do
    warning ← drive (old_vm vm.ref hv.ref)
    row ← keep (take_over dv disks vm.id hv.ref)
    pure (record { deployment = d; vm = row; warning = warning })

  unfoldable pub adopt_rebind : DiscoveredVm → M (Site W) AdoptResult
  unfolding rebind_target rebind_to locate discovered_identity
  adopt_rebind dv = if is_taken dv.status then fail (precondition already_adopted) else (do
    found ← lift_result (discovered_identity dv.inspection)
    target ← rebind_target found.1
    hv ← locate target.0.connection_id dv.mac
    rebind_to dv found.0 target.0 target.1 hv)

  unfoldable pub adopt_new : DiscoveredVm → Name → ℕ → ℕ → M (Site W) AdoptResult
  unfolding join_target connection_for target_deployment take_in locate discovered_identity
  adopt_new dv name connection join_id =
      if is_taken dv.status then fail (precondition already_adopted) else (do
        found ← lift_result (discovered_identity dv.inspection)
        join ← keep (join_target join_id)
        connection ← keep (connection_for connection found.1 join)
        hv ← locate connection dv.mac
        d ← keep (target_deployment name connection found.1 hv join)
        keep (take_in dv found.0 found.1 hv d))
