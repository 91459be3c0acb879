-- ===== src/Orch/Rebind.antt =====
-- What a rebind (internal/orch/adopt.go) that succeeds has found and written.
use ghostfleet.Base.{
  ℕ, ◌≡◌, refl, sym, ap, ◌∙◌, Bool, false, List, Option, some, Name, find, update_where, arith,
}
use ghostfleet.Base.Monad.{pure, precondition, deployment_gone, no_vm_record}
use ghostfleet.Base.Binds.{Gives, bind-ok}
use ghostfleet.Model.Records.{Deployment, ManagedVm, is_deleted}
use ghostfleet.Datagen.Report.{DiscoveryDisk, IdentityMarker, ghost_identity}
use ghostfleet.Store.Db.{Db, DiscoveredVm, report, now_of}
use ghostfleet.Store.Vms.{has_id, same_place, get_managed_vm_by_name}
use ghostfleet.Store.Deployments.{dep_has_id}
use ghostfleet.Store.Calls.{Unchanged, Unchanged-refl, Unchanged-trans, get_vm_where-ok}
use ghostfleet.Orch.Driver.{Driver, Vm}
use ghostfleet.Orch.Fleet.{Site}
use ghostfleet.Orch.Tasks.{keep, drive}
use ghostfleet.Orch.Adopt.{
  AdoptResult, is_taken, discovered_identity, lift_result, or_fail, live_deployment, take_over,
  locate, old_vm, rebind_target, rebind_to, adopt_rebind,
}
use ghostfleet.Orch.RebindCalls.{
  taken_over, marked_taken, take_over-ok, or_fail-ok, keep-ok, drive-ok, guarded-ok,
  live_deployment-ok, discovered_identity-ok, some_or-ok, Rebound,
}

-- The writes, from the database before the reads.
writes-from :
    (dv : DiscoveredVm) (disks : List DiscoveryDisk) (id ref : ℕ) (db0 db db' : Db) (fs : List Bool)
    → db ≡ record db0 { faults = fs }
    → db' ≡ record db {
      vms = update_where (has_id id) (taken_over dv.mac ref disks (now_of db)) db.vms;
      discovered = marked_taken dv.id db.discovered;
      faults = db'.faults;
    }
    → db' ≡ record db0 {
      vms = update_where (has_id id) (taken_over dv.mac ref disks (now_of db0)) db0.vms;
      discovered = marked_taken dv.id db0.discovered;
      faults = db'.faults;
    }
writes-from dv disks id ref db0 db db' fs e h = rw e at h

Rebound-from :
    (dv : DiscoveredVm) (disks : List DiscoveryDisk) (id ref : ℕ) (db0 db db' : Db)
    (row : ManagedVm)
    → Unchanged db0 db
    → Rebound dv disks id ref db db' row
    → Rebound dv disks id ref db0 db' row
Rebound-from dv disks id ref db0 db db' row u (all, back) =
    (writes-from dv disks id ref db0 db db' db.faults u all, back)

-- The row that a rebind picks by an identity marker, in the tables before it.
abbrev pub Names : IdentityMarker → Deployment → ManagedVm → Db → Type 0
Names id d vm db =
    (find (dep_has_id id.deployment_id) db.deployments ≡ some d)
    × (is_deleted d.status ≡ false)
    × (find (same_place d.id id.vm_name) db.vms ≡ some vm)

Names-from :
    (id : IdentityMarker) (d d' : Deployment) (vm : ManagedVm) (db db' : Db)
    → d' ≡ d
    → db ≡ db'
    → Names id d vm db
    → Names id d' vm db'
Names-from id d d' vm db db' e f h = rw (e, ← f) h

module _ {W : Type 0} (driver : Driver W) where
  -- The hypervisor has shown a VM with the MAC.
  abbrev pub Seen : Name → Vm → Type 0
  Seen mac hv = (w : W) × ((w' : W) × Gives (driver.find_vm_by_mac mac) w (some hv) w')

  pub locate-ok :
      (connection : ℕ) (mac : Name) (s s' : Site W) (hv : Vm)
      → Gives (locate driver connection mac) s hv s'
      → Seen mac hv × (s'.orch ≡ s.orch)
  unfolding locate
  locate-ok connection mac s s' hv h =
      let (u, (s1, (a1, h1))) = bind-ok (drive (driver.open_driver connection)) _ s s' hv h in
      let (o, (s2, (a2, h2))) = bind-ok (drive (driver.find_vm_by_mac mac)) _ s1 s' hv h1 in
      let (got, same) = some_or-ok _ o s2 s' hv h2 in
      let (gives, orch2) = drive-ok (driver.find_vm_by_mac mac) s1 s2 o a2 in
      let opened = drive-ok (driver.open_driver connection) s s1 u a1 in
      ((s1.world, (s2.world, rw (← got) gives)), ap (λ t. t.orch) same ∙ orch2 ∙ opened.1)

  pub rebind_target-ok :
      (id : IdentityMarker) (s s' : Site W) (target : Deployment × ManagedVm)
      → Gives (rebind_target driver id) s target s'
      → Names id target.0 target.1 s.orch.db × Unchanged s.orch.db s'.orch.db
  unfolding rebind_target get_managed_vm_by_name
  rebind_target-ok id s s' target h =
      let (d, (s1, (a1, h1))) =
        bind-ok (or_fail (precondition deployment_gone) (keep (live_deployment id.deployment_id))) _
          s s' target h in
      let (vm, (s2, (a2, h2))) =
        bind-ok
          (or_fail (precondition no_vm_record) (keep (get_managed_vm_by_name d.id id.vm_name))) _ s1
          s' target h1 in
      target_read d vm s1 s2 (or_fail-ok _ (keep (live_deployment id.deployment_id)) s s1 d a1)
        (or_fail-ok _ (keep (get_managed_vm_by_name d.id id.vm_name)) s1 s2 vm a2) h2
    where
      target_read :
          (d : Deployment) (vm : ManagedVm) (s1 s2 : Site W)
          → Gives (keep (live_deployment id.deployment_id)) s d s1
          → Gives (keep (get_managed_vm_by_name d.id id.vm_name)) s1 vm s2
          → Gives (pure (d, vm)) s2 target s'
          → Names id target.0 target.1 s.orch.db × Unchanged s.orch.db s'.orch.db
      target_read d vm s1 s2 a1 a2 e =
          let (there, live, r1) =
            live_deployment-ok id.deployment_id s.orch.db s1.orch.db d
              (keep-ok (live_deployment id.deployment_id) s s1 d a1) in
          let (named, r2) =
            get_vm_where-ok (same_place d.id id.vm_name) s1.orch.db s2.orch.db vm
              (keep-ok (get_managed_vm_by_name d.id id.vm_name) s1 s2 vm a2) in
          let at_first = sym (ap (λ b. find (same_place d.id id.vm_name) b.vms) r1) ∙ named in
          let same : (d, vm) ≡ target = ground (arith, e) in
          let end : s' ≡ s2 = sym (ap (λ x. x.1) e) in
          rw (← same, end)
            ((there, live, at_first), Unchanged-trans s.orch.db s1.orch.db s2.orch.db r1 r2)

  rebind_to-ok :
      (dv : DiscoveredVm) (disks : List DiscoveryDisk) (d : Deployment) (vm : ManagedVm) (hv : Vm)
      (s s' : Site W) (res : AdoptResult)
      → Gives (rebind_to driver dv disks d vm hv) s res s'
      → (res.deployment ≡ d) × Rebound dv disks vm.id hv.ref s.orch.db s'.orch.db res.vm
  unfolding rebind_to
  rebind_to-ok dv disks d vm hv s s' res h =
      let (warning, (s1, (a1, h1))) = bind-ok (drive (old_vm driver vm.ref hv.ref)) _ s s' res h in
      let (row, (s2, (a2, h2))) = bind-ok (keep (take_over dv disks vm.id hv.ref)) _ s1 s' res h1 in
      written warning row s1 s2 (drive-ok (old_vm driver vm.ref hv.ref) s s1 warning a1).1
        (keep-ok (take_over dv disks vm.id hv.ref) s1 s2 row a2) h2
    where
      written :
          (warning : Option (Name × ℕ)) (row : ManagedVm) (s1 s2 : Site W)
          → s1.orch ≡ s.orch
          → Gives (take_over dv disks vm.id hv.ref) s1.orch.db row s2.orch.db
          → Gives (pure (record { deployment = d; vm = row; warning = warning })) s2 res s'
          → (res.deployment ≡ d) × Rebound dv disks vm.id hv.ref s.orch.db s'.orch.db res.vm
      written warning row s1 s2 same g e =
          let (all, back, known) = take_over-ok dv disks vm.id hv.ref s1.orch.db s2.orch.db row g in
          let end : s' ≡ s2 = sym (ap (λ x. x.1) e) in
          let got : res ≡ record { deployment = d; vm = row; warning = warning } =
            ground (arith, e) in
          rw (end, got) (refl, (rw same at all, back))

  -- A rebind that succeeds was of a VM that was not adopted yet and whose disks carry an identity: it
  -- re-points the row of that name in the live deployment of that ID at the discovered MAC and at the
  -- VM that the hypervisor shows for it, with the data state of the inspection, marks the discovered
  -- VM as adopted, returns that row, and writes nothing else.
  pub adopt_rebind-writes :
      (dv : DiscoveredVm) (s s' : Site W) (res : AdoptResult)
      → Gives (adopt_rebind driver dv) s res s'
      → (disks : List DiscoveryDisk) × (id : IdentityMarker) × (vm : ManagedVm) × (hv : Vm)
        × (is_taken dv.status ≡ false)
        × (dv.inspection ≡ report disks)
        × (ghost_identity disks ≡ some id)
        × Names id res.deployment vm s.orch.db
        × Seen dv.mac hv
        × Rebound dv disks vm.id hv.ref s.orch.db s'.orch.db res.vm
  unfolding adopt_rebind
  adopt_rebind-writes dv s s' res h0 =
      let (free, h) = guarded-ok (is_taken dv.status) _ _ s s' res h0 in
      let (found, (s1, (a1, h1))) =
        bind-ok (lift_result (discovered_identity dv.inspection)) _ s s' res h in
      let (target, (s2, (a2, h2))) = bind-ok (rebind_target driver found.1) _ s1 s' res h1 in
      let (hv, (s3, (a3, h3))) =
        bind-ok (locate driver target.0.connection_id dv.mac) _ s2 s' res h2 in
      let (i, g) = discovered_identity-ok dv.inspection found.0 found.1 (ap (λ x. x.0) a1) in
      let (named, kept) = rebind_target-ok found.1 s1 s2 target a2 in
      let (shown, orch) = locate-ok target.0.connection_id dv.mac s2 s3 hv a3 in
      let (same, all) = rebind_to-ok dv found.0 target.0 target.1 hv s3 s' res h3 in
      let s1-s : s1 ≡ s = sym (ap (λ x. x.1) a1) in
      let start : Unchanged s.orch.db s1.orch.db =
        Unchanged-refl s.orch.db s1.orch.db (ap (λ t. t.orch.db) s1-s) in
      let read : Unchanged s.orch.db s3.orch.db =
        Unchanged-trans s.orch.db s1.orch.db s3.orch.db start (
          Unchanged-trans s1.orch.db s2.orch.db s3.orch.db kept
            (Unchanged-refl s2.orch.db s3.orch.db (ap (λ o. o.db) orch))) in
      (
        found.0,
        found.1,
        target.1,
        hv,
        free,
        i,
        g,
        Names-from found.1 target.0 res.deployment target.1 s1.orch.db s.orch.db same
            (ap (λ t. t.orch.db) s1-s) named,
        shown,
        Rebound-from dv found.0 target.1.id hv.ref s.orch.db s3.orch.db s'.orch.db res.vm read all,
      )
