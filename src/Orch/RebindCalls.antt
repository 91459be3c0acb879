-- ===== src/Orch/RebindCalls.antt =====
-- What the calls of a rebind (internal/orch/adopt.go) that succeed have found and written, one by one.
use ghostfleet.Base.{
  ℕ, ◌≡◌, refl, sym, ap, ◌∙◌, Bool, true, false, List, Option, none, some, Name, find, any,
  update_where, update-update, if◌then◌else◌, arith,
}
use ghostfleet.Base.Monad.{Error, Result, ok, err, M, fail, pure}
use ghostfleet.Base.Binds.{Gives, bind-ok}
use ghostfleet.Model.Records.{Deployment, ManagedVm, taken, is_deleted}
use ghostfleet.Datagen.Report.{DiscoveryDisk, IdentityMarker, ghost_identity, data_state}
use ghostfleet.Store.Db.{Db, DiscoveredVm, Inspection, no_report, unreadable, report, now_of}
use ghostfleet.Store.Vms.{has_id, rebound, rebind_managed_vm, set_vm_data_state, get_managed_vm}
use ghostfleet.Store.Deployments.{dep_has_id, get_deployment}
use ghostfleet.Store.Discovered.{disc_has_id, set_discovered_status}
use ghostfleet.Store.Calls.{
  Unchanged, get_deployment-ok, get_vm_where-ok, update_vms_found-ok, set_discovered_status-ok,
}
use ghostfleet.Orch.Fleet.{Site}
use ghostfleet.Orch.Tasks.{keep, drive}
use ghostfleet.Orch.Adopt.{
  discovered_identity, identity_or_none, or_fail, with_error, some_or, live_deployment,
  set_data_state_from_report, take_over,
}

-- The row of a VM after the rebind.
abbrev pub taken_over : Name → ℕ → List DiscoveryDisk → ℕ → ManagedVm → ManagedVm
taken_over mac ref disks t v = record (rebound mac ref v) {
  data_state = (data_state disks).0;
  data_run_id = (data_state disks).1;
  data_manifest = (data_state disks).2;
  data_seen_at = some t;
}

abbrev pub marked_taken : ℕ → List DiscoveredVm → List DiscoveredVm
marked_taken id = update_where (disc_has_id id) (λ v. record v { status = taken })

-- The data state that an inspection gives a row.
abbrev inspected : List DiscoveryDisk → ℕ → ManagedVm → ManagedVm
inspected disks t v = record v {
  data_state = (data_state disks).0;
  data_run_id = (data_state disks).1;
  data_manifest = (data_state disks).2;
  data_seen_at = some t;
}

writes-chain :
    (dv : DiscoveredVm) (disks : List DiscoveryDisk) (id ref : ℕ) (db db1 db2 db3 db4 : Db)
    (fs1 fs2 fs3 fs4 : List Bool)
    → db1 ≡ record db { vms = update_where (has_id id) (rebound dv.mac ref) db.vms; faults = fs1 }
    → db2 ≡ record db1 {
      vms = update_where (has_id id) (inspected disks (now_of db1)) db1.vms;
      faults = fs2;
    }
    → db3 ≡ record db2 { discovered = marked_taken dv.id db2.discovered; faults = fs3 }
    → db4 ≡ record db3 { faults = fs4 }
    → db4 ≡ record db {
      vms = update_where (has_id id) (taken_over dv.mac ref disks (now_of db)) db.vms;
      discovered = marked_taken dv.id db.discovered;
      faults = fs4;
    }
writes-chain dv disks id ref db db1 db2 db3 db4 fs1 fs2 fs3 fs4 e1 e2 e3 e4 =
    rw (e4, e3, e2, e1)
      (ap
        (λ rows. record db {
          vms = rows;
          discovered = marked_taken dv.id db.discovered;
          faults = fs4;
        })
        (update-update (has_id id) (rebound dv.mac ref) (inspected disks (now_of db)) db.vms
          (λ v. refl)))

-- The four writes, as one change of the database.
pub take_over-ok :
    (dv : DiscoveredVm) (disks : List DiscoveryDisk) (id ref : ℕ) (db db' : Db) (row : ManagedVm)
    → Gives (take_over dv disks id ref) db row db'
    → (db' ≡ record db {
      vms = update_where (has_id id) (taken_over dv.mac ref disks (now_of db)) db.vms;
      discovered = marked_taken dv.id db.discovered;
      faults = db'.faults;
    })
      × (find (has_id id) db'.vms ≡ some row)
      × (any (disc_has_id dv.id) db.discovered ≡ true)
unfolding take_over set_data_state_from_report rebind_managed_vm set_vm_data_state get_managed_vm
take_over-ok dv disks id ref db db' row h =
    let (u1, (db1, (a1, h1))) = bind-ok (rebind_managed_vm id dv.mac ref) _ db db' row h in
    let (u2, (db2, (a2, h2))) = bind-ok (set_data_state_from_report id disks) _ db1 db' row h1 in
    let (u3, (db3, (a3, h3))) = bind-ok (set_discovered_status dv.id taken) _ db2 db' row h2 in
    let e1 = update_vms_found-ok _ _ db db1 u1 a1 in
    let e2 = update_vms_found-ok _ _ db1 db2 u2 a2 in
    let e3 = set_discovered_status-ok _ _ db2 db3 u3 a3 in
    let e4 = get_vm_where-ok _ db3 db' row h3 in
    let all = writes-chain dv disks id ref db db1 db2 db3 db' _ _ _ _ e1.1 e2.1 e3.1 e4.1 in
    let known : Db → Bool = λ d. any (disc_has_id dv.id) d.discovered in
    (all, ap (λ d. find (has_id id) d.vms) e4.1 ∙ e4.0, sym (ap known e2.1 ∙ ap known e1.1) ∙ e3.0)

-- The steps of a site.
pub or_fail-ok :
    {S A : Type 0} (e : Error) (m : M S A) (s s' : S) (a : A)
    → Gives (or_fail e m) s a s'
    → Gives m s a s'
or_fail-ok e m s s' a h = with_error-ok e (m s) s' a h
  where
    with_error-ok :
        {S A : Type 0} (e : Error) (r : Result A × S) (s' : S) (a : A)
        → with_error e r ≡ (ok a, s')
        → r ≡ (ok a, s')
    with_error-ok e (ok x, s) s' a h = h
    with_error-ok e (err x, s) s' a h = absurd (ground (arith, h))

pub keep-ok :
    {W A : Type 0} (m : M Db A) (s s' : Site W) (a : A)
    → Gives (keep m) s a s'
    → Gives m s.orch.db a s'.orch.db
keep-ok m s s' a h = ap (λ x. (x.0, x.1.orch.db)) h

pub drive-ok :
    {W A : Type 0} (m : M W A) (s s' : Site W) (a : A)
    → Gives (drive m) s a s'
    → Gives m s.world a s'.world × (s'.orch ≡ s.orch)
drive-ok m s s' a h = (ap (λ x. (x.0, x.1.world)) h, sym (ap (λ x. x.1.orch) h))

pub guarded-ok :
    {S A : Type 0} (b : Bool) (e : Error) (m : M S A) (s s' : S) (a : A)
    → Gives (if b then fail e else m) s a s'
    → (b ≡ false) × Gives m s a s'
guarded-ok true e m s s' a h = absurd (ground (arith, h))
guarded-ok false e m s s' a h = (refl, h)

-- A guard that lets its value through.
pub guard-ok :
    {S A : Type 0} (b : Bool) (e : Error) (x : A) (s s' : S) (a : A)
    → Gives (if b then fail e else pure x) s a s'
    → (b ≡ false) × ((x ≡ a) × (s ≡ s'))
guard-ok true e x s s' a h = absurd (ground (arith, h))
guard-ok false e x s s' a h = (refl, (ground (arith, h), ground (arith, h)))

pub live_deployment-ok :
    (id : ℕ) (db db' : Db) (d : Deployment)
    → Gives (live_deployment id) db d db'
    → (find (dep_has_id id) db.deployments ≡ some d)
      × (is_deleted d.status ≡ false)
      × Unchanged db db'
unfolding live_deployment
live_deployment-ok id db db' d h =
    let (x, (db1, (a, g))) = bind-ok (get_deployment id) _ db db' d h in
    let e = get_deployment-ok id db db1 x a in
    let (live, (same, here)) = guard-ok _ _ x db1 db' d g in
    (e.0 ∙ ap some same, rw (← same) live, rw (← here) e.1)

identity_or_none-ok :
    (ds disks : List DiscoveryDisk) (o : Option IdentityMarker) (id : IdentityMarker)
    → identity_or_none ds o ≡ ok (disks, id)
    → (ds ≡ disks) × (o ≡ some id)
identity_or_none-ok ds disks none id h = absurd (ground (arith, h))
identity_or_none-ok ds disks (some i) id h = (ground (arith, h), ground (arith, h))

pub discovered_identity-ok :
    (i : Inspection) (disks : List DiscoveryDisk) (id : IdentityMarker)
    → discovered_identity i ≡ ok (disks, id)
    → (i ≡ report disks) × (ghost_identity disks ≡ some id)
unfolding discovered_identity
discovered_identity-ok no_report disks id h = absurd (ground (arith, h))
discovered_identity-ok unreadable disks id h = absurd (ground (arith, h))
discovered_identity-ok (report ds) disks id h =
    let (same, found) = identity_or_none-ok ds disks _ id h in
    (ap report same, ap ghost_identity (sym same) ∙ found)

pub some_or-ok :
    {S A : Type 0} (e : Error) (o : Option A) (s s' : S) (a : A)
    → Gives (some_or e o) s a s'
    → (o ≡ some a) × (s' ≡ s)
some_or-ok e none s s' a h = absurd (ground (arith, h))
some_or-ok e (some x) s s' a h = (ground (arith, h), ground (arith, h))

-- The database after the rebind of a record, and that record in it.
abbrev pub Rebound : DiscoveredVm → List DiscoveryDisk → ℕ → ℕ → Db → Db → ManagedVm → Type 0
Rebound dv disks id ref db db' row =
    (db' ≡ record db {
      vms = update_where (has_id id) (taken_over dv.mac ref disks (now_of db)) db.vms;
      discovered = marked_taken dv.id db.discovered;
      faults = db'.faults;
    })
    × (find (has_id id) db'.vms ≡ some row)
