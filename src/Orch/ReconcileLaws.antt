-- ===== src/Orch/ReconcileLaws.antt =====
-- What reconcileCore (internal/orch/orchestrator.go) that succeeds leaves in the store.
use ghostfleet.Base.{
  ℕ, zero, suc, ◌+◌, ◌≤◌, ◌<◌, ◌≡◌, refl, ap, ◌∙◌, Bool, true, false, List, [], ◌∷◌, Option, Name,
  ◌==◌, any, any-sort, any-select, any-append, any-update_same, Bool-cases, inl, inr, arith,
  name_eq_refl,
}
use ghostfleet.Base.Monad.{Result, ok, err, Error, M, bind_after, ◌>>=◌}
use ghostfleet.Model.Spec.{ProfileSpec}
use ghostfleet.Model.Naming.{vm_name}
use ghostfleet.Model.Records.{Deployment, ManagedVm}
use ghostfleet.Store.Db.{Db, new_id, update_vms_found}
use ghostfleet.Store.Vms.{
  same_place, in_deployment, vms_of, new_vm, add_managed_vm, update_managed_vm_disks,
}
use ghostfleet.Orch.State.{OnConflict, on_abort, on_adopt, on_clean}
use ghostfleet.Orch.Driver.{Driver, Vm}
use ghostfleet.Orch.Fleet.{Site}
use ghostfleet.Orch.Tasks.{drive}
use ghostfleet.Orch.Reconcile.{
  is_named, missing_from, mac_of, spec_of_vm, conflicts_among, clean_all, resolve, record_vm,
  create_vms, add_missing_disks, extend_small_disks, record_disks, grow_all,
}

-- A VM of that name in that deployment is recorded.
abbrev pub has_vm : ℕ → Name → Db → Bool
has_vm dep name db = any (same_place dep name) db.vms

-- A step forgets no recorded VM.
abbrev pub Keeps : {W A : Type 0} → ℕ → Name → M (Site W) A → Type 0
Keeps {W = W} dep name m =
    (s : Site W) → has_vm dep name s.orch.db ≡ true → has_vm dep name (m s).1.orch.db ≡ true

bound-Keeps :
    {W A B : Type 0} (dep : ℕ) (name : Name) (r : Result A × Site W) (f : A → M (Site W) B)
    → has_vm dep name r.1.orch.db ≡ true
    → ((a : A) → Keeps dep name (f a))
    → has_vm dep name (bind_after r f).1.orch.db ≡ true
bound-Keeps dep name (ok a, s) f h k = k a s h
bound-Keeps dep name (err e, s) f h k = h

bind-Keeps :
    {W A B : Type 0} (dep : ℕ) (name : Name) (m : M (Site W) A) (f : A → M (Site W) B)
    → Keeps dep name m
    → ((a : A) → Keeps dep name (f a))
    → Keeps dep name (m >>= f)
bind-Keeps dep name m f h k s there = bound-Keeps dep name (m s) f (h s there) k

-- A chain that succeeds went through its first step.
pub chain-ok :
    {W A B : Type 0} (r : Result A × Site W) (f : A → M (Site W) B) (b : B) (s' : Site W)
    → bind_after r f ≡ (ok b, s')
    → (a : A) × (t : Site W) × (r ≡ (ok a, t)) × (f a t ≡ (ok b, s'))
chain-ok (ok a, t) f b s' e = (a, t, refl, e)
chain-ok (err x, t) f b s' e = cc

add-has_vm :
    (dep : ℕ) (name other : Name) (ref : ℕ) (mac : Name) (count size : ℕ) (db : Db)
    → has_vm dep name db ≡ true
    → has_vm dep name (add_managed_vm dep other ref mac count size db).1 ≡ true
unfolding add_managed_vm new_id any
add-has_vm dep name other ref mac count size db h =
    let row = new_vm dep other ref mac count size db.next_id (suc db.next_id) in
    let longer = any-append (same_place dep name) db.vms (row ∷ []) in ground (arith, h, longer)

pub add_ok-has_vm :
    (dep : ℕ) (name : Name) (ref : ℕ) (mac : Name) (count size id : ℕ) (db : Db)
    → (add_managed_vm dep name ref mac count size db).0 ≡ ok id
    → has_vm dep name (add_managed_vm dep name ref mac count size db).1 ≡ true
unfolding add_managed_vm new_id any
add_ok-has_vm dep name ref mac count size id db h =
    let row = new_vm dep name ref mac count size db.next_id (suc db.next_id) in
    let longer = any-append (same_place dep name) db.vms (row ∷ []) in
    ground (arith, h, longer, name_eq_refl name)

disks-has_vm :
    (dep : ℕ) (name : Name) (id count size : ℕ) (db : Db)
    → has_vm dep name db ≡ true
    → has_vm dep name (update_managed_vm_disks id count size db).1 ≡ true
unfolding update_managed_vm_disks update_vms_found
disks-has_vm dep name id count size db h =
    let same =
      any-update_same (same_place dep name) (λ v. v.id == id)
        (λ v. record v { disk_count = count; disk_size_gib = size }) db.vms (λ v k. refl) in
    ground (arith, same, h)

-- A number in the range whose name is not recorded is among the missing.
pub missing_complete :
    (spec : ProfileSpec) (actual : List ManagedVm) (i left k : ℕ)
    → i ≤ k
    → k < i + left
    → any (is_named (vm_name spec k)) actual ≡ false
    → any (λ j. j == k) (missing_from spec actual i left) ≡ true
unfolding missing_from any
missing_complete spec actual i zero k a b h = absurd (omega (arith, a, b))
missing_complete spec actual i (suc left) k a b h = elim (Bool-cases (i == k)) [
  | inl same ↦
      let e : i ≡ k = ground (arith, same) in
      let n : any (is_named (vm_name spec i)) actual ≡ false =
        ap (λ j. any (is_named (vm_name spec j)) actual) e ∙ h in
      ground (arith, n, same)
  | inr other ↦
      let rest =
        missing_complete spec actual (suc i) left k (ground (arith, other, a)) (omega (arith, b))
          h in
      ground (arith, rest)
]

pub recorded-has_vm :
    (dep : ℕ) (name : Name) (db : Db) → any (is_named name) (vms_of dep db) ≡ has_vm dep name db
unfolding vms_of
recorded-has_vm dep name db =
    any-sort (is_named name) _ _ ∙ any-select (in_deployment dep) (is_named name) db.vms

module _ {W : Type 0} (driver : Driver W) where
  drive-Keeps : {A : Type 0} (dep : ℕ) (name : Name) (m : M W A) → Keeps dep name (drive m)
  drive-Keeps dep name m s h = h

  pub grow_all-Keeps :
      (dep : ℕ) (name : Name) (spec : ProfileSpec) (vms : List ManagedVm)
      → Keeps dep name (grow_all driver spec vms)
  unfolding grow_all
  grow_all-Keeps dep name spec [] s h = h
  grow_all-Keeps dep name spec (vm ∷ vms) s h =
      bind-Keeps dep name (add_missing_disks driver spec vm) _ (λ t k. ground (arith, k))
        (λ u.
          bind-Keeps dep name (extend_small_disks driver spec vm) _ (λ t k. ground (arith, k))
            (λ w.
              bind-Keeps dep name (record_disks driver spec vm) _
                (λ t k. ground (
                  arith,
                  k,
                  disks-has_vm dep name vm.id spec.disks_per_vm spec.disk_size_gib t.orch.db k,
                ))
                (λ x. grow_all-Keeps dep name spec vms)))
        s h

  clean_all-Keeps : (dep : ℕ) (name : Name) (cs : List Vm) → Keeps dep name (clean_all driver cs)
  unfolding clean_all
  clean_all-Keeps dep name [] s h = h
  clean_all-Keeps dep name (c ∷ cs) s h =
      bind-Keeps dep name (drive (driver.delete_vm c.ref)) (λ u. clean_all driver cs)
        (drive-Keeps dep name (driver.delete_vm c.ref)) (λ u. clean_all-Keeps dep name cs) s h

  pub resolve-Keeps :
      (dep : ℕ) (name : Name) (mode : OnConflict) (cs : List Vm)
      → Keeps dep name (resolve driver mode cs)
  unfolding resolve
  resolve-Keeps dep name mode [] s h = h
  resolve-Keeps dep name on_clean (c ∷ cs) s h = clean_all-Keeps dep name (c ∷ cs) s h
  resolve-Keeps dep name on_adopt (c ∷ cs) s h = h
  resolve-Keeps dep name on_abort (c ∷ cs) s h = h

  pub conflicts-Keeps :
      (dep : ℕ) (name : Name) (d : Deployment) (ns : List Name)
      → Keeps dep name (conflicts_among driver d ns)
  conflicts-Keeps dep name d [] s h = h
  conflicts-Keeps dep name d (n ∷ ns) s h =
      bind-Keeps dep name (drive (driver.find_vms d.placement (n ∷ ns))) _
        (drive-Keeps dep name (driver.find_vms d.placement (n ∷ ns))) (λ found t k. k) s h

  record_vm-has_vm :
      (name : Name) (d : Deployment) (i : ℕ) (first : Option Error) (r : Result ℕ) (s : Site W)
      → has_vm d.id name s.orch.db ≡ true
      → has_vm d.id name (record_vm driver d i first (r, s)).1.orch.db ≡ true
  record_vm-has_vm name d i first (err e) s h = h
  record_vm-has_vm name d i first (ok ref) s h =
      add-has_vm d.id name (vm_name d.spec i) ref (mac_of (driver.get_vm ref s.world).0)
        d.spec.disks_per_vm d.spec.disk_size_gib s.orch.db h

  pub create_vms-has_vm :
      (name : Name) (d : Deployment) (is : List ℕ) (first : Option Error) (s : Site W)
      → has_vm d.id name s.orch.db ≡ true
      → has_vm d.id name (create_vms driver d is (first, s)).1.orch.db ≡ true
  unfolding create_vms
  create_vms-has_vm name d [] first s h = h
  create_vms-has_vm name d (i ∷ is) first s h =
      let x = drive (driver.create_vm (spec_of_vm d i)) s in
      create_vms-has_vm name d is (record_vm driver d i first x).0 (record_vm driver d i first x).1
        (record_vm-has_vm name d i first x.0 x.1 h)
