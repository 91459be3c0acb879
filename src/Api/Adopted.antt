-- ===== src/Api/Adopted.antt =====
-- A discovered VM after its adoption: how it boots (internal/api/boot.go, internal/orch/adopt.go).
use ghostfleet.Base.{
  ℕ, ◌≡◌, refl, ap, sym, ◌∙◌, Bool, true, false, List, [], ◌∷◌, some, Name, name_eq, name_eq_refl,
  find, any, find-marked, find-update_if, update_where, arith, if◌then◌else◌, ◌==◌,
}
use ghostfleet.Base.Monad.{ok}
use ghostfleet.Base.Binds.{Gives}
use ghostfleet.Model.Spec.{is_empty}
use ghostfleet.Model.Records.{ManagedVm, taken}
use ghostfleet.Datagen.Report.{DiscoveryDisk}
use ghostfleet.Store.Db.{Db, DiscoveredVm, to_lower, now_of}
use ghostfleet.Store.Vms.{has_id, get_managed_vm_by_mac, get_vm_where}
use ghostfleet.Store.Discovered.{disc_has_id, get_discovered_vm_by_token, touch_discovered_agent}
use ghostfleet.Orch.State.{Orch, lift_at}
use ghostfleet.Orch.Driver.{Driver}
use ghostfleet.Orch.Fleet.{Site}
use ghostfleet.Orch.Adopt.{AdoptResult, adopt_rebind}
use ghostfleet.Orch.RebindCalls.{Rebound, taken_over}
use ghostfleet.Orch.Rebind.{adopt_rebind-writes}
use ghostfleet.Api.Boot.{
  managed, reboots, handle_boot_script, handle_discovery_heartbeat, discovery_auth,
  discovery_action, boot_found,
}

abbrev pub has_vm_mac : Name → ManagedVm → Bool
has_vm_mac mac v = name_eq v.mac (to_lower mac)

mac-found :
    (dv : DiscoveredVm) (disks : List DiscoveryDisk) (id ref : ℕ) (db db' : Db) (row : ManagedVm)
    → Rebound dv disks id ref db db' row
    → any (has_vm_mac dv.mac) db.vms ≡ false
    → find (has_vm_mac dv.mac) db'.vms ≡ some row
mac-found dv disks id ref db db' row (all, back) new =
    let rows : db'.vms ≡ update_where (has_id id) (taken_over dv.mac ref disks (now_of db)) db.vms =
      ap (λ x. x.vms) all in
    ap (find (has_vm_mac dv.mac)) rows
    ∙ find-marked (has_vm_mac dv.mac) (has_id id) (taken_over dv.mac ref disks (now_of db)) db.vms
        new (λ x e. name_eq_refl (to_lower dv.mac)) (λ x. refl)
    ∙ sym (ap (find (has_id id)) rows)
    ∙ back

boots-managed :
    (discovery : Bool) (mac : Name) (row : ManagedVm) (o : Orch)
    → is_empty mac ≡ false
    → o.db.faults ≡ []
    → find (has_vm_mac mac) o.db.vms ≡ some row
    → (handle_boot_script discovery mac o).0
      ≡ record { code = 200; body = some (managed row.boot_token row.name) }
unfolding handle_boot_script get_managed_vm_by_mac get_vm_where
boots-managed discovery [] row o e h there = cc
boots-managed discovery (c ∷ cs) row o e h there =
    let got : get_managed_vm_by_mac (c ∷ cs) o.db ≡ (ok row, o.db) = ground (arith, h, there) in
    ap (λ r. (boot_found discovery (c ∷ cs) (lift_at o r)).0) got

abbrev has_disc_token : ℕ → DiscoveredVm → Bool
has_disc_token token v = v.token == token

taken-reboots :
    (dv : DiscoveredVm) (token : ℕ) (o : Orch)
    → o.db.faults ≡ []
    → find (has_disc_token token) o.db.discovered ≡ some dv
    → dv.status ≡ taken
    → (handle_discovery_heartbeat (some token) o).0 ≡ record { code = 200; body = some reboots }
unfolding handle_discovery_heartbeat discovery_auth discovery_action get_discovered_vm_by_token
    touch_discovered_agent
taken-reboots dv token o h there e =
    let got : get_discovered_vm_by_token token o.db ≡ (ok dv, o.db) = ground (arith, h, there) in
    rw (got, h, e) refl

-- After a rebind that succeeds, and while no statement fails: if no managed VM had the discovered MAC before,
-- the machine with that MAC is given the boot script of the re-pointed record, with its token and name, and
-- the agent that still has the discovery token is told to reboot.
pub adopted_boots_managed :
    {W : Type 0} (driver : Driver W) (discovery : Bool) (dv : DiscoveredVm) (s s' : Site W)
    (res : AdoptResult)
    → Gives (adopt_rebind driver dv) s res s'
    → is_empty dv.mac ≡ false
    → any (has_vm_mac dv.mac) s.orch.db.vms ≡ false
    → find (λ v. v.token == dv.token) s.orch.db.discovered ≡ some dv
    → s'.orch.db.faults ≡ []
    → ((handle_boot_script discovery dv.mac s'.orch).0
        ≡ record { code = 200; body = some (managed res.vm.boot_token res.vm.name) })
      × ((handle_discovery_heartbeat (some dv.token) s'.orch).0
          ≡ record { code = 200; body = some reboots })
adopted_boots_managed driver discovery dv s s' res g named new known h =
    let (disks, id, vm, hv, free, i, gi, names, shown, re) =
      adopt_rebind-writes driver dv s s' res g in
    (
      boots-managed discovery dv.mac res.vm s'.orch named h
          (mac-found dv disks vm.id hv.ref s.orch.db s'.orch.db res.vm re new),
      taken-reboots (record dv { status = taken }) dv.token s'.orch h
          (ap (λ x. find (has_disc_token dv.token) x.discovered) re.0
            ∙ find-update_if (has_disc_token dv.token) (disc_has_id dv.id) _ s.orch.db.discovered dv
                (λ y. refl) known
            ∙ ap (λ b. some (if b then record dv { status = taken } else dv)) mine)
          refl,
    )
  where
    mine : disc_has_id dv.id dv ≡ true
    mine = ground arith
