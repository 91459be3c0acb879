-- ===== src/Witness/OfAdopt.antt =====
-- Applications to the adoption of a stray VM (internal/orch/adopt.go, internal/api/boot.go).
use ghostfleet.Base.{
  ◌≡◌, refl, true, false, List, [], ◌∷◌, none, some, find, any, update_where, name_eq, ℕ, ◌==◌,
}
use ghostfleet.Base.Binds.{Gives}
use ghostfleet.Model.Records.{ManagedVm, seen, pending}
use ghostfleet.Datagen.Report.{DiscoveryDisk, IdentityMarker, ghost_identity, data_state}
use ghostfleet.Store.Db.{DiscoveredVm, report, to_lower, now_of, update_vms_found}
use ghostfleet.Store.Vms.{
  get_managed_vm, get_managed_vm_by_name, get_vm_where, rebind_managed_vm, set_vm_data_state,
}
use ghostfleet.Store.Deployments.{get_deployment}
use ghostfleet.Store.Discovered.{set_discovered_status}
use ghostfleet.Orch.Driver.{Vm}
use ghostfleet.Orch.Fleet.{Site}
use ghostfleet.Orch.Adopt.{AdoptResult, is_taken, adopt_rebind}
use ghostfleet.Orch.RebindCalls.{Rebound, taken_over}
use ghostfleet.Orch.Rebind.{adopt_rebind-writes, Names, Seen}
use ghostfleet.Api.Boot.{managed, reboots, handle_boot_script, handle_discovery_heartbeat}
use ghostfleet.Api.Adopted.{adopted_boots_managed, has_vm_mac}
use ghostfleet.Samples.{fleet, fleet_spec, vm_row, cold, cold_site, store, idle}

abbrev marked_disk : DiscoveryDisk
marked_disk = record {
  device = b's' ∷ [];
  size_gib = 10;
  filesystem = b'x' ∷ [];
  identity = some (record {
    deployment_id = 1;
    deployment_name = b'f' ∷ [];
    vm_name = 2 ∷ [];
    disk_index = 0;
    spec = fleet_spec;
  });
  run_id = 5;
  run_bytes = 0;
  manifest = true;
  file_count = 1;
}

abbrev stray : DiscoveredVm
stray = record {
  id = 20;
  mac = 9 ∷ [];
  token = 21;
  status = seen;
  inspection = report (marked_disk ∷ []);
  first_seen_at = 0;
  last_seen_at = 0;
  agent_seen_at = none;
}

abbrev stray_site : Site (List ℕ)
stray_site = record cold_site {
  orch = record idle { db = record store { discovered = stray ∷ [] } };
}

abbrev adopted_row : ManagedVm
adopted_row = taken_over (9 ∷ []) 4 (marked_disk ∷ []) (now_of store) (vm_row 2 pending)

abbrev adoption : AdoptResult
adoption = record { deployment = fleet; vm = adopted_row; warning = some (2 ∷ [], 2) }

abbrev adopted_site : Site (List ℕ)
adopted_site = (adopt_rebind cold stray stray_site).1

adopts : Gives (adopt_rebind cold stray) stray_site adoption adopted_site
unfolding adopt_rebind ghost_identity find update_where name_eq any data_state to_lower
    get_deployment get_managed_vm_by_name get_vm_where rebind_managed_vm update_vms_found
    set_vm_data_state set_discovered_status get_managed_vm
adopts = refl

adopt_rebind-writes_example :
    (disks : List DiscoveryDisk) × (id : IdentityMarker) × (vm : ManagedVm) × (hv : Vm) × (is_taken
        seen
      ≡ false)
    × (report (marked_disk ∷ []) ≡ report disks)
    × (ghost_identity disks ≡ some id)
    × Names id fleet vm stray_site.orch.db
    × Seen cold (9 ∷ []) hv
    × Rebound stray disks vm.id hv.ref stray_site.orch.db adopted_site.orch.db adopted_row
adopt_rebind-writes_example = adopt_rebind-writes cold stray stray_site adopted_site adoption adopts

new_mac : any (has_vm_mac (9 ∷ [])) store.vms ≡ false
unfolding any name_eq to_lower
new_mac = refl

known_token : find (λ v. v.token == 21) stray_site.orch.db.discovered ≡ some stray
unfolding find
known_token = refl

no_faults : adopted_site.orch.db.faults ≡ []
unfolding adopt_rebind ghost_identity find update_where name_eq any data_state to_lower
    get_deployment get_managed_vm_by_name get_vm_where rebind_managed_vm update_vms_found
    set_vm_data_state set_discovered_status get_managed_vm
no_faults = refl

adopted_boots_managed_example :
    ((handle_boot_script true (9 ∷ []) adopted_site.orch).0
      ≡ record { code = 200; body = some (managed 2 (2 ∷ [])) })
    × ((handle_discovery_heartbeat (some 21) adopted_site.orch).0
        ≡ record { code = 200; body = some reboots })
adopted_boots_managed_example =
    adopted_boots_managed cold true stray stray_site adopted_site adoption adopts refl new_mac
      known_token no_faults
