-- ===== src/Api/Discovered.antt =====
-- internal/api/discovery.go: the handlers of discovered VMs.
use ghostfleet.Base.{ℕ, Name, Option}
use ghostfleet.Store.Db.{DiscoveredVm}
use ghostfleet.Store.Discovered.{get_discovered_vm, delete_discovered_vm}
use ghostfleet.Orch.Driver.{Driver}
use ghostfleet.Orch.Fleet.{Site}
use ghostfleet.Orch.Tasks.{keep}
use ghostfleet.Orch.Adopt.{AdoptResult, adopt_rebind, adopt_new}
use ghostfleet.Api.Reply.{H, reply, bare, store_code, adopt_code, calls, with_body}

-- `mode`, with what the new deployment takes: a name, a connection and a deployment to join.
pub data AdoptMode : Type 0 where
  rebind other_mode : AdoptMode
  new_deployment : Name → ℕ → ℕ → AdoptMode

unfoldable pub handle_delete_discovered_vm : {W : Type 0} → ℕ → H (Site W) (Unit {0})
handle_delete_discovered_vm id =
    calls store_code (keep (get_discovered_vm id))
      (λ dv. calls store_code (keep (delete_discovered_vm id)) (λ u. bare 204))

module _ {W : Type 0} (driver : Driver W) where
  abbrev pub adopt_as : AdoptMode → DiscoveredVm → H (Site W) AdoptResult
  adopt_as rebind dv = calls adopt_code (adopt_rebind driver dv) (reply 200)
  adopt_as (new_deployment name connection id) dv =
      calls adopt_code (adopt_new driver dv name connection id) (reply 200)
  adopt_as other_mode dv = bare 400

  unfoldable pub handle_adopt_discovered_vm : ℕ → Option AdoptMode → H (Site W) AdoptResult
  handle_adopt_discovered_vm id body =
      with_body body (λ mode. calls store_code (keep (get_discovered_vm id)) (adopt_as mode))
