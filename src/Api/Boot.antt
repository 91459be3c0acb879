-- ===== src/Api/Boot.antt =====
-- internal/api/boot.go: the endpoints of firmware and agents, authorized by MAC or by token.
use ghostfleet.Base.{ℕ, Bool, List, [], ◌∷◌, Option, Name, if◌then◌else◌, ltb}
use ghostfleet.Base.Monad.{Error, Result, ok, err, M, pure}
use ghostfleet.Model.Records.{ManagedVm, DiscoveredStatus, seen, taken}
use ghostfleet.Datagen.Report.{DiscoveryDisk, data_state}
use ghostfleet.Datagen.WorkOrder.{WorkOrder}
use ghostfleet.Store.Db.{Db, DiscoveredVm}
use ghostfleet.Store.Vms.{
  get_managed_vm_by_mac, get_managed_vm_by_token, set_vm_data_state, touch_agent, set_fill_total,
  report_fill_progress,
}
use ghostfleet.Store.Discovered.{
  ensure_discovered_vm, get_discovered_vm_by_token, set_discovered_inspection,
  touch_discovered_agent,
}
use ghostfleet.Orch.State.{Orch, lift}
use ghostfleet.Orch.Gate.{work_order_for_token}
use ghostfleet.Api.Reply.{Reply, H, reply, bare, store_code, calls, with_body}

-- The iPXE scripts by what they do: boot a managed VM with its token and name, boot for discovery with a
-- discovery token, or give up.
pub data Script : Type 0 where
  managed : ℕ → Name → Script
  discovers : ℕ → Script
  gives_up : Script

abbrev pub discovery_script : Result DiscoveredVm × Orch → Reply Script × Orch
discovery_script (ok dv, o) = reply 200 (discovers dv.token) o
discovery_script (err e, o) = reply 200 gives_up o

-- `discovery` is the configuration.
unfoldable pub handle_discovery_boot : Bool → Name → H Orch Script
handle_discovery_boot discovery mac o =
    if discovery then discovery_script (lift (ensure_discovered_vm mac) o) else reply 200 gives_up o

-- Any error of the lookup is an unknown MAC.
abbrev pub boot_found : Bool → Name → Result ManagedVm × Orch → Reply Script × Orch
boot_found discovery mac (ok vm, o) = reply 200 (managed vm.boot_token vm.name) o
boot_found discovery mac (err e, o) = handle_discovery_boot discovery mac o

unfoldable pub handle_boot_script : Bool → Name → H Orch Script
unfolding handle_discovery_boot
handle_boot_script discovery [] o = bare 400 o
handle_boot_script discovery (c ∷ cs) o =
    boot_found discovery (c ∷ cs) (lift (get_managed_vm_by_mac (c ∷ cs)) o)

pub record AgentRequest : Type 0 where
  pub token : ℕ
  pub disks : List DiscoveryDisk

-- The work order, or none for the action "idle".
pub record AgentResponse : Type 0 where
  pub vm_name : Name
  pub work_order : Option WorkOrder

abbrev pub unauthorized : Error → ℕ
unauthorized e = 401

-- agentAuth and discoveryAuth.
unfoldable pub agent_auth : {A : Type 0} → ℕ → (ManagedVm → H Orch A) → H Orch A
agent_auth token k = calls unauthorized (lift (get_managed_vm_by_token token)) k

unfoldable pub discovery_auth : {A : Type 0} → ℕ → (DiscoveredVm → H Orch A) → H Orch A
discovery_auth token k = calls unauthorized (lift (get_discovered_vm_by_token token)) k

module _ (fnv : Name → ℕ) (text : ℕ → Name) where
  abbrev pub respond_with : ManagedVm → Orch → Option WorkOrder × Db → Reply AgentResponse × Orch
  respond_with vm o (order, db) =
      reply 200 (record { vm_name = vm.name; work_order = order }) (record o { db = db })

  abbrev answer_agent : ManagedVm → H Orch AgentResponse
  answer_agent vm o = respond_with vm o (work_order_for_token fnv text vm o.db)

  unfoldable pub agent_respond : ManagedVm → H Orch AgentResponse
  agent_respond vm = calls store_code (lift (touch_agent vm.id)) (λ u. answer_agent vm)

  abbrev pub register_disks : ManagedVm → List DiscoveryDisk → H Orch AgentResponse
  register_disks vm [] = agent_respond vm
  register_disks vm (d ∷ ds) =
      let state = data_state (d ∷ ds) in
      calls store_code (lift (set_vm_data_state vm.id state.0 state.1 state.2))
        (λ u. agent_respond vm)

  unfoldable pub handle_agent_register : Option AgentRequest → H Orch AgentResponse
  unfolding agent_auth agent_respond
  handle_agent_register body =
      with_body body (λ req. agent_auth req.token (λ vm. register_disks vm req.disks))

  unfoldable pub handle_agent_heartbeat : Option AgentRequest → H Orch AgentResponse
  unfolding agent_auth agent_respond
  handle_agent_heartbeat body = with_body body (λ req. agent_auth req.token agent_respond)

-- `bytes_total` 0 stands for a target that is not sent.
pub record ProgressReport : Type 0 where
  pub token : ℕ
  pub bytes_written : ℕ
  pub bytes_total : ℕ
  pub mbps : ℕ
  pub finished : Bool
  pub message : Name

abbrev pub new_total : ManagedVm → ℕ → M Orch (Unit {0})
new_total vm total = if ltb 0 total then lift (set_fill_total vm.id total) else pure tt

unfoldable pub handle_agent_progress : Option ProgressReport → H Orch (Unit {0})
unfolding agent_auth
handle_agent_progress body = with_body body (λ req. agent_auth req.token (λ vm.
    calls store_code (new_total vm req.bytes_total) (λ u.
      calls store_code
        (lift (report_fill_progress vm.id req.bytes_written req.mbps req.finished req.message))
        (λ u. bare 204))))

pub data DiscoveryAction : Type 0 where
  idles reboots : DiscoveryAction

abbrev pub status_action : DiscoveredStatus → DiscoveryAction
status_action seen = idles
status_action taken = reboots

unfoldable pub discovery_action : DiscoveredVm → DiscoveryAction
discovery_action dv = status_action dv.status

unfoldable pub handle_discovery_report : Option (ℕ × List DiscoveryDisk) → H Orch DiscoveryAction
unfolding discovery_auth discovery_action
handle_discovery_report body = with_body body (λ req. discovery_auth req.0 (λ dv.
    calls store_code (lift (set_discovered_inspection dv.id req.1))
      (λ u. reply 200 (discovery_action dv))))

unfoldable pub handle_discovery_heartbeat : Option ℕ → H Orch DiscoveryAction
unfolding discovery_auth discovery_action
handle_discovery_heartbeat body = with_body body (λ token. discovery_auth token (λ dv.
    calls store_code (lift (touch_discovered_agent dv.id)) (λ u. reply 200 (discovery_action dv))))
