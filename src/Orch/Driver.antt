-- ===== src/Orch/Driver.antt =====
-- internal/hypervisor/hypervisor.go: the driver interface, on a world of its own. The vSphere driver
-- behind it is no part of the model.
use ghostfleet.Base.{ℕ, Bool, List, Option, Name}
use ghostfleet.Base.Monad.{M}
use ghostfleet.Model.Records.{Placement}

pub data VmState : Type 0 where
  powered_on powered_off : VmState

pub record Vm : Type 0 where
  pub ref : ℕ
  pub name : Name
  pub state : VmState
  pub disk_count : ℕ
  pub mac : Name
  pub owner_id : ℕ
  pub owner_name : Name

pub record DiskSpec : Type 0 where
  pub size_gib : ℕ
  pub thin : Bool

pub record VmSpec : Type 0 where
  pub name : Name
  pub vcpus : ℕ
  pub memory_mib : ℕ
  pub disks : List DiskSpec
  pub tag : Name
  pub deployment_id : ℕ
  pub deployment_name : Name
  pub placement : Placement

-- `get_vm` gives none for a VM that is gone. The methods that the controller calls on one VM
-- or to change it.
pub record Driver (W : Type 0) : Type 0 where
  pub open_driver : ℕ → M W (Unit {0})
  pub create_vm : VmSpec → M W ℕ
  pub add_disks : ℕ → List DiskSpec → M W (Unit {0})
  pub extend_disks : ℕ → ℕ → M W (Unit {0})
  pub get_vm : ℕ → M W (Option Vm)
  pub find_vms : Placement → List Name → M W (List Vm)
  pub find_vm_by_mac : Name → M W (Option Vm)
  pub read_console : ℕ → M W Name
  pub power_on : ℕ → M W (Unit {0})
  pub power_off : ℕ → M W (Unit {0})
  pub delete_vm : ℕ → M W (Unit {0})
