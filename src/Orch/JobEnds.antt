-- ===== src/Orch/JobEnds.antt =====
-- What runJob (internal/orch/orchestrator.go) records of a job.
use ghostfleet.Base.{ℕ, ◌≡◌, refl, ◌∙◌, Bool, List, [], ◌∷◌, if◌then◌else◌, arith}
use ghostfleet.Base.Monad.{Result, ok, err, M, ◌>>◌, ◌>>=◌, bind_after}
use ghostfleet.Model.Records.{Deployment, ManagedVm}
use ghostfleet.Store.Db.{Db}
use ghostfleet.Store.Vms.{list_managed_vms, delete_managed_vm}
use ghostfleet.Orch.Driver.{Driver}
use ghostfleet.Orch.Fleet.{Site}
use ghostfleet.Orch.Tasks.{keep, drive, power_all, power_func, delete_all, teardown_fleet}

-- A job leaves the runs and the deployments to runJob.
pub record IsDiscreet (db db' : Db) : Type 0 where
  pub runs : db'.runs ≡ db.runs
  pub deployments : db'.deployments ≡ db.deployments
  pub clock : db'.clock ≡ db.clock
  pub faults : db.faults ≡ [] → db'.faults ≡ []

pub Discreet-same : (db : Db) → IsDiscreet db db
Discreet-same db = record { runs = refl; deployments = refl; clock = refl; faults = λ h. h }

pub Discreet-trans : (a b c : Db) → IsDiscreet a b → IsDiscreet b c → IsDiscreet a c
Discreet-trans a b c h k = record {
  runs = k.runs ∙ h.runs;
  deployments = k.deployments ∙ h.deployments;
  clock = k.clock ∙ h.clock;
  faults = λ e. k.faults (h.faults e);
}

abbrev pub DiscreetJob : {W A : Type 0} → M (Site W) A → Type 0
DiscreetJob {W} m = (s : Site W) → IsDiscreet s.orch.db (m s).1.orch.db

pub bound-Discreet :
    {W A B : Type 0} (s : Site W) (r : Result A × Site W) (f : A → M (Site W) B)
    → IsDiscreet s.orch.db r.1.orch.db
    → ((a : A) → DiscreetJob (f a))
    → IsDiscreet s.orch.db (bind_after r f).1.orch.db
bound-Discreet s (ok a, s') f h k =
    Discreet-trans s.orch.db s'.orch.db (f a s').1.orch.db h (k a s')
bound-Discreet s (err e, s') f h k = h

pub bind-Discreet :
    {W A B : Type 0} (m : M (Site W) A) (f : A → M (Site W) B)
    → DiscreetJob m
    → ((a : A) → DiscreetJob (f a))
    → DiscreetJob (m >>= f)
bind-Discreet m f h k s = bound-Discreet s (m s) f (h s) k

pub drive-Discreet : {W A : Type 0} (m : M W A) → DiscreetJob (drive m)
drive-Discreet m s = Discreet-same s.orch.db

module _ {W : Type 0} (driver : Driver W) where
  power_all-Discreet : (on : Bool) (vms : List ManagedVm) → DiscreetJob (power_all driver on vms)
  unfolding power_all
  power_all-Discreet on [] s = Discreet-same s.orch.db
  power_all-Discreet on (vm ∷ vms) s =
      bind-Discreet (drive (if on then driver.power_on vm.ref else driver.power_off vm.ref))
        (λ u. power_all driver on vms)
        (drive-Discreet (if on then driver.power_on vm.ref else driver.power_off vm.ref))
        (λ u. power_all-Discreet on vms) s

  list-Discreet : (id : ℕ) → DiscreetJob {W = W} (keep (list_managed_vms id))
  unfolding list_managed_vms
  list-Discreet id s = ground arith

  delete-Discreet : (id : ℕ) → DiscreetJob {W = W} (keep (delete_managed_vm id))
  unfolding delete_managed_vm
  delete-Discreet id s = ground arith

  pub power_func-Discreet : (on : Bool) (d : Deployment) → DiscreetJob (power_func driver on d)
  unfolding power_func
  power_func-Discreet on d s =
      bind-Discreet (keep (list_managed_vms d.id)) (power_all driver on) (list-Discreet d.id)
        (λ vms. power_all-Discreet on vms) s

  delete_all-Discreet : (vms : List ManagedVm) → DiscreetJob (delete_all driver vms)
  unfolding delete_all
  delete_all-Discreet [] s = Discreet-same s.orch.db
  delete_all-Discreet (vm ∷ vms) s =
      bind-Discreet (drive (driver.delete_vm vm.ref))
        (λ u. keep (delete_managed_vm vm.id) >> delete_all driver vms)
        (drive-Discreet (driver.delete_vm vm.ref))
        (λ u.
          bind-Discreet (keep (delete_managed_vm vm.id)) (λ w. delete_all driver vms)
            (delete-Discreet vm.id) (λ w. delete_all-Discreet vms))
        s

  pub teardown_fleet-Discreet : (d : Deployment) → DiscreetJob (teardown_fleet driver d)
  unfolding teardown_fleet
  teardown_fleet-Discreet d s =
      bind-Discreet (keep (list_managed_vms d.id)) (delete_all driver) (list-Discreet d.id)
        (λ vms. delete_all-Discreet vms) s
