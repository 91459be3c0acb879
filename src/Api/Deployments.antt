-- ===== src/Api/Deployments.antt =====
-- internal/api/deployments.go: the handlers of deployments, with the grow-only rule.
use ghostfleet.Base.{ℕ, Bool, false, ◌||◌, Option, none, some, Name, ◌==◌, if◌then◌else◌, ltb}
use ghostfleet.Base.Monad.{Error, Result, ok, err}
use ghostfleet.Model.Int.{ℤ}
use ghostfleet.Model.Spec.{ProfileSpec, SpecOf, is_empty}
use ghostfleet.Model.Checked.{as_raw, check_spec}
use ghostfleet.Model.Records.{Deployment, Placement, Profile, new, created}
use ghostfleet.Store.Deployments.{
  get_deployment, create_deployment, update_deployment_spec, deployment_filled,
}
use ghostfleet.Store.Profiles.{get_profile, get_profile_version}
use ghostfleet.Store.Connections.{get_connection}
use ghostfleet.Orch.State.{Orch, lift}
use ghostfleet.Orch.Jobs.{is_active}
use ghostfleet.Api.Reply.{H, reply, bare, store_code, calls, with_body}

pub record DeploymentRequest : Type 0 where
  pub name : Name
  pub profile_id : ℕ
  pub profile_version : ℕ
  pub connection_id : ℕ
  pub spec : Option (SpecOf ℤ)
  pub placement : Placement

abbrev pub bad_request : Error → ℕ
bad_request e = 400

abbrev pub with_spec : {S A : Type 0} → Option ProfileSpec → (ProfileSpec → H S A) → H S A
with_spec none k = bare 400
with_spec (some spec) k = k spec

-- The spec of the request, or that of the profile's version.
abbrev pub spec_source : {A : Type 0} → Option (SpecOf ℤ) → ℕ → ℕ → (SpecOf ℤ → H Orch A) → H Orch A
spec_source (some spec) id version k = k spec
spec_source none id version k =
    calls store_code (lift (get_profile_version id version)) (λ v. k (as_raw v.spec))

abbrev pub version_or : ℕ → ℕ → ℕ
version_or asked current = if asked == 0 then current else asked

-- Status and origin are those of a row that the request leaves at their defaults.
abbrev pub requested : DeploymentRequest → ℕ → ProfileSpec → Deployment
requested req version spec = record {
  id = 0;
  name = req.name;
  profile_id = req.profile_id;
  profile_version = version;
  connection_id = req.connection_id;
  spec = spec;
  placement = req.placement;
  status = new;
  origin = created;
  created_at = 0;
  updated_at = 0;
}

abbrev create_from : DeploymentRequest → Profile → H Orch Deployment
create_from req profile =
    let version = version_or req.profile_version profile.row.current_version in
    spec_source req.spec req.profile_id version (λ raw. with_spec (check_spec raw) (λ spec.
      calls store_code (lift (create_deployment (requested req version spec))) (reply 201)))

unfoldable pub handle_create_deployment : Option DeploymentRequest → H Orch Deployment
handle_create_deployment body = with_body body (λ req.
    if is_empty req.name || req.profile_id == 0 || req.connection_id == 0
    then bare 400
    else calls bad_request (lift (get_connection req.connection_id))
        (λ c. calls bad_request (lift (get_profile req.profile_id)) (create_from req)))

-- The four dimensions of shrinkCheck; a message or "".
unfoldable pub shrink_check : ProfileSpec → ProfileSpec → Bool
shrink_check old spec =
    ltb spec.vm_count old.vm_count
    || ltb spec.disks_per_vm old.disks_per_vm
    || ltb spec.disk_size_gib old.disk_size_gib
    || ltb spec.data_per_disk_gib old.data_per_disk_gib

abbrev pub grow : Deployment → ProfileSpec → H Orch Deployment
grow d spec =
    if shrink_check d.spec spec
    then bare 409
    else calls store_code (lift (update_deployment_spec d.id spec))
        (λ u. calls store_code (lift (get_deployment d.id)) (reply 200))

unfoldable pub handle_update_deployment_spec : ℕ → Option (SpecOf ℤ) → H Orch Deployment
unfolding shrink_check
handle_update_deployment_spec id body =
    with_body body (λ raw.
      calls store_code (lift (get_deployment id)) (λ d. with_spec (check_spec raw) (grow d)))

-- A deployment with its computed fields.
pub record DeploymentView : Type 0 where
  pub deployment : Deployment
  pub filled : Bool
  pub running : Bool

abbrev pub ok_or_false : {S : Type 0} → Result Bool × S → Result Bool × S
ok_or_false (ok b, s) = (ok b, s)
ok_or_false (err e, s) = (ok false, s)

unfoldable pub handle_get_deployment : ℕ → H Orch DeploymentView
handle_get_deployment id = calls store_code (lift (get_deployment id)) (λ d.
    calls store_code (λ o. ok_or_false (lift (deployment_filled d.id) o))
      (λ filled o.
        reply 200 (record { deployment = d; filled = filled; running = is_active d.id o }) o))
