-- ===== src/Api/Operations.antt =====
-- internal/api/operations.go: the handlers that start and cancel jobs.
use ghostfleet.Base.{ℕ, Bool, ◌||◌, List, [], ◌∷◌, Option, none, some, Name, name_eq, if◌then◌else◌}
use ghostfleet.Base.Monad.{M}
use ghostfleet.Model.Records.{
  Deployment, ManagedVm, Run, RunType, initial_fill, incremental, verify, is_deleted, is_deleting,
  is_ready, type_eq,
}
use ghostfleet.Store.Vms.{list_managed_vms}
use ghostfleet.Store.Deployments.{get_deployment, mark_deployment_deleted}
use ghostfleet.Orch.State.{Orch, OnConflict, on_abort, on_adopt, on_clean, lift}
use ghostfleet.Orch.Jobs.{cancel}
use ghostfleet.Orch.Start.{start_deploy, start_teardown, start_fill, start_power}
use ghostfleet.Orch.Driver.{Driver, Vm}
use ghostfleet.Orch.Fleet.{Site}
use ghostfleet.Orch.Tasks.{keep}
use ghostfleet.Orch.Reconcile.{detect_conflicts}
use ghostfleet.Api.Reply.{H, reply, bare, store_code, job_code, connect_code, calls, with_body}

abbrev abort_text : Name
abort_text = b'a' ∷ b'b' ∷ b'o' ∷ b'r' ∷ b't' ∷ []

abbrev adopt_text : Name
adopt_text = b'a' ∷ b'd' ∷ b'o' ∷ b'p' ∷ b't' ∷ []

abbrev clean_text : Name
clean_text = b'c' ∷ b'l' ∷ b'e' ∷ b'a' ∷ b'n' ∷ []

-- The switch on `onConflict`, "" for the default.
unfoldable pub conflict_mode : Name → Option OnConflict
conflict_mode [] = some on_abort
conflict_mode (c ∷ cs) =
    if name_eq (c ∷ cs) abort_text
    then some on_abort
    else (if name_eq (c ∷ cs) adopt_text
        then some on_adopt
        else (if name_eq (c ∷ cs) clean_text then some on_clean else none))

abbrev pub is_gone : Deployment → Bool
is_gone d = is_deleted d.status || is_deleting d.status

abbrev pub is_fill_type : RunType → Bool
is_fill_type ty = type_eq ty initial_fill || type_eq ty incremental || type_eq ty verify

-- A started run, or the status of the error.
abbrev pub accepts : M Orch Run → H Orch Run
accepts m = calls job_code m (reply 202)

abbrev pub deploy_in : ℕ → Option OnConflict → H Orch Run
deploy_in id none = bare 400
deploy_in id (some mode) =
    calls store_code (lift (get_deployment id))
      (λ d. if is_gone d then bare 409 else accepts (start_deploy d mode))

-- The body holds `onConflict`; an empty body is "".
unfoldable pub deploy_deployment : ℕ → Option Name → H Orch Run
unfolding conflict_mode
deploy_deployment id body = with_body body (λ text. deploy_in id (conflict_mode text))

abbrev pub teardown_listed : (ℕ → Name) → Deployment → List ManagedVm → H Orch Run
teardown_listed text d [] =
    calls store_code (lift (mark_deployment_deleted text d.id)) (λ u. bare 204)
teardown_listed text d (v ∷ vs) = accepts (start_teardown d)

unfoldable pub teardown_deployment : (ℕ → Name) → ℕ → H Orch Run
teardown_deployment text id = calls store_code (lift (get_deployment id)) (λ d.
    if is_deleted d.status
    then bare 409
    else calls store_code (lift (list_managed_vms d.id)) (teardown_listed text d))

unfoldable pub fill_deployment : ℕ → Option RunType → H Orch Run
fill_deployment id body = with_body body (λ ty.
    if is_fill_type ty
    then calls store_code (lift (get_deployment id))
        (λ d. if is_ready d.status then accepts (start_fill d ty) else bare 409)
    else bare 400)

unfoldable pub cancel_deployment : ℕ → H Orch Run
cancel_deployment id =
    calls store_code (lift (get_deployment id)) (λ d. calls job_code (cancel id) (λ u. bare 202))

unfoldable pub list_deployment_vms : ℕ → H Orch (List ManagedVm)
list_deployment_vms id =
    calls store_code (lift (get_deployment id))
      (λ d. calls store_code (lift (list_managed_vms id)) (reply 200))

unfoldable pub power_deployment : ℕ → Option Bool → H Orch Run
power_deployment id body = with_body body (λ on.
    calls store_code (lift (get_deployment id))
      (λ d. if is_gone d then bare 409 else accepts (start_power d on)))

unfoldable pub list_conflicts : {W : Type 0} → Driver W → ℕ → H (Site W) (List Vm)
unfolding detect_conflicts
list_conflicts driver id =
    calls store_code (keep (get_deployment id))
      (λ d. calls connect_code (detect_conflicts driver d) (reply 200))
