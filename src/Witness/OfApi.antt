-- ===== src/Witness/OfApi.antt =====
-- Applications to the calls of the HTTP API (internal/api), the catalogue (internal/store) and the active jobs
-- (internal/orch/orchestrator.go).
use ghostfleet.Base.{
  length, ℕ, ◌≡◌, refl, Bool, true, false, List, [], ◌∷◌, ◌++◌, none, some, find, any, name_eq, All,
  ◌⊎◌, Name, ◌==◌, ◌&&◌,
}
use ghostfleet.Base.Monad.{ok}
use ghostfleet.Model.Records.{Profile, deploy, Run, ready}
use ghostfleet.Model.Checked.{check_spec}
use ghostfleet.Store.Db.{Db, now_of}
use ghostfleet.Store.Vms.{vms_of}
use ghostfleet.Store.Deployments.{dep_has_id, buried, dead_name_taken}
use ghostfleet.Store.Profiles.{get_profile, update_profile_spec}
use ghostfleet.Store.CatalogLaws.{update_profile_spec-Whole, Whole}
use ghostfleet.Orch.State.{Orch}
use ghostfleet.Orch.LockMap.{
  JobCall, acquires, releases, cancels, asks, stops, job_answers, lock_answers, Represents,
}
use ghostfleet.Orch.Locks.{job_answers-refines}
use ghostfleet.Orch.Tasks.{succeed_job}
use ghostfleet.Api.Boot.{handle_boot_script, handle_discovery_report, handle_discovery_heartbeat}
use ghostfleet.Api.Console.{ConsoleSession, boot_banner, split_console_sessions}
use ghostfleet.Api.ConsoleLaws.{
  split_console_sessions-IsWhole, texts, IsSession, IsWhole, later_ones,
}
use ghostfleet.Api.Catalog.{import_profile, export_profile}
use ghostfleet.Api.Deployments.{handle_update_deployment_spec}
use ghostfleet.Api.Discovery.{discovery_harmless, beside_discovered}
use ghostfleet.Api.Growth.{update_deployment_spec-Grown, Grown}
use ghostfleet.Api.Operations.{teardown_deployment}
use ghostfleet.Api.Profiles.{export_import, fresh_row, with_profile}
use ghostfleet.Api.Teardown.{teardown_beside_job}
use ghostfleet.Datagen.WorkOrder.{itoa}
use ghostfleet.Api.Sessions.{AuthConfig, Credentials, passes_auth}
use ghostfleet.Api.Guarded.{
  logs_in, logs_out, AuthEvent, sessions_after, IsLoggedIn, KnowsKey, passes_auth-IsLoggedIn,
}
use ghostfleet.Samples.{fleet, fleet_spec, raw_spec, fill_row, store, idle, cold}

-- The end of one boot, and two whole ones.
abbrev log_text : Name
log_text = b'a' ∷ 10 ∷ (boot_banner ++ (b'1' ∷ 10 ∷ b'b' ∷ 10 ∷ (boot_banner ++ (b'2' ∷ 10 ∷ []))))

abbrev log_sessions : List ConsoleSession
log_sessions = split_console_sessions (λ t. []) (λ t. false) log_text

three_sessions : length log_sessions ≡ 3
unfolding split_console_sessions ghostfleet.Api.Console.split_lines ghostfleet.Api.Console.contains
three_sessions = refl

split_console_sessions-IsWhole_example :
    (texts log_sessions ≡ log_text ++ (10 ∷ []))
    × All IsSession log_sessions
    × All IsWhole (later_ones log_sessions)
split_console_sessions-IsWhole_example =
    split_console_sessions-IsWhole (λ t. []) (λ t. false) log_text refl

update_deployment_spec-Grown_example :
    Grown store.deployments (handle_update_deployment_spec 1 (some raw_spec) idle).1.db.deployments
update_deployment_spec-Grown_example = update_deployment_spec-Grown 1 (some raw_spec) idle

discovery_harmless_example :
    (beside_discovered (handle_boot_script true (9 ∷ []) idle).1 ≡ beside_discovered idle)
    × (beside_discovered (handle_discovery_report (some (21, [])) idle).1 ≡ beside_discovered idle)
    × (beside_discovered (handle_discovery_heartbeat (some 21) idle).1 ≡ beside_discovered idle)
discovery_harmless_example = discovery_harmless true (9 ∷ []) (some (21, [])) (some 21) idle

-- The deployment of the store before its deploy job has made the first VM.
abbrev bare_orch : Orch
bare_orch = record idle {
  db = record store { vms = [] };
  active = record { deployment_id = 1; cancelled = false } ∷ [];
}

abbrev deploy_row : Run
deploy_row = record fill_row { run_type = deploy }

fleet_found : find (dep_has_id 1) store.deployments ≡ some fleet
unfolding find
fleet_found = refl

no_vms : vms_of 1 bare_orch.db ≡ []
unfolding vms_of ghostfleet.Base.sort_by ghostfleet.Base.select
no_vms = refl

name_free : dead_name_taken itoa 1 store.deployments ≡ false
unfolding dead_name_taken find any name_eq itoa
name_free = refl

teardown_beside_job_example :
    ((teardown_deployment itoa 1 bare_orch).0.code ≡ 204)
    × (find (dep_has_id 1) (teardown_deployment itoa 1 bare_orch).1.db.deployments
        ≡ some (buried itoa (now_of store) fleet))
    × ((teardown_deployment itoa 1 bare_orch).1.active ≡ bare_orch.active)
    × (find
          (dep_has_id 1)
          (succeed_job cold itoa fleet deploy_row (record {
            orch = (teardown_deployment itoa 1 bare_orch).1;
            world = [];
          })).orch.db.deployments
        ≡ some (record (buried itoa (now_of store) fleet) { status = ready }))
teardown_beside_job_example =
    teardown_beside_job cold itoa 1 fleet deploy_row bare_orch [] refl fleet_found refl no_vms
      name_free refl

abbrev gold : Profile
gold = record {
  row = record { id = 90; name = b'p' ∷ []; current_version = 1; created_at = 0; updated_at = 0 };
  spec = fleet_spec;
}

-- A controller without profiles.
abbrev other_store : Db
other_store = record store { profiles = []; versions = []; deployments = []; next_id = 40 }

gold_read : (get_profile 90 store).0 ≡ ok gold
unfolding get_profile find
gold_read = refl

gold_checked : check_spec raw_spec ≡ some fleet_spec
unfolding check_spec ghostfleet.Model.Spec.validate ghostfleet.Model.Spec.first_failure
    ghostfleet.Model.Spec.apply_defaults ghostfleet.Model.Spec.prefix_matches
    ghostfleet.Model.Spec.accepted
gold_checked = refl

no_profile : any (λ q. name_eq q.name (b'p' ∷ [])) other_store.profiles ≡ false
unfolding any
no_profile = refl

no_version : any (λ v. v.profile_id == 40 && v.version == 1) other_store.versions ≡ false
unfolding any
no_version = refl

export_import_example : import_profile (export_profile 90 store).0.body other_store ≡ (
  record {
    code = 201;
    body = some (record { row = fresh_row (b'p' ∷ []) other_store; spec = fleet_spec });
  },
  with_profile (b'p' ∷ []) fleet_spec other_store,
)
export_import_example =
    export_import 90 store other_store gold raw_spec gold_read gold_checked refl refl no_profile
      no_version

-- A store whose fleet uses another connection.
abbrev spare_store : Db
spare_store = record store { deployments = record fleet { connection_id = 92 } ∷ [] }

update_profile_spec-Whole_example :
    Whole 90 fleet_spec store (update_profile_spec 90 fleet_spec store).1
update_profile_spec-Whole_example = update_profile_spec-Whole 90 fleet_spec store

abbrev job_calls : List JobCall
job_calls = acquires 1 ∷ acquires 1 ∷ cancels 1 ∷ stops ∷ releases 1 ∷ asks 1 ∷ []

idle-free : Represents idle.active (λ i. none)
unfolding find
idle-free i = refl

job_answers-refines_example : job_answers job_calls idle ≡ lock_answers job_calls (λ i. none)
job_answers-refines_example = job_answers-refines job_calls idle (λ i. none) tt idle-free

abbrev guarded_config : AuthConfig
guarded_config = record { password = b'p' ∷ []; api_keys = [] }

abbrev with_token : ℕ → Credentials
with_token token = record { cookie = some token; header_key = []; bearer_key = []; query_key = [] }

-- A login with the password, one with another password, and the logout of another session.
abbrev auth_history : List AuthEvent
auth_history = logs_out (with_token 8) ∷ logs_in (b'q' ∷ []) 9 150 ∷ logs_in (b'p' ∷ []) 7 100 ∷ []

session_passes :
    passes_auth guarded_config (with_token 7) 200 (sessions_after guarded_config auth_history)
    ≡ true
unfolding passes_auth sessions_after ghostfleet.Api.Sessions.valid_session find
    ghostfleet.Api.Sessions.handle_logout ghostfleet.Base.select
    ghostfleet.Api.Sessions.handle_login name_eq
session_passes = refl

passes_auth-IsLoggedIn_example :
    IsLoggedIn guarded_config (with_token 7) 200 auth_history
    ⊎ KnowsKey guarded_config (with_token 7)
passes_auth-IsLoggedIn_example =
    passes_auth-IsLoggedIn guarded_config (with_token 7) 200 auth_history refl session_passes
