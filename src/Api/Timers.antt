-- ===== src/Api/Timers.antt =====
-- internal/api/schedules.go: the handlers of schedules.
use ghostfleet.Base.{ℕ, Bool, true, false, [], Option, none, some, Name, if◌then◌else◌}
use ghostfleet.Model.Records.{Schedule, RunType, Kind, other_type, other_kind, never_fired}
use ghostfleet.Model.Timer.{Calendar, validate_schedule, next_after}
use ghostfleet.Store.Db.{Db}
use ghostfleet.Store.Deployments.{get_deployment}
use ghostfleet.Store.Schedules.{create_schedule, update_schedule, get_schedule, delete_schedule}
use ghostfleet.Api.Reply.{H, reply, bare, store_code, calls, with_body}
use ghostfleet.Api.Operations.{is_gone}

pub record ScheduleRequest : Type 0 where
  pub action : RunType
  pub kind : Kind
  pub spec : Name
  pub timezone : Name
  pub enabled : Option Bool

abbrev pub enabled_or : Option Bool → Bool
enabled_or none = true
enabled_or (some b) = b

abbrev pub filled_in : ScheduleRequest → Schedule → Schedule
filled_in req sc = record sc {
  action = req.action;
  kind = req.kind;
  spec = req.spec;
  timezone = req.timezone;
  enabled = enabled_or req.enabled;
  next_run_at = none;
}

abbrev with_next : Schedule → Option ℕ → Option Schedule
with_next sc none = none
with_next sc (some t) = some (record sc { next_run_at = some t })

-- The zero value of a schedule, with its deployment.
abbrev pub blank_schedule : ℕ → Schedule
blank_schedule id = record {
  id = 0;
  deployment_id = id;
  action = other_type [];
  kind = other_kind;
  spec = [];
  timezone = [];
  enabled = false;
  next_run_at = none;
  last_fired_at = none;
  last_run_id = 0;
  last_result = never_fired;
  updated_at = 0;
}

module _ (calendar : Calendar) where
  -- `validate`: the filled-in schedule, or none for a message to the client.
  unfoldable pub request_validate : ℕ → ScheduleRequest → Schedule → Option Schedule
  request_validate now req sc =
      let filled = filled_in req sc in
      if validate_schedule calendar filled
      then (if filled.enabled
          then with_next filled (next_after calendar filled now)
          else some filled)
      else none

  abbrev pub with_schedule : {A : Type 0} → Option Schedule → (Schedule → H Db A) → H Db A
  with_schedule none k = bare 400
  with_schedule (some sc) k = k sc

  unfoldable pub handle_create_schedule : ℕ → ℕ → Option ScheduleRequest → H Db Schedule
  unfolding request_validate
  handle_create_schedule now id body = with_body body (λ req.
      calls store_code (get_deployment id) (λ d.
        if is_gone d
        then bare 409
        else with_schedule (request_validate now req (blank_schedule d.id)) (λ sc.
          calls store_code
            (create_schedule d.id sc.action sc.kind sc.spec sc.timezone sc.enabled sc.next_run_at)
            (reply 201))))

  unfoldable pub handle_update_schedule : ℕ → ℕ → Option ScheduleRequest → H Db Schedule
  unfolding request_validate
  handle_update_schedule now id body = with_body body (λ req.
      calls store_code (get_schedule id) (λ old. with_schedule (request_validate now req old) (λ sc.
        calls store_code
          (update_schedule sc.id sc.action sc.kind sc.spec sc.timezone sc.enabled sc.next_run_at)
          (λ u. calls store_code (get_schedule sc.id) (reply 200)))))

unfoldable pub handle_delete_schedule : ℕ → H Db (Unit {0})
handle_delete_schedule id = calls store_code (delete_schedule id) (λ u. bare 204)
