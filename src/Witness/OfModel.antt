-- ===== src/Witness/OfModel.antt =====
-- Applications to a small fleet and a nightly schedule (internal/model/model.go).
use ghostfleet.Base.{ℕ, ◌<◌, ◌≡◌, ◌≢◌, ◌↔◌, refl, true, none, some, ◌*◌}
use ghostfleet.Model.Spec.{validate}
use ghostfleet.Model.Validity.{IsValid, validate_iff}
use ghostfleet.Model.Naming.{vm_name-injective}
use ghostfleet.Model.Records.{once, daily, minute}
use ghostfleet.Model.Timer.{next_after, parse_daily_spec, validate_schedule}
use ghostfleet.Model.Daily.{IsNextDay, next_after-IsNextDay}
use ghostfleet.Model.Recurring.{next_after_total}
use ghostfleet.Samples.{raw_spec, fleet_spec, nightly, plain_calendar, plain-KeepsDays}

validate_iff_example : (validate raw_spec ≡ none) ↔ IsValid raw_spec
validate_iff_example = validate_iff raw_spec

abbrev third : ℕ
third = 3

vm_name-injective_example : third ≡ third
vm_name-injective_example = vm_name-injective fleet_spec third third refl

-- Half past two.
abbrev half_past_two : ℕ
half_past_two = 150 * minute

nightly_next : next_after plain_calendar nightly 0 ≡ some half_past_two
unfolding next_after parse_daily_spec
nightly_next = refl

next_after-IsNextDay_example :
    IsNextDay plain_calendar nightly.spec nightly.timezone 0 half_past_two
next_after-IsNextDay_example =
    next_after-IsNextDay plain_calendar nightly 0 half_past_two refl nightly_next

nightly_recurs : nightly.kind ≢ once
nightly_recurs e = cc e

nightly_valid : validate_schedule plain_calendar nightly ≡ true
unfolding validate_schedule parse_daily_spec
nightly_valid = refl

next_after_total_example :
    (t : ℕ) × (next_after plain_calendar nightly 0 ≡ some t)
    × (0 < t)
    × (nightly.kind ≡ daily → IsNextDay plain_calendar nightly.spec nightly.timezone 0 t)
next_after_total_example =
    next_after_total plain_calendar nightly 0 (λ k spec e. plain-KeepsDays _ 0 spec.hour spec.min)
      nightly_recurs nightly_valid
