-- ===== src/Model/Timer.antt =====
-- internal/model/model.go: parseDailySpec, Schedule.Validate and NextAfter. Go's time package is a
-- parameter: the parsers of durations, RFC 3339 times and zones, and the wall clock of a zone.
use ghostfleet.Base.{
  ℕ, zero, suc, ◌+◌, ◌-◌, ◌*◌, Bool, true, false, ◌&&◌, ◌||◌, List, [], ◌∷◌, Option, none, some,
  Name, ◌==◌, leb, ltb, if◌then◌else◌, any,
}
use ghostfleet.Model.Int.{ℤ, to_ℕ, is_below}
use ghostfleet.Model.Spec.{is_upper, is_digit, is_empty}
use ghostfleet.Model.Records.{
  Schedule, Kind, every, daily, once, other_kind, RunType, incremental, verify, teardown, power_on,
  power_off, minute,
}

-- `day_at zone now i hour min` is the time of day i after now's at that wall-clock time.
pub record Calendar : Type 0 where
  pub parse_duration : Name → Option ℤ
  pub parse_rfc3339 : Name → Option ℕ
  pub load_location : Name → Option ℕ
  pub utc : ℕ
  pub day_at : ℕ → ℕ → ℕ → ℕ → ℕ → ℕ
  pub weekday : ℕ → ℕ → ℕ

abbrev pub lower : ℕ → ℕ
lower c = if is_upper c then c + 32 else c

abbrev pub spells : ℕ → ℕ → ℕ → ℕ → ℕ → ℕ → Bool
spells a b c x y z = a == x && b == y && c == z

-- `weekdayNames`, Sunday being 0.
unfoldable pub weekday_of : ℕ → ℕ → ℕ → Option ℕ
weekday_of a b c =
    if spells a b c b's' b'u' b'n'
    then some 0
    else if spells a b c b'm' b'o' b'n'
    then some 1
    else if spells a b c b't' b'u' b'e'
    then some 2
    else if spells a b c b'w' b'e' b'd'
    then some 3
    else if spells a b c b't' b'h' b'u'
    then some 4
    else if spells a b c b'f' b'r' b'i'
    then some 5
    else if spells a b c b's' b'a' b't'
    then some 6
    else none

abbrev pub day_then : Option ℕ → Option (List ℕ) → Option (List ℕ)
day_then none rest = none
day_then (some d) none = none
day_then (some d) (some ds) = some (d ∷ ds)

-- `[A-Za-z]{3}(,[A-Za-z]{3})*`, each name a weekday.
unfoldable pub days_of : Name → Option (List ℕ)
days_of (a ∷ b ∷ c ∷ []) = day_then (weekday_of (lower a) (lower b) (lower c)) (some [])
days_of (a ∷ b ∷ c ∷ s ∷ rest) =
    let more = days_of rest in
    if s == b',' then day_then (weekday_of (lower a) (lower b) (lower c)) more else none
days_of _ = none

pub record DailySpec : Type 0 where
  pub hour : ℕ
  pub min : ℕ
  -- none: every weekday.
  pub days : Option (List ℕ)

abbrev pub hour_ok : ℕ → ℕ → Bool
hour_ok a b = ((a == b'0' || a == b'1') && is_digit b) || (a == b'2' && leb b'0' b && leb b b'3')

abbrev pub min_ok : ℕ → ℕ → Bool
min_ok a b = leb b'0' a && leb a b'5' && is_digit b

abbrev pub number : ℕ → ℕ → ℕ
number a b = 10 * (a - 48) + (b - 48)

-- The part behind the time.
unfoldable pub filter_of : Name → Option (Option (List ℕ))
unfolding days_of weekday_of
filter_of [] = some none
filter_of (c ∷ cs) =
    if c == b'@' then (elim (days_of cs) [ none ↦ none | some ds ↦ some (some ds) ]) else none

abbrev pub daily_with : ℕ → ℕ → Option (Option (List ℕ)) → Option DailySpec
daily_with h m none = none
daily_with h m (some days) = some (record { hour = h; min = m; days = days })

unfoldable pub parse_daily_spec : Name → Option DailySpec
unfolding filter_of
parse_daily_spec (a ∷ b ∷ c ∷ d ∷ e ∷ rest) =
    if hour_ok a b && c == b':' && min_ok d e
    then daily_with (number a b) (number d e) (filter_of rest)
    else none
parse_daily_spec _ = none

-- `ScheduleActions`.
abbrev pub is_schedule_action : RunType → Bool
is_schedule_action incremental = true
is_schedule_action verify = true
is_schedule_action power_on = true
is_schedule_action power_off = true
is_schedule_action teardown = true
is_schedule_action _ = false

abbrev pub allowed : Option (List ℕ) → ℕ → Bool
allowed none w = true
allowed (some ds) w = any (λ d. d == w) ds

abbrev pub parses {ℓ} : {A : Type ℓ} → Option A → Bool
parses none = false
parses (some a) = true

abbrev pub long_enough : Option ℤ → Bool
long_enough none = false
long_enough (some d) = if is_below d minute then false else true

module _ (cal : Calendar) where
  open cal use {parse_duration, parse_rfc3339, load_location, utc, day_at, weekday}

  abbrev pub timing_ok : Kind → Name → Name → Bool
  timing_ok every spec zone = long_enough (parse_duration spec)
  timing_ok daily spec zone =
      parses (parse_daily_spec spec) && (is_empty zone || parses (load_location zone))
  timing_ok once spec zone = parses (parse_rfc3339 spec)
  timing_ok other_kind spec zone = false

  -- Schedule.Validate returns nil.
  unfoldable pub validate_schedule : Schedule → Bool
  validate_schedule sc = is_schedule_action sc.action && timing_ok sc.kind sc.spec sc.timezone

  abbrev pub zone_of : Name → ℕ
  zone_of tz = if is_empty tz then utc else elim (load_location tz) [ none ↦ utc | some l ↦ l ]

  abbrev pub candidate : ℕ → DailySpec → ℕ → ℕ → ℕ
  candidate zone spec now i = day_at zone now i spec.hour spec.min

  abbrev pub suits : ℕ → DailySpec → ℕ → ℕ → Bool
  suits zone spec now i =
      ltb now (candidate zone spec now i)
      && allowed spec.days (weekday zone (candidate zone spec now i))

  -- The loop of the daily case, from day i on, `left` rounds.
  unfoldable pub next_day : ℕ → DailySpec → ℕ → ℕ → ℕ → Option ℕ
  next_day zone spec now i zero = none
  next_day zone spec now i (suc left) =
      let rest = next_day zone spec now (suc i) left in
      if suits zone spec now i then some (candidate zone spec now i) else rest

  unfoldable pub next_interval : Option ℤ → ℕ → Option ℕ
  next_interval none now = none
  next_interval (some d) now = if is_below d minute then none else some (now + to_ℕ d)

  unfoldable pub next_daily : Option DailySpec → ℕ → ℕ → Option ℕ
  unfolding next_day
  next_daily none zone now = none
  next_daily (some spec) zone now = next_day zone spec now 0 8

  unfoldable pub next_once : Option ℕ → ℕ → Option ℕ
  next_once none now = none
  next_once (some t) now = if ltb now t then some t else none

  unfoldable pub next_for : Kind → Name → Name → ℕ → Option ℕ
  unfolding next_interval next_daily next_once
  next_for every spec zone now = next_interval (parse_duration spec) now
  next_for daily spec zone now = next_daily (parse_daily_spec spec) (zone_of zone) now
  next_for once spec zone now = next_once (parse_rfc3339 spec) now
  next_for other_kind spec zone now = none

  unfoldable pub next_after : Schedule → ℕ → Option ℕ
  unfolding next_for
  next_after sc now = next_for sc.kind sc.spec sc.timezone now
