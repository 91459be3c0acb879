-- ===== src/Model/Seconds.antt =====
-- The whole second that the store keeps of a next time (internal/model/model.go, internal/store/schedules.go).

use ghostfleet.Base.{◌-◌, ◌%◌, ◌∙◌, ℕ, ◌<◌, ◌≡◌, refl, ap, Option, none, some, Name, arith}
use ghostfleet.Model.Int.{ℤ, pos, negsuc}
use ghostfleet.Model.Records.{Schedule, Kind, every, daily, once, other_kind, second}
use ghostfleet.Model.Timer.{
  Calendar, DailySpec, parse_daily_spec, zone_of, next_interval, next_daily, next_once, next_for,
  next_after,
}
use ghostfleet.Model.Daily.{next_daily-IsFirst, next_daily_later}

-- A time that is built from a date and a time of day is a whole second.
abbrev pub IsOnSeconds : Calendar → Type 0
IsOnSeconds cal = (zone now i hour min : ℕ) → cal.day_at zone now i hour min % second ≡ 0

-- A one-shot schedule's time is a whole second, or it does not parse.
abbrev pub OnTheSecond : Calendar → Schedule → Type 0
OnTheSecond cal sc = sc.kind ≡ once → (t : ℕ) → cal.parse_rfc3339 sc.spec ≡ some t → t % second ≡ 0

module _ (cal : Calendar) (law : IsOnSeconds cal) where
  interval-stored :
      (o : Option ℤ) (now t : ℕ) → next_interval cal o now ≡ some t → now < t - t % second
  unfolding next_interval
  interval-stored none now t h = cc
  interval-stored (some (pos n)) now t h = ground arith
  interval-stored (some (negsuc n)) now t h = ground arith

  whole-stored : (now t : ℕ) → t % second ≡ 0 → now < t → now < t - t % second
  whole-stored now t e h = rw e (omega (arith, h))

  daily-stored :
      (o : Option DailySpec) (zone now t : ℕ)
      → next_daily cal o zone now ≡ some t
      → now < t - t % second
  daily-stored o zone now t h =
      let (spec, p, first) = next_daily-IsFirst cal o zone now t h in
      let (k, a, b, c, e, f) = first in
      whole-stored now t (ap (λ x. x % second) e ∙ law zone now k spec.hour spec.min)
        (next_daily_later cal o zone now t h)

  next_for-stored :
      (k : Kind) (text tz : Name) (now t : ℕ)
      → (k ≡ once → (t : ℕ) → cal.parse_rfc3339 text ≡ some t → t % second ≡ 0)
      → next_for cal k text tz now ≡ some t
      → now < t - t % second
  unfolding next_for next_once
  next_for-stored every text tz now t w h = interval-stored (cal.parse_duration text) now t h
  next_for-stored daily text tz now t w h =
      daily-stored (parse_daily_spec text) (zone_of cal tz) now t h
  next_for-stored once text tz now t w h = at (cal.parse_rfc3339 text) refl h
    where
      at :
          (o : Option ℕ)
          → cal.parse_rfc3339 text ≡ o
          → next_once cal o now ≡ some t
          → now < t - t % second
      at none e h = cc
      at (some n) e h =
          let later : now < n = ground (arith, h) in
          let same : n ≡ t = ground (arith, h) in rw same at (whole-stored now n (w refl n e) later)
  next_for-stored other_kind text tz now t w h = cc

  -- Also the whole second that is stored of a next time is later than now.
  pub next_after-stored :
      (sc : Schedule) (now t : ℕ)
      → OnTheSecond cal sc
      → next_after cal sc now ≡ some t
      → now < t - t % second
  unfolding next_after
  next_after-stored sc now t w h = next_for-stored sc.kind sc.spec sc.timezone now t w h
