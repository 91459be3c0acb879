-- ===== src/Model/Recurring.antt =====
-- A recurring schedule always has a next occurrence (internal/model/model.go, NextAfter).
use ghostfleet.Base.{
  ℕ, ◌+◌, ◌-◌, ◌%◌, ◌<◌, ◌≡◌, ◌≢◌, refl, ap, ◌∙◌, true, List, [], ◌∷◌, Option, none, some, Name,
  arith, any,
}
use ghostfleet.Model.Records.{Schedule, Kind, every, daily, once, other_kind}
use ghostfleet.Model.Timer.{
  Calendar, DailySpec, parses, timing_ok, parse_daily_spec, allowed, candidate, suits, zone_of,
  next_day, next_daily, next_for, next_after, validate_schedule, weekday_of, day_then, days_of,
  lower, filter_of, daily_with, number,
}
use ghostfleet.Model.Daily.{
  next_after_later, next_after-IsNextDay, IsNextDay, next_day-total, next_interval_found, NamesDay,
}

weekday_of-lt : (a b c d : ℕ) → weekday_of a b c ≡ some d → d < 7
unfolding weekday_of
weekday_of-lt a b c d h = ground arith

day_then-NamesDay :
    (o : Option ℕ) (r : Option (List ℕ)) (ds : List ℕ)
    → ((d : ℕ) → o ≡ some d → d < 7)
    → day_then o r ≡ some ds
    → NamesDay (some ds)
unfolding any
day_then-NamesDay none r ds w h = cc
day_then-NamesDay (some d) none ds w h = cc
day_then-NamesDay (some d) (some es) ds w h = (d, w d refl, ground arith)

days_of-NamesDay : (n : Name) (ds : List ℕ) → days_of n ≡ some ds → NamesDay (some ds)
unfolding days_of
days_of-NamesDay [] ds h = cc
days_of-NamesDay (a ∷ []) ds h = cc
days_of-NamesDay (a ∷ b ∷ []) ds h = cc
days_of-NamesDay (a ∷ b ∷ c ∷ []) ds h =
    day_then-NamesDay (weekday_of (lower a) (lower b) (lower c)) (some []) ds
      (λ d. weekday_of-lt (lower a) (lower b) (lower c) d) h
days_of-NamesDay (a ∷ b ∷ c ∷ s ∷ rest) ds h =
    day_then-NamesDay (weekday_of (lower a) (lower b) (lower c)) (days_of rest) ds
      (λ d. weekday_of-lt (lower a) (lower b) (lower c) d) (ground arith)

filter_of-NamesDay : (n : Name) (f : Option (List ℕ)) → filter_of n ≡ some f → NamesDay f
unfolding filter_of
filter_of-NamesDay n none h = tt
filter_of-NamesDay [] (some ds) h = cc
filter_of-NamesDay (c ∷ cs) (some ds) h =
    let e : days_of cs ≡ some ds = ground arith in days_of-NamesDay cs ds e

daily_with-NamesDay :
    (h m : ℕ) (f : Option (Option (List ℕ))) (spec : DailySpec)
    → ((g : Option (List ℕ)) → f ≡ some g → NamesDay g)
    → daily_with h m f ≡ some spec
    → NamesDay spec.days
daily_with-NamesDay h m none spec w e = cc
daily_with-NamesDay h m (some g) spec w e = w spec.days (ground arith)

pub parse-NamesDay :
    (n : Name) (spec : DailySpec) → parse_daily_spec n ≡ some spec → NamesDay spec.days
unfolding parse_daily_spec
parse-NamesDay (a ∷ b ∷ c ∷ d ∷ e ∷ rest) spec h =
    daily_with-NamesDay (number a b) (number d e) (filter_of rest) spec
      (λ g. filter_of-NamesDay rest g) (ground arith)
parse-NamesDay _ spec h = cc

-- No clock change skips the time of day on the days after now's: the times are those of the days, in order,
-- and their weekdays go round.
pub record KeepsDays (cal : Calendar) (zone now hour min : ℕ) : Type 0 where
  pub later : (i : ℕ) → 0 < i → now < cal.day_at zone now i hour min
  pub weekdays :
      (i : ℕ)
      → cal.weekday zone (cal.day_at zone now i hour min)
        ≡ (cal.weekday zone (cal.day_at zone now 0 hour min) + i) % 7

suits_of :
    (cal : Calendar) (zone now k w : ℕ) (spec : DailySpec)
    → now < candidate cal zone spec now k
    → cal.weekday zone (candidate cal zone spec now k) ≡ w
    → allowed spec.days w ≡ true
    → suits cal zone spec now k ≡ true
suits_of cal zone now k w spec a e h = ground (arith, a, ap (allowed spec.days) e)

-- From weekday w, the day after that many is weekday d, and comes within seven days.
days_until : ℕ → ℕ → ℕ
days_until w d = 1 + (d + 13 - w % 7) % 7

days_until_lem :
    (w d : ℕ) → d < 7 → (0 < days_until w d) × (days_until w d < 8) × ((w + days_until w d) % 7 ≡ d)
unfolding days_until
days_until_lem w d h = (omega arith, omega arith, omega arith)

module _ (cal : Calendar) (zone now : ℕ) (spec : DailySpec)
    (law : KeepsDays cal zone now spec.hour spec.min) where
  allowed_day :
      (f : Option (List ℕ))
      → spec.days ≡ f
      → NamesDay f
      → (k : ℕ) × (k < 8) × (suits cal zone spec now k ≡ true)
  allowed_day none e n =
      (1, omega arith, suits_of cal zone now 1 _ spec (law.later 1 (omega arith)) refl (rw e))
  allowed_day (some ds) e (d, lt, mem) =
      let first : ℕ = cal.weekday zone (candidate cal zone spec now 0) in
      let (pos', small, hits) = days_until_lem first d lt in
      let k = days_until first d in
      (
        k,
        small,
        suits_of cal zone now k d spec (law.later k pos') (law.weekdays k ∙ hits) (rw e mem),
      )

  next_day_found : NamesDay spec.days → (t : ℕ) × (next_day cal zone spec now 0 8 ≡ some t)
  next_day_found names =
      let (k, lt, s) = allowed_day spec.days refl names in
      next_day-total cal zone spec now 0 8 k (omega arith) (omega arith) s

module _ (cal : Calendar) where
  next_daily_found :
      (o : Option DailySpec) (zone now : ℕ)
      → ((spec : DailySpec) → o ≡ some spec → NamesDay spec.days)
      → ((spec : DailySpec) → o ≡ some spec → KeepsDays cal zone now spec.hour spec.min)
      → parses o ≡ true
      → (t : ℕ) × (next_daily cal o zone now ≡ some t)
  unfolding next_daily
  next_daily_found none zone now w law h = cc
  next_daily_found (some spec) zone now w law h =
      next_day_found cal zone now spec (law spec refl) (w spec refl)

  -- The days of a daily schedule.
  abbrev pub KeepsDaysOf : Schedule → ℕ → Type 0
  KeepsDaysOf sc now =
      sc.kind ≡ daily
      → (spec : DailySpec) → parse_daily_spec sc.spec ≡ some spec
      → KeepsDays cal (zone_of cal sc.timezone) now spec.hour spec.min

  next_for_found :
      (k : Kind) (text tz : Name) (now : ℕ)
      → (k ≡ daily
          → (spec : DailySpec) → parse_daily_spec text ≡ some spec
          → KeepsDays cal (zone_of cal tz) now spec.hour spec.min)
      → k ≢ once
      → timing_ok cal k text tz ≡ true
      → (t : ℕ) × (next_for cal k text tz now ≡ some t)
  unfolding next_for
  next_for_found every text tz now law ne h =
      next_interval_found cal (cal.parse_duration text) now h
  next_for_found daily text tz now law ne h =
      next_daily_found (parse_daily_spec text) (zone_of cal tz) now (parse-NamesDay text) (law refl)
        (ground arith)
  next_for_found once text tz now law ne h = absurd (ne refl)
  next_for_found other_kind text tz now law ne h = cc

  -- A recurring schedule that Validate accepts has a next time, later than now; for a daily one the eight days of
  -- the loop are enough, if no clock change skips its time on the days to come, and the time is that of the first
  -- of them on which it lies after now and falls on a weekday that the filter names.
  pub next_after_total :
      (sc : Schedule) (now : ℕ)
      → KeepsDaysOf sc now
      → sc.kind ≢ once
      → validate_schedule cal sc ≡ true
      → (t : ℕ) × (next_after cal sc now ≡ some t)
        × (now < t)
        × (sc.kind ≡ daily → IsNextDay cal sc.spec sc.timezone now t)
  unfolding next_after validate_schedule
  next_after_total sc now law ne v =
      let (t, e) = next_for_found sc.kind sc.spec sc.timezone now law ne (ground arith) in
      (t, e, next_after_later cal sc now t e, λ k. next_after-IsNextDay cal sc now t k e)
