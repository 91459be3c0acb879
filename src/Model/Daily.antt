-- ===== src/Model/Daily.antt =====
-- What NextAfter (internal/model/model.go) returns.
use mathlib.Core.List.{Memᴰ}
use ghostfleet.Base.{
  [], ◌∷◌, ℕ, zero, suc, ◌+◌, ◌≤◌, ◌<◌, ◌≡◌, refl, ap, inl, inr, true, false, List, Option, none,
  some, Name, ◌==◌, Bool-cases, arith, any,
}
use ghostfleet.Model.Int.{ℤ, pos, negsuc, to_ℕ, is_below}
use ghostfleet.Model.Records.{Schedule, Kind, every, daily, once, other_kind, minute}
use ghostfleet.Model.Timer.{
  Calendar, DailySpec, parse_daily_spec, candidate, allowed, suits, zone_of, next_day,
  next_interval, next_daily, next_once, next_for, next_after, long_enough,
}

-- A weekday that the filter names, or any if there is no filter.
abbrev pub OnDay : Option (List ℕ) → ℕ → Type 0
OnDay none w = Unit
OnDay (some ds) w = Memᴰ w ds

any-Memᴰ : (w : ℕ) (ds : List ℕ) → any (λ d. d == w) ds ≡ true → Memᴰ w ds
unfolding any
any-Memᴰ w [] h = absurd (ground (arith, h))
any-Memᴰ w (d ∷ ds) h = elim (Bool-cases (d == w)) [
  | inl e ↦ Memᴰ.head (ground (arith, e))
  | inr e ↦ Memᴰ.tail (any-Memᴰ w ds (ground (arith, e, h)))
]

Memᴰ-any : (w : ℕ) (ds : List ℕ) → Memᴰ w ds → any (λ d. d == w) ds ≡ true
unfolding any
Memᴰ-any w [] m = elim m [ ]
Memᴰ-any w (d ∷ ds) (Memᴰ.head e) = ground (arith, e)
Memᴰ-any w (d ∷ ds) (Memᴰ.tail m) = ground (arith, Memᴰ-any w ds m)

allowed-OnDay : (f : Option (List ℕ)) (w : ℕ) → allowed f w ≡ true → OnDay f w
allowed-OnDay none w h = tt
allowed-OnDay (some ds) w h = any-Memᴰ w ds h

OnDay-allowed : (f : Option (List ℕ)) (w : ℕ) → OnDay f w → allowed f w ≡ true
OnDay-allowed none w d = refl
OnDay-allowed (some ds) w d = Memᴰ-any w ds d

module _ (cal : Calendar) where
  -- The first of `left` days from day i on that suits.
  abbrev pub IsFirst : ℕ → DailySpec → ℕ → ℕ → ℕ → ℕ → Type 0
  IsFirst zone spec now i left t =
      (k : ℕ) × (i ≤ k)
      × (k < i + left)
      × (suits cal zone spec now k ≡ true)
      × (t ≡ candidate cal zone spec now k)
      × ((j : ℕ) → i ≤ j → j < k → suits cal zone spec now j ≡ false)

  next_day-IsFirst :
      (zone : ℕ) (spec : DailySpec) (now i left t : ℕ)
      → next_day cal zone spec now i left ≡ some t
      → IsFirst zone spec now i left t
  unfolding next_day
  next_day-IsFirst zone spec now i zero t h = cc
  next_day-IsFirst zone spec now i (suc left) t h = elim (Bool-cases (suits cal zone spec now i)) [
    | inl yes' ↦
        (i, omega arith, omega arith, yes', ground (arith, yes'), λ j a b. absurd (omega arith))
    | inr no' ↦
        let (k, a, b, c, e, f) =
          next_day-IsFirst zone spec now (suc i) left t (ground (arith, no')) in
        (
          k,
          omega arith,
          omega arith,
          c,
          e,
          λ j p q. elim (Bool-cases (i == j)) [
            | inl same ↦ let w : i ≡ j = ground (arith, same) in rw (← w) no'
            | inr other ↦ f j (ground (arith, other)) q
          ],
        )
  ]

  pub next_day-total :
      (zone : ℕ) (spec : DailySpec) (now i left k : ℕ)
      → i ≤ k
      → k < i + left
      → suits cal zone spec now k ≡ true
      → (t : ℕ) × (next_day cal zone spec now i left ≡ some t)
  unfolding next_day
  next_day-total zone spec now i zero k a b h = absurd (omega arith)
  next_day-total zone spec now i (suc left) k a b h =
      elim (Bool-cases (suits cal zone spec now i)) [
        | inl yes' ↦ (candidate cal zone spec now i, rw yes')
        | inr no' ↦ rw no' (
            next_day-total zone spec now (suc i) left k
              (elim (Bool-cases (i == k)) [
                | inl same ↦
                    let w : i ≡ k = ground (arith, same) in
                    cc (no', h, ap (suits cal zone spec now) w)
                | inr other ↦ ground (arith, other)
              ])
              (omega arith) h)
      ]

  -- The schedule's time on the day that many days from now is later than now, and on an allowed weekday.
  abbrev pub IsGoodDay : ℕ → DailySpec → ℕ → ℕ → Type 0
  IsGoodDay zone spec now k =
      (now < cal.day_at zone now k spec.hour spec.min)
      × OnDay spec.days (cal.weekday zone (cal.day_at zone now k spec.hour spec.min))

  abbrev pub IsNextDay : Name → Name → ℕ → ℕ → Type 0
  IsNextDay text tz now t =
      (spec : DailySpec) × (parse_daily_spec text ≡ some spec)
      × ((k : ℕ) × (k < 8)
          × (t ≡ cal.day_at (zone_of cal tz) now k spec.hour spec.min)
          × IsGoodDay (zone_of cal tz) spec now k
          × ((j : ℕ) → j < k → ¬ IsGoodDay (zone_of cal tz) spec now j))

  suits-IsGoodDay :
      (zone : ℕ) (spec : DailySpec) (now k : ℕ)
      → suits cal zone spec now k ≡ true
      → IsGoodDay zone spec now k
  suits-IsGoodDay zone spec now k h =
      (ground (arith, h), allowed-OnDay spec.days _ (ground (arith, h)))

  IsGoodDay-suits :
      (zone : ℕ) (spec : DailySpec) (now k : ℕ)
      → IsGoodDay zone spec now k
      → suits cal zone spec now k ≡ true
  IsGoodDay-suits zone spec now k (a, d) = ground (arith, a, OnDay-allowed spec.days _ d)

  first-IsNextDay :
      (text tz : Name) (now t : ℕ) (spec : DailySpec)
      → parse_daily_spec text ≡ some spec
      → IsFirst (zone_of cal tz) spec now 0 8 t
      → IsNextDay text tz now t
  first-IsNextDay text tz now t spec p (k, a, b, c, e, f) = (
    spec,
    p,
    (
      k,
      omega (arith, b),
      e,
      suits-IsGoodDay _ spec now k c,
      λ j lt good.
          let on = IsGoodDay-suits (zone_of cal tz) spec now j good in
          let off = f j (omega arith) lt in absurd (ground (arith, on, off)),
    ),
  )

  pub next_daily-IsFirst :
      (o : Option DailySpec) (zone now t : ℕ)
      → next_daily cal o zone now ≡ some t
      → (spec : DailySpec) × (o ≡ some spec) × IsFirst zone spec now 0 8 t
  unfolding next_daily
  next_daily-IsFirst none zone now t h = cc
  next_daily-IsFirst (some spec) zone now t h = (spec, refl, next_day-IsFirst zone spec now 0 8 t h)

  -- A daily schedule's next time is its time of day on the first of eight days, from today on, on which that
  -- lies after now and falls on a weekday that the filter names.
  pub next_after-IsNextDay :
      (sc : Schedule) (now t : ℕ)
      → sc.kind ≡ daily
      → next_after cal sc now ≡ some t
      → IsNextDay sc.spec sc.timezone now t
  unfolding next_after
  next_after-IsNextDay sc now t k h =
      let (spec, p, first) =
        next_daily-IsFirst (parse_daily_spec sc.spec) (zone_of cal sc.timezone) now t (rw k at h) in
      first-IsNextDay sc.spec sc.timezone now t spec p first

  pub next_daily_later :
      (o : Option DailySpec) (zone now t : ℕ) → next_daily cal o zone now ≡ some t → now < t
  next_daily_later o zone now t h =
      let (spec, p, first) = next_daily-IsFirst o zone now t h in ground (arith, first.3, first.4)

  next_interval_later : (o : Option ℤ) (now t : ℕ) → next_interval cal o now ≡ some t → now < t
  unfolding next_interval
  next_interval_later none now t h = cc
  next_interval_later (some (pos n)) now t h = ground arith
  next_interval_later (some (negsuc n)) now t h = ground arith

  pub next_interval_found :
      (o : Option ℤ) (now : ℕ) → long_enough o ≡ true → (t : ℕ) × (next_interval cal o now ≡ some t)
  unfolding next_interval
  next_interval_found none now h = cc
  next_interval_found (some d) now h = elim (Bool-cases (is_below d minute)) [
    | inl e ↦ absurd (ground (arith, e))
    | inr e ↦ (now + to_ℕ d, ground (arith, e))
  ]

  next_once_later : (o : Option ℕ) (now t : ℕ) → next_once cal o now ≡ some t → now < t
  unfolding next_once
  next_once_later none now t h = cc
  next_once_later (some n) now t h = ground arith

  next_for_later :
      (k : Kind) (text tz : Name) (now t : ℕ) → next_for cal k text tz now ≡ some t → now < t
  unfolding next_for
  next_for_later every text tz now t h = next_interval_later (cal.parse_duration text) now t h
  next_for_later daily text tz now t h =
      next_daily_later (parse_daily_spec text) (zone_of cal tz) now t h
  next_for_later once text tz now t h = next_once_later (cal.parse_rfc3339 text) now t h
  next_for_later other_kind text tz now t h = cc

  -- NextAfter returns only times later than now, for every kind of schedule.
  pub next_after_later : (sc : Schedule) (now t : ℕ) → next_after cal sc now ≡ some t → now < t
  unfolding next_after
  next_after_later sc now t h = next_for_later sc.kind sc.spec sc.timezone now t h

-- A filter that parses names at least one weekday.
abbrev pub NamesDay : Option (List ℕ) → Type 0
NamesDay none = Unit
NamesDay (some ds) = (d : ℕ) × (d < 7) × (any (λ e. e == d) ds ≡ true)
