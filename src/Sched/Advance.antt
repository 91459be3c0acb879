-- ===== src/Sched/Advance.antt =====
-- What advancing a schedule (internal/sched/sched.go, advance) leaves due.
use ghostfleet.Base.{
  ℕ, ◌<◌, ◌≡◌, ◌≢◌, refl, ap, ◌∙◌, ◌⊎◌, inl, Bool, true, false, ◌&&◌, List, [], ◌∷◌, Option, none,
  some, ◌==◌, select, find, any, update_where, any-update_clears, any-update_same, arith,
}
use ghostfleet.Model.Records.{Schedule, FireResult}
use ghostfleet.Model.Timer.{Calendar}
use ghostfleet.Model.Seconds.{IsOnSeconds, OnTheSecond, next_after-stored}
use ghostfleet.Store.Db.{Db, now_of, update_schedules_found}
use ghostfleet.Store.Deployments.{get_deployment, dep_has_id}
use ghostfleet.Store.Schedules.{advance_schedule, advanced, in_seconds, is_due, sched_has_id}
use ghostfleet.Store.Db.{row_or_none}
use ghostfleet.Sched.Scheduler.{Scheduler, Starter, since_of, forget, next_if, advance}

-- Some stored schedule of that ID is due.
abbrev pub due_in : ℕ → ℕ → Schedule → Bool
due_in id now r = r.id == id && is_due now r

abbrev pub due_now : ℕ → ℕ → Scheduler → Bool
due_now id now s = any (due_in id now) s.orch.db.schedules

abbrev pub is_waiting : ℕ → Scheduler → Bool
is_waiting id s = elim (since_of id s.busy_since) [ none ↦ false | some t ↦ true ]

-- The outcome of firing the schedule of an ID: under a condition on it, it is due no more or is
-- being retried, and the other
-- schedules are as due, and as long retried, as before.
pub record Fired (P : Type 0) (id now : ℕ) (s s' : Scheduler) : Type 0 where
  pub settled : P → (due_now id now s' ≡ false) ⊎ (is_waiting id s' ≡ true)
  pub others_due : (j : ℕ) → j ≢ id → due_now j now s' ≡ due_now j now s
  pub others_wait : (j : ℕ) → j ≢ id → since_of j s'.busy_since ≡ since_of j s.busy_since
  pub faults : s'.orch.db.faults ≡ []
  pub clock : s'.orch.db.clock ≡ s.orch.db.clock

since_of-forget : (j id : ℕ) (m : List (ℕ × ℕ)) → j ≢ id → since_of j (forget id m) ≡ since_of j m
unfolding since_of select
since_of-forget j id [] ne = refl
since_of-forget j id ((k, t) ∷ m) ne = ground (arith, since_of-forget j id m ne)

row_or_none-same :
    {S A : Type 0} (o : Option A) (s : S) → row_or_none o s ≡ ((row_or_none o s).0, s)
row_or_none-same none s = refl
row_or_none-same (some a) s = refl

pub get_deployment-reads :
    (id : ℕ) (db : Db)
    → db.faults ≡ []
    → get_deployment id db ≡ ((row_or_none (find (dep_has_id id) db.deployments) db).0, db)
unfolding get_deployment
get_deployment-reads id db h = ground arith

module _ (cal : Calendar) (st : Starter) (law : IsOnSeconds cal) where
  moved : Schedule → ℕ → FireResult → ℕ → Bool → Db → List Schedule
  moved sc now result run_id recur db =
      update_where (sched_has_id sc.id)
        (advanced result run_id now (next_if cal st recur sc now) (now_of db)) db.schedules

  advance_db :
      (sc : Schedule) (now : ℕ) (result : FireResult) (run_id : ℕ) (recur : Bool) (s : Scheduler)
      → s.orch.db.faults ≡ []
      → (advance cal st sc now result run_id recur s).orch.db
        ≡ record (s.orch.db) { schedules = moved sc now result run_id recur s.orch.db }
  unfolding advance advance_schedule update_schedules_found moved
  advance_db sc now result run_id recur s h = ground arith

  next_later :
      (recur : Bool) (sc : Schedule) (now t : ℕ)
      → OnTheSecond cal sc
      → next_if cal st recur sc now ≡ some t
      → now < in_seconds t
  next_later true sc now t w h = next_after-stored cal law sc now t w h
  next_later false sc now t w h = cc

  not_due_after :
      (sc r : Schedule) (now : ℕ) (result : FireResult) (run_id t : ℕ) (recur : Bool) (o : Option ℕ)
      → OnTheSecond cal sc
      → next_if cal st recur sc now ≡ o
      → due_in sc.id now (advanced result run_id now o t r) ≡ false
  not_due_after sc r now result run_id t recur none w e = ground arith
  not_due_after sc r now result run_id t recur (some n) w e =
      ground (arith, next_later recur sc now n w e)

  advance_settled :
      (sc : Schedule) (now : ℕ) (result : FireResult) (run_id : ℕ) (recur : Bool)
      (rows : List Schedule) (t : ℕ)
      → OnTheSecond cal sc
      → any (due_in sc.id now) (
          update_where
            (sched_has_id sc.id)
            (advanced result run_id now (next_if cal st recur sc now) t)
            rows)
        ≡ false
  advance_settled sc now result run_id recur rows t w =
      any-update_clears (due_in sc.id now) (sched_has_id sc.id) _ rows
        (λ r h. not_due_after sc r now result run_id t recur _ w refl) (λ r h. ground arith)

  advance_others :
      (sc : Schedule) (now : ℕ) (result : FireResult) (run_id : ℕ) (o : Option ℕ)
      (rows : List Schedule) (t j : ℕ)
      → j ≢ sc.id
      → any (due_in j now) (update_where (sched_has_id sc.id) (advanced result run_id now o t) rows)
        ≡ any (due_in j now) rows
  advance_others sc now result run_id o rows t j ne =
      any-update_same (due_in j now) (sched_has_id sc.id) _ rows (λ r h. ground arith)

  advance_waits :
      (sc : Schedule) (now : ℕ) (result : FireResult) (run_id : ℕ) (recur : Bool) (s₀ s : Scheduler)
      → s.busy_since ≡ s₀.busy_since
      → (j : ℕ) → j ≢ sc.id
      → since_of j (advance cal st sc now result run_id recur s).busy_since
        ≡ since_of j s₀.busy_since
  unfolding advance
  advance_waits sc now result run_id recur s₀ s b j ne =
      since_of-forget j sc.id s.busy_since ne ∙ ap (since_of j) b

  pub advance-Fired :
      (sc : Schedule) (now : ℕ) (result : FireResult) (run_id : ℕ) (recur : Bool) (s₀ s : Scheduler)
      → s.orch.db.faults ≡ []
      → s.orch.db.schedules ≡ s₀.orch.db.schedules
      → s.orch.db.clock ≡ s₀.orch.db.clock
      → s.busy_since ≡ s₀.busy_since
      → Fired (OnTheSecond cal sc) sc.id now s₀ (advance cal st sc now result run_id recur s)
  unfolding moved
  advance-Fired sc now result run_id recur s₀ s h e c b = record {
    settled = λ w. inl (
        rw (advance_db sc now result run_id recur s h)
          (advance_settled sc now result run_id recur _ _ w));
    others_due = λ j ne.
        rw (advance_db sc now result run_id recur s h)
          (advance_others sc now result run_id _ _ _ j ne ∙ ap (any (due_in j now)) e);
    others_wait = advance_waits sc now result run_id recur s₀ s b;
    faults = rw (advance_db sc now result run_id recur s h) h;
    clock = rw (advance_db sc now result run_id recur s h) c;
  }
