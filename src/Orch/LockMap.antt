-- ===== src/Orch/LockMap.antt =====
-- The active jobs (internal/orch/orchestrator.go) as an abstract map of locks, and the laws of the list that
-- represents it.
use ghostfleet.Base.{
  ℕ, ◌≡◌, refl, ap, ◌∙◌, Bool, true, false, ◌||◌, List, [], ◌∷◌, Option, none, some, ◌==◌,
  if◌then◌else◌, find, any, update_where, map, arith, Bool-cases, inl, inr,
}
use ghostfleet.Base.Monad.{Result, ok, err, busy, not_running}
use ghostfleet.Orch.State.{Orch, Job}
use ghostfleet.Orch.Jobs.{job_of, is_active, acquire, remove_job, release, cancel, cancel_job, stop}

pub data JobCall : Type 0 where
  acquires releases cancels asks : ℕ → JobCall
  stops : JobCall

-- The specification: for a deployment, whether it has a job, and whether that is cancelled.
abbrev pub Locks : Type 0
Locks = ℕ → Option Bool

abbrev pub is_held : Option Bool → Bool
is_held none = false
is_held (some c) = true

abbrev pub cancelled_if : Option Bool → Option Bool
cancelled_if none = none
cancelled_if (some c) = some true

abbrev pub set_lock : ℕ → Option Bool → Locks → Locks
set_lock id v s j = if id == j then v else s j

unfoldable pub lock_step : JobCall → Locks → Result Bool × Locks
lock_step (acquires id) s =
    if is_held (s id) then (err busy, s) else (ok true, set_lock id (some false) s)
lock_step (releases id) s = (ok true, set_lock id none s)
lock_step (cancels id) s =
    if is_held (s id) then (ok true, set_lock id (some true) s) else (err not_running, s)
lock_step (asks id) s = (ok (is_held (s id)), s)
lock_step stops s = (ok true, λ j. cancelled_if (s j))

abbrev pub answered : {A : Type 0} → Result A × Orch → Result Bool × Orch
answered (ok a, o) = (ok true, o)
answered (err e, o) = (err e, o)

-- The orchestrator's own methods.
unfoldable pub job_step : JobCall → Orch → Result Bool × Orch
job_step (acquires id) o = answered (acquire id o)
job_step (releases id) o = (ok true, release id o)
job_step (cancels id) o = answered (cancel id o)
job_step (asks id) o = (ok (is_active id o), o)
job_step stops o = (ok true, stop o)

unfoldable pub lock_answers : List JobCall → Locks → List (Result Bool)
unfolding lock_step
lock_answers [] s = []
lock_answers (c ∷ cs) s = let r = lock_step c s in r.0 ∷ lock_answers cs r.1

unfoldable pub job_answers : List JobCall → Orch → List (Result Bool)
unfolding job_step
job_answers [] o = []
job_answers (c ∷ cs) o = let r = job_step c o in r.0 ∷ job_answers cs r.1

abbrev pub state_of : Option Job → Option Bool
state_of none = none
state_of (some j) = some j.cancelled

-- At most one job for a deployment.
abbrev pub Once : List Job → Type 0
Once [] = Unit
Once (j ∷ js) = (any (job_of j.deployment_id) js ≡ false) × Once js

abbrev pub Represents : List Job → Locks → Type 0
Represents js s = (i : ℕ) → state_of (find (job_of i) js) ≡ s i

pub held-any : (i : ℕ) (js : List Job) → is_held (state_of (find (job_of i) js)) ≡ any (job_of i) js
unfolding find any
held-any i [] = refl
held-any i (j ∷ js) = elim (Bool-cases (job_of i j)) [
  | inl e ↦ rw e refl
  | inr e ↦ rw e (held-any i js)
]

unheld-none : (o : Option Bool) → is_held o ≡ false → o ≡ none
unheld-none none h = refl
unheld-none (some c) h = absurd (ground (arith, h))

absent-none :
    (i : ℕ) (js : List Job) → any (job_of i) js ≡ false → state_of (find (job_of i) js) ≡ none
absent-none i js h = unheld-none _ (held-any i js ∙ h)

pub removed-state :
    (id i : ℕ) (js : List Job)
    → Once js
    → state_of (find (job_of i) (remove_job id js))
      ≡ (if id == i then none else state_of (find (job_of i) js))
unfolding find remove_job
removed-state id i [] u = ground arith
removed-state id i (j ∷ js) u = elim (Bool-cases (job_of id j)) [
  | inl e ↦ elim (Bool-cases (id == i)) [
    | inl same ↦
        let at : j.deployment_id ≡ i = ground (arith, e, same) in
        rw (e, same) (absent-none i js (rw (← at) u.0))
    | inr other ↦ let off : job_of i j ≡ false = ground (arith, e, other) in rw (e, other, off) refl
  ]
  | inr e ↦ elim (Bool-cases (job_of i j)) [
    | inl mine ↦ let other : (id == i) ≡ false = ground (arith, e, mine) in rw (e, mine, other) refl
    | inr off ↦ rw (e, off) (removed-state id i js u.1)
  ]
]

any-removed :
    (i id : ℕ) (js : List Job)
    → any (job_of i) js ≡ false
    → any (job_of i) (remove_job id js) ≡ false
unfolding any remove_job
any-removed i id [] h = refl
any-removed i id (j ∷ js) h = ground (arith, h, any-removed i id js (ground (arith, h)))

pub Once-removed : (id : ℕ) (js : List Job) → Once js → Once (remove_job id js)
unfolding remove_job
Once-removed id [] u = tt
Once-removed id (j ∷ js) u = elim (Bool-cases (job_of id j)) [
  | inl e ↦ rw e u.1
  | inr e ↦ rw e (any-removed j.deployment_id id js u.0, Once-removed id js u.1)
]

-- Where a deployment's job is cancelled, the others' are as they were.
others :
    (id i : ℕ) (js : List Job)
    → (id == i) ≡ false
    → state_of (find (job_of i) (update_where (job_of id) cancel_job js))
      ≡ state_of (find (job_of i) js)
unfolding find update_where
others id i [] h = refl
others id i (j ∷ js) h = elim (Bool-cases (job_of i j)) [
  | inl mine ↦ let off : job_of id j ≡ false = ground (arith, mine, h) in rw (off, mine) refl
  | inr not_mine ↦ elim (Bool-cases (job_of id j)) [
    | inl e ↦ rw (e, not_mine) (others id i js h)
    | inr off ↦ rw (off, not_mine) (others id i js h)
  ]
]

-- The jobs after a cancellation of one deployment's.
pub cancelled_one :
    (id i : ℕ) (js : List Job)
    → any (job_of id) js ≡ true
    → state_of (find (job_of i) (update_where (job_of id) cancel_job js))
      ≡ (if id == i then some true else state_of (find (job_of i) js))
unfolding find any update_where
cancelled_one id i [] h = absurd (ground (arith, h))
cancelled_one id i (j ∷ js) h = elim (Bool-cases (job_of i j)) [
  | inl mine ↦ elim (Bool-cases (job_of id j)) [
    | inl e ↦ let same : (id == i) ≡ true = ground (arith, e, mine) in rw (e, mine, same) refl
    | inr off ↦
        let other : (id == i) ≡ false = ground (arith, off, mine) in rw (off, mine, other) refl
  ]
  | inr not_mine ↦ elim (Bool-cases (job_of id j)) [
    | inl e ↦
        let other : (id == i) ≡ false = ground (arith, e, not_mine) in
        rw (e, not_mine, other) (others id i js other)
    | inr off ↦ rw (off, not_mine) (cancelled_one id i js (ground (arith, off, h)))
  ]
]

pub stopped :
    (i : ℕ) (js : List Job)
    → state_of (find (job_of i) (map cancel_job js)) ≡ cancelled_if (state_of (find (job_of i) js))
unfolding find
stopped i [] = refl
stopped i (j ∷ js) = elim (Bool-cases (job_of i j)) [
  | inl e ↦ rw e refl
  | inr e ↦ rw e (stopped i js)
]

any-cancelled :
    (p : Job → Bool) (i : ℕ) (js : List Job)
    → any (job_of i) (update_where p cancel_job js) ≡ any (job_of i) js
unfolding any update_where
any-cancelled p i [] = refl
any-cancelled p i (j ∷ js) = ground (arith, any-cancelled p i js)

any-stopped : (i : ℕ) (js : List Job) → any (job_of i) (map cancel_job js) ≡ any (job_of i) js
unfolding any
any-stopped i [] = refl
any-stopped i (j ∷ js) = ap (λ b. job_of i j || b) (any-stopped i js)

pub Once-cancelled :
    (p : Job → Bool) (js : List Job) → Once js → Once (update_where p cancel_job js)
unfolding update_where
Once-cancelled p [] u = tt
Once-cancelled p (j ∷ js) u = elim (Bool-cases (p j)) [
  | inl e ↦ rw e (any-cancelled p j.deployment_id js ∙ u.0, Once-cancelled p js u.1)
  | inr e ↦ rw e (any-cancelled p j.deployment_id js ∙ u.0, Once-cancelled p js u.1)
]

pub Once-stopped : (js : List Job) → Once js → Once (map cancel_job js)
Once-stopped [] u = tt
Once-stopped (j ∷ js) u = (any-stopped j.deployment_id js ∙ u.0, Once-stopped js u.1)

-- One call answers as the specification does and keeps the representation.
abbrev pub Agrees : Result Bool × Orch → Result Bool × Locks → Type 0
Agrees r t = (r.0 ≡ t.0) × Once r.1.active × Represents r.1.active t.1
