-- ===== src/Orch/Locks.antt =====
-- What acquire, release, Cancel, Stop and IsActive (internal/orch/orchestrator.go) answer, over any sequence of
-- them.
use ghostfleet.Base.{
  ℕ, ◌≡◌, refl, ap, sym, ◌∙◌, Bool, true, false, List, [], ◌∷◌, Option, none, some, ◌==◌,
  if◌then◌else◌, find, any, Bool-cases, inl, inr,
}
use ghostfleet.Base.Monad.{ok}
use ghostfleet.Orch.State.{Orch}
use ghostfleet.Orch.Jobs.{job_of, is_active, acquire, release, cancel, stop}
use ghostfleet.Orch.LockMap.{
  JobCall, Locks, is_held, cancelled_if, lock_step, job_step, lock_answers, job_answers, state_of,
  Once, Represents, held-any, removed-state, Once-removed, cancelled_one, stopped, Once-cancelled,
  Once-stopped, Agrees, acquires, releases, cancels, asks, stops,
}

step-Agrees :
    (c : JobCall) (o : Orch) (s : Locks)
    → Once o.active
    → Represents o.active s
    → Agrees (job_step c o) (lock_step c s)
unfolding job_step lock_step acquire cancel release stop is_active find
step-Agrees (acquires id) o s u r = elim (Bool-cases (any (job_of id) o.active)) [
  | inl e ↦ rw (e, held id true e) (refl, u, r)
  | inr e ↦ rw (e, held id false e) (refl, (e, u), λ i. fresh i (s i) (r i))
]
  where
    held : (id : ℕ) (b : Bool) → any (job_of id) o.active ≡ b → is_held (s id) ≡ b
    held id b e = ap is_held (sym (r id)) ∙ held-any id o.active ∙ e

    fresh :
        (i : ℕ) (x : Option Bool)
        → state_of (find (job_of i) o.active) ≡ x
        → state_of (find (job_of i) (record { deployment_id = id; cancelled = false } ∷ o.active))
          ≡ (if id == i then some false else x)
    fresh i x h = elim (Bool-cases (id == i)) [ inl e ↦ rw e refl | inr e ↦ rw e h ]
step-Agrees (releases id) o s u r = (
  refl,
  Once-removed id o.active u,
  λ i. removed-state id i o.active u ∙ ap (λ x. if id == i then none else x) (r i),
)
step-Agrees (cancels id) o s u r = elim (Bool-cases (any (job_of id) o.active)) [
  | inl e ↦
      rw (e, held id true e)
        (
          refl,
          Once-cancelled (job_of id) o.active u,
          λ i. cancelled_one id i o.active e ∙ ap (λ x. if id == i then some true else x) (r i),
        )
  | inr e ↦ rw (e, held id false e) (refl, u, r)
]
  where
    held : (id : ℕ) (b : Bool) → any (job_of id) o.active ≡ b → is_held (s id) ≡ b
    held id b e = ap is_held (sym (r id)) ∙ held-any id o.active ∙ e
step-Agrees (asks id) o s u r = (ap ok (sym (held-any id o.active) ∙ ap is_held (r id)), u, r)
step-Agrees stops o s u r =
    (refl, Once-stopped o.active u, λ i. stopped i o.active ∙ ap cancelled_if (r i))

-- The orchestrator's map of active jobs refines the locks: from a state that represents them, any sequence of
-- acquire, release, Cancel, Stop and IsActive has the answers of the specification.
pub job_answers-refines :
    (cs : List JobCall) (o : Orch) (s : Locks)
    → Once o.active
    → Represents o.active s
    → job_answers cs o ≡ lock_answers cs s
unfolding job_answers lock_answers
job_answers-refines [] o s u r = refl
job_answers-refines (c ∷ cs) o s u r =
    let (same, once, rep) = step-Agrees c o s u r in
    ap (λ a. a ∷ job_answers cs (job_step c o).1) same
    ∙ ap (◌∷◌ (lock_step c s).0)
        (job_answers-refines cs (job_step c o).1 (lock_step c s).1 once rep)
