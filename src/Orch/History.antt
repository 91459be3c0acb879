-- ===== src/Orch/History.antt =====
-- Any history of calls and returning goroutines (internal/orch/orchestrator.go).
use ghostfleet.Base.{
  ℕ, ◌≤◌, ◌≡◌, refl, sym, ap, ◌∙◌, inl, inr, Bool, List, [], ◌∷◌, arith, ◌==◌, ltb, any, count,
  update_where, map, Bool-cases, if◌then◌else◌,
}
use ghostfleet.Base.Monad.{Result, ok, err}
use ghostfleet.Store.Db.{Db}
use ghostfleet.Model.Records.{Deployment, Run, RunType}
use ghostfleet.Orch.State.{Orch, Job, Task, OnConflict}
use ghostfleet.Orch.Jobs.{job_of, is_active, remove_job, release, cancel, cancel_job, stop}
use ghostfleet.Orch.Start.{start_deploy, start_teardown, start_power, start_fill}
use ghostfleet.Store.Runs.{list_running_runs}
use ghostfleet.Store.Deployments.{get_deployment}
use ghostfleet.Orch.State.{lift_at}
use ghostfleet.Orch.Resume.{resume_found, resume_all, resume_listed, resume_interrupted}
use ghostfleet.Orch.ResumeLaws.{Resumed, found_id, resume_found-Resumed}
use ghostfleet.Orch.Exclusion.{
  job_ids, task_ids, Started, start_deploy-Started, start_teardown-Started, start_power-Started,
  start_fill-Started,
}

-- A call of the API or the scheduler, a resumption of the interrupted runs, a goroutine of a deployment that returns (it releases), or a
-- change of the store by anyone.
pub data Call : Type 0 where
  deploys : Deployment → OnConflict → Call
  tears_down : Deployment → Call
  powers : Deployment → Bool → Call
  fills : Deployment → RunType → Call
  cancels : ℕ → Call
  stops : Call
  returns : ℕ → Call
  stores : Db → Call
  resumes : Call

unfoldable pub remove_task : ℕ → List Task → List Task
remove_task id [] = []
remove_task id (t ∷ ts) =
    let rest = remove_task id ts in if t.deployment.id == id then ts else t ∷ rest

-- The deferred release of the goroutine of a deployment, if there is one.
unfoldable pub finish : ℕ → Orch → Orch
finish id o =
    if any (λ t. t.deployment.id == id) o.tasks
    then record (release id o) { tasks = remove_task id o.tasks }
    else o

unfoldable pub step : Orch → Call → Orch
step o (deploys d mode) = (start_deploy d mode o).1
step o (tears_down d) = (start_teardown d o).1
step o (powers d on) = (start_power d on o).1
step o (fills d ty) = (start_fill d ty o).1
step o (cancels id) = (cancel id o).1
step o stops = stop o
step o (returns id) = finish id o
step o (stores db) = record o { db = db }
step o resumes = resume_interrupted o

unfoldable pub run : Orch → List Call → Orch
run o [] = o
run o (c ∷ cs) = run (step o c) cs

-- How many goroutines work on a deployment.
abbrev pub goroutines : ℕ → Orch → ℕ
goroutines d o = count (λ i. i == d) (task_ids o.tasks)

pub record Inv (o : Orch) : Type 0 where
  pub aligned : job_ids o.active ≡ task_ids o.tasks
  pub single : (d : ℕ) → goroutines d o ≤ 1

is_active-count :
    (d : ℕ) (js : List Job) → any (job_of d) js ≡ ltb 0 (count (λ i. i == d) (job_ids js))
unfolding any count
is_active-count d [] = refl
is_active-count d (j ∷ js) = ground (arith, is_active-count d js)

Inv-of_Started : (d : ℕ) (o : Orch) (r : Result Run × Orch) → Inv o → Started d o r → Inv r.1
unfolding count is_active
Inv-of_Started d o (ok run, o') v (free, a, t) = record {
  aligned = a ∙ ap (◌∷◌ d) v.aligned ∙ sym t;
  single = λ e. ground (
    arith,
    is_active-count d o.active,
    v.single e,
    ap (count (λ i. i == e)) t,
    ap (count (λ i. i == d)) v.aligned,
  );
}
Inv-of_Started d o (err e, o') v (a, t) = record {
  aligned = ap job_ids a ∙ v.aligned ∙ ap task_ids (sym t);
  single = λ e. rw t (v.single e);
}

remove_id : ℕ → List ℕ → List ℕ
remove_id d [] = []
remove_id d (i ∷ is) = let rest = remove_id d is in if i == d then is else i ∷ rest

remove_job-ids : (d : ℕ) (js : List Job) → job_ids (remove_job d js) ≡ remove_id d (job_ids js)
unfolding remove_job remove_id
remove_job-ids d [] = refl
remove_job-ids d (j ∷ js) = ground (arith, remove_job-ids d js)

remove_task-ids : (d : ℕ) (ts : List Task) → task_ids (remove_task d ts) ≡ remove_id d (task_ids ts)
unfolding remove_task remove_id
remove_task-ids d [] = refl
remove_task-ids d (t ∷ ts) = ground (arith, remove_task-ids d ts)

count-remove :
    (d e : ℕ) (is : List ℕ) → count (λ i. i == e) (remove_id d is) ≤ count (λ i. i == e) is
unfolding remove_id count
count-remove d e [] = omega arith
count-remove d e (i ∷ is) = ground (arith, count-remove d e is)

finish-Inv : (d : ℕ) (o : Orch) → Inv o → Inv (finish d o)
unfolding finish release
finish-Inv d o v = elim (Bool-cases (any (λ t. t.deployment.id == d) o.tasks)) [
  | inr none' ↦ rw none' v
  | inl some' ↦ rw some' (record {
    aligned =
        remove_job-ids d o.active ∙ ap (remove_id d) v.aligned ∙ sym (remove_task-ids d o.tasks);
    single = λ e. omega (
      arith,
      v.single e,
      count-remove d e (task_ids o.tasks),
      ap (count (λ i. i == e)) (remove_task-ids d o.tasks),
    );
  })
]

cancelled-ids :
    (d : ℕ) (js : List Job) → job_ids (update_where (job_of d) cancel_job js) ≡ job_ids js
unfolding update_where
cancelled-ids d [] = refl
cancelled-ids d (j ∷ js) = ground (arith, cancelled-ids d js)

stopped-ids : (js : List Job) → job_ids (map cancel_job js) ≡ job_ids js
stopped-ids [] = refl
stopped-ids (j ∷ js) = ap (◌∷◌ j.deployment_id) (stopped-ids js)

cancel-Inv : (d : ℕ) (o : Orch) → Inv o → Inv (cancel d o).1
unfolding cancel
cancel-Inv d o v = elim (Bool-cases (is_active d o)) [
  | inl e ↦ rw e (record { aligned = cancelled-ids d o.active ∙ v.aligned; single = v.single })
  | inr e ↦ rw e v
]

Inv-store : (o : Orch) (db : Db) → Inv o → Inv (record o { db = db })
Inv-store o db v = record { aligned = v.aligned; single = v.single }

Resumed-Inv : (d : ℕ) (run : Run) (o o' : Orch) → Resumed d run o o' → Inv o → Inv o'
Resumed-Inv d run o o' (inl s) v = Inv-of_Started d o (ok run, o') v s
Resumed-Inv d run o o' (inr (a, t)) v = record {
  aligned = ap job_ids a ∙ v.aligned ∙ ap task_ids (sym t);
  single = λ e. rw t (v.single e);
}

resume_all-Inv : (runs : List Run) (o : Orch) → Inv o → Inv (resume_all runs o)
unfolding resume_all
resume_all-Inv [] o v = v
resume_all-Inv (r ∷ rs) o v =
    let x = get_deployment r.deployment_id o.db in
    resume_all-Inv rs (resume_found r (lift_at o x)) (
      Resumed-Inv (found_id x.0) r (record o { db = x.1 }) (resume_found r (lift_at o x))
        (resume_found-Resumed r o x.0 x.1) (Inv-store o x.1 v))

resume_listed-Inv :
    (o : Orch) (r : Result (List Run)) (db : Db) → Inv o → Inv (resume_listed (lift_at o (r, db)))
resume_listed-Inv o (ok runs) db v = resume_all-Inv runs (record o { db = db }) (Inv-store o db v)
resume_listed-Inv o (err e) db v = Inv-store o db v

resume-Inv : (o : Orch) → Inv o → Inv (resume_interrupted o)
unfolding resume_interrupted
resume-Inv o v = resume_listed-Inv o (list_running_runs o.db).0 (list_running_runs o.db).1 v

step-Inv : (o : Orch) (c : Call) → Inv o → Inv (step o c)
unfolding step stop
step-Inv o (deploys d mode) v =
    Inv-of_Started d.id o (start_deploy d mode o) v (start_deploy-Started d mode o)
step-Inv o (tears_down d) v =
    Inv-of_Started d.id o (start_teardown d o) v (start_teardown-Started d o)
step-Inv o (powers d on) v =
    Inv-of_Started d.id o (start_power d on o) v (start_power-Started d on o)
step-Inv o (fills d ty) v = Inv-of_Started d.id o (start_fill d ty o) v (start_fill-Started d ty o)
step-Inv o (cancels id) v = cancel-Inv id o v
step-Inv o stops v = record { aligned = stopped-ids o.active ∙ v.aligned; single = v.single }
step-Inv o (returns id) v = finish-Inv id o v
step-Inv o (stores db) v = Inv-store o db v
step-Inv o resumes v = resume-Inv o v

run-Inv : (o : Orch) (cs : List Call) → Inv o → Inv (run o cs)
unfolding run
run-Inv o [] v = v
run-Inv o (c ∷ cs) v = run-Inv (step o c) cs (step-Inv o c v)

-- After any history of Start calls, resumptions, cancellations, returning goroutines and store
-- changes, from an orchestrator with no job, each deployment has at most one goroutine, and IsActive
-- says exactly whether it has one: no error path leaves an entry behind, and none is lost.
pub run_exclusive :
    (db : Db) (cs : List Call) (d : ℕ)
    → let o = run (record { db = db; active = []; tasks = [] }) cs in
      (goroutines d o ≤ 1) × (is_active d o ≡ ltb 0 (goroutines d o))
unfolding is_active
run_exclusive db cs d =
    let v =
      run-Inv (record { db = db; active = []; tasks = [] }) cs
        (record { aligned = refl; single = λ e. unfold count in omega arith }) in
    (v.single d, is_active-count d _ ∙ ap (λ ids. ltb 0 (count (λ i. i == d) ids)) v.aligned)
