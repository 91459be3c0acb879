-- ===== src/Orch/Gate.antt =====
-- internal/orch/fill.go: WorkOrderForToken, the answer to an agent's heartbeat.
use ghostfleet.Base.{
  ℕ, ◌+◌, ◌≤◌, ◌<◌, ◌≡◌, refl, Bool, true, false, ◌&&◌, ◌||◌, not, List, [], ◌∷◌, Option, none,
  some, Name, ◌==◌, ltb, leb, if◌then◌else◌, find, find-holds, count, update_where, arith,
  Bool-cases, inl, inr,
}
use ghostfleet.Base.Monad.{Result, ok, err}
use ghostfleet.Model.Spec.{ProfileSpec}
use ghostfleet.Model.Records.{
  Deployment, ManagedVm, Run, working, is_pending, is_working, is_done, is_failed, is_running,
}
use ghostfleet.Store.Db.{Db, update_vms}
use ghostfleet.Store.Vms.{has_id, fills_as, count_fill_status, set_fill_status}
use ghostfleet.Store.Runs.{get_run, run_has_id}
use ghostfleet.Store.Deployments.{get_deployment, dep_has_id}
use ghostfleet.Datagen.WorkOrder.{WorkOrder, build_work_order}
use ghostfleet.Orch.Rates.{per_vm_rate_kbps}

-- `working, _ := …`: 0 if the statement fails.
abbrev pub or_zero : Result ℕ × Db → ℕ × Db
or_zero (ok n, db) = (n, db)
or_zero (err e, db) = (0, db)

-- Whether a pending VM of the run gets a slot.
unfoldable pub free_slot : ℕ → ℕ → Db → Bool × Db
free_slot limit run_id db =
    let counted = or_zero (count_fill_status run_id is_working db) in
    if ltb 0 limit then (ltb counted.0 limit, counted.1) else (true, db)

abbrev pub take_slot : ManagedVm → Bool × Db → Bool × Db
take_slot vm (true, db) = (true, (set_fill_status vm.id working db).1)
take_slot vm (false, db) = (false, db)

unfoldable pub promote : Deployment → Run → ManagedVm → Db → Bool × Db
unfolding free_slot
promote d run vm db =
    if is_pending vm.fill_status
    then take_slot vm (free_slot d.spec.max_parallel_vms run.id db)
    else (true, db)

-- The early returns before the mutex is taken.
abbrev pub has_no_fill : ManagedVm → Bool
has_no_fill vm = vm.fill_run_id == 0 || is_done vm.fill_status || is_failed vm.fill_status

module _ (fnv : Name → ℕ) (text : ℕ → Name) where
  unfoldable pub order_for : Deployment → Run → ManagedVm → WorkOrder
  order_for d run vm =
      record (build_work_order fnv text d.id d.name run.id run.run_type vm.name d.spec) {
        rate_limit_kbps = per_vm_rate_kbps d.spec;
      }

  abbrev pub answer : WorkOrder → Bool × Db → Option WorkOrder × Db
  answer wo (true, db) = (some wo, db)
  answer wo (false, db) = (none, db)

  abbrev pub with_deployment : ManagedVm → Run → Result Deployment × Db → Option WorkOrder × Db
  with_deployment vm run (err e, db) = (none, db)
  with_deployment vm run (ok d, db) = answer (order_for d run vm) (promote d run vm db)

  abbrev pub with_run : ManagedVm → Result Run × Db → Option WorkOrder × Db
  with_run vm (err e, db) = (none, db)
  with_run vm (ok run, db) =
      if is_running run.status
      then with_deployment vm run (get_deployment vm.deployment_id db)
      else (none, db)

  -- `none` is the action "idle".
  unfoldable pub work_order_for_token : ManagedVm → Db → Option WorkOrder × Db
  unfolding order_for promote
  work_order_for_token vm db =
      if has_no_fill vm then (none, db) else with_run vm (get_run vm.fill_run_id db)

abbrev pub working_in : ℕ → List ManagedVm → ℕ
working_in run_id vms = count (fills_as run_id is_working) vms

abbrev pub set_working : ManagedVm → ManagedVm
set_working v = record v { fill_status = working }

-- An UPDATE of the rows of one ID adds at most as many working rows as there are rows of the ID.
count-promoted :
    (run_id id : ℕ) (vms : List ManagedVm)
    → working_in run_id (update_where (has_id id) set_working vms)
      ≤ working_in run_id vms + count (has_id id) vms
unfolding count update_where
count-promoted run_id id [] = ground arith
count-promoted run_id id (v ∷ vs) = ground (arith, count-promoted run_id id vs)

promote-held :
    (d : Deployment) (run : Run) (vm : ManagedVm) (db : Db)
    → db.faults ≡ []
    → count (has_id vm.id) db.vms ≤ 1
    → 0 < d.spec.max_parallel_vms
    → working_in run.id db.vms ≤ d.spec.max_parallel_vms
    → working_in run.id (promote d run vm db).1.vms ≤ d.spec.max_parallel_vms
unfolding promote free_slot count_fill_status set_fill_status update_vms
promote-held d run vm db h one capped fits =
    let more = count-promoted run.id vm.id db.vms in ground (arith, h, one, capped, fits, more)

-- The condition under which a VM whose run is running is told to fill.
abbrev may_fill : ProfileSpec → ManagedVm → Db → Bool
may_fill spec vm db =
    not (is_pending vm.fill_status)
    || leb spec.max_parallel_vms 0
    || ltb (working_in vm.fill_run_id db.vms) spec.max_parallel_vms

-- The database behind an answer: a pending VM that is told to fill is working.
abbrev pub taken_in : Bool → ManagedVm → Db → Db
taken_in given vm db =
    if given && is_pending vm.fill_status
    then record db { vms = update_where (has_id vm.id) set_working db.vms }
    else db

promote-given :
    (d : Deployment) (run : Run) (vm : ManagedVm) (db : Db)
    → db.faults ≡ []
    → run.id ≡ vm.fill_run_id
    → promote d run vm db ≡ (may_fill d.spec vm db, taken_in (may_fill d.spec vm db) vm db)
unfolding promote free_slot count_fill_status set_fill_status update_vms
promote-given d run vm db h e = ground (arith, h, e)

-- The conditions of a work order: the VM is assigned to a run, which is running, its part of it is not over,
-- and it is not waiting, or there is no limit, or fewer VMs of the run than the limit are working.
abbrev pub told_to_fill : Deployment → Run → ManagedVm → Db → Bool
told_to_fill d run vm db =
    not (vm.fill_run_id == 0)
    && not (is_done vm.fill_status)
    && not (is_failed vm.fill_status)
    && is_running run.status
    && (not (is_pending vm.fill_status)
        || d.spec.max_parallel_vms == 0
        || ltb (working_in vm.fill_run_id db.vms) d.spec.max_parallel_vms)

run_of :
    (id : ℕ) (db : Db) (run : Run)
    → db.faults ≡ []
    → find (run_has_id id) db.runs ≡ some run
    → get_run id db ≡ (ok run, db)
unfolding get_run
run_of id db run h e = ground (arith, e)

deployment_of :
    (id : ℕ) (db : Db) (d : Deployment)
    → db.faults ≡ []
    → find (dep_has_id id) db.deployments ≡ some d
    → get_deployment id db ≡ (ok d, db)
unfolding get_deployment
deployment_of id db d h e = ground (arith, e)

id_of_run : (id : ℕ) (db : Db) (run : Run) → find (run_has_id id) db.runs ≡ some run → run.id ≡ id
id_of_run id db run e = let k = find-holds (run_has_id id) db.runs run e in ground (arith, k)

module _ (fnv : Name → ℕ) (text : ℕ → Name) where
  with_run-held :
      (d : Deployment) (run : Run) (vm : ManagedVm) (db : Db)
      → db.faults ≡ []
      → count (has_id vm.id) db.vms ≤ 1
      → find (dep_has_id vm.deployment_id) db.deployments ≡ some d
      → 0 < d.spec.max_parallel_vms
      → working_in run.id db.vms ≤ d.spec.max_parallel_vms
      → working_in run.id (with_run fnv text vm (ok run, db)).1.vms ≤ d.spec.max_parallel_vms
  with_run-held d run vm db h one e capped fits = elim (Bool-cases (is_running run.status)) [
    | inr n ↦ rw n fits
    | inl y ↦
        rw (y, deployment_of vm.deployment_id db d h e)
          (answered (order_for fnv text d run vm) (promote d run vm db)
            (promote-held d run vm db h one capped fits))
  ]
    where
      answered :
          (wo : WorkOrder) (r : Bool × Db)
          → working_in run.id r.1.vms ≤ d.spec.max_parallel_vms
          → working_in run.id (answer fnv text wo r).1.vms ≤ d.spec.max_parallel_vms
      answered wo (true, db') k = k
      answered wo (false, db') k = k

  -- With a limit on the VMs that write at once, no statement failing and IDs unique, a heartbeat of
  -- any VM, also one whose row was read some time ago, keeps the working VMs of its run within the
  -- limit.
  pub work_order_for_token_held :
      (d : Deployment) (run : Run) (vm : ManagedVm) (db : Db)
      → db.faults ≡ []
      → count (has_id vm.id) db.vms ≤ 1
      → find (run_has_id vm.fill_run_id) db.runs ≡ some run
      → find (dep_has_id vm.deployment_id) db.deployments ≡ some d
      → 0 < d.spec.max_parallel_vms
      → working_in run.id db.vms ≤ d.spec.max_parallel_vms
      → working_in run.id (work_order_for_token fnv text vm db).1.vms ≤ d.spec.max_parallel_vms
  unfolding work_order_for_token
  work_order_for_token_held d run vm db h one r e capped fits = elim (Bool-cases (has_no_fill vm)) [
    | inl y ↦ rw y fits
    | inr n ↦
        rw (n, run_of vm.fill_run_id db run h r) (with_run-held d run vm db h one e capped fits)
  ]

  -- Where no statement fails and the VM's run and deployment are stored, the answer is the work order with the
  -- rate of one VM exactly if the VM has a fill that is not over, the run is running, and the VM is working
  -- already, or there is no limit, or fewer VMs of the run than the limit are working; a pending VM that gets
  -- the order is working from then on, and the database is otherwise as it was.
  pub work_order_for_token_given :
      (d : Deployment) (run : Run) (vm : ManagedVm) (db : Db)
      → db.faults ≡ []
      → find (run_has_id vm.fill_run_id) db.runs ≡ some run
      → find (dep_has_id vm.deployment_id) db.deployments ≡ some d
      → work_order_for_token fnv text vm db ≡ (
        if told_to_fill d run vm db
            then some
                (record (build_work_order fnv text d.id d.name run.id run.run_type vm.name d.spec) {
                  rate_limit_kbps = per_vm_rate_kbps d.spec;
                })
            else none,
        taken_in (told_to_fill d run vm db) vm db,
      )
  unfolding work_order_for_token order_for
  work_order_for_token_given d run vm db h r e =
      let given = promote-given d run vm db h (id_of_run vm.fill_run_id db run r) in
      let found = run_of vm.fill_run_id db run h r in
      let owner = deployment_of vm.deployment_id db d h e in
      let wo = order_for fnv text d run vm in
      elim (Bool-cases (has_no_fill vm)) [
        | inl y ↦ let off : told_to_fill d run vm db ≡ false = ground (arith, y) in rw (off, y) refl
        | inr n ↦ elim (Bool-cases (is_running run.status)) [
          | inr m ↦
              let off : told_to_fill d run vm db ≡ false = ground (arith, m) in
              rw (off, n, found, m) refl
          | inl y ↦
              let same : told_to_fill d run vm db ≡ may_fill d.spec vm db = ground (arith, n, y) in
              rw (same, n, found, y, owner, given) (answer_of wo (may_fill d.spec vm db) _)
        ]
      ]
    where
      answer_of :
          (wo : WorkOrder) (b : Bool) (db' : Db)
          → answer fnv text wo (b, db') ≡ (if b then some wo else none, db')
      answer_of wo true db' = refl
      answer_of wo false db' = refl
