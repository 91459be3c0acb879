-- ===== src/Orch/Assigned.antt =====
-- What the assignment of the VMs of a fill (internal/orch/fill.go, StartFill) leaves in the store.
use mathlib.Core.List.{Memᴰ}
use ghostfleet.Base.{
  ℕ, suc, ◌≡◌, refl, ap, ◌∙◌, Bool, true, false, ◌&&◌, List, [], ◌∷◌, ◌++◌, none, arith, ◌==◌, any,
  any-sort, any-select, update_where, map, if◌then◌else◌,
}
use ghostfleet.Store.Db.{Db, now_of, update_vms}
use ghostfleet.Store.Vms.{has_id, in_deployment, vms_of, assign_fill, assigned_fill}
use ghostfleet.Store.Runs.{run_has_id, coalesce}
use ghostfleet.Model.Records.{Deployment, ManagedVm, Run, RunType, run_pending, run_running}
use ghostfleet.Orch.Rates.{bytes_per_vm}
use ghostfleet.Orch.Start.{assign_all}

-- The row of a VM after the loop over the listed VMs.
abbrev pub assigned_row : ℕ → ℕ → List ManagedVm → ManagedVm → ManagedVm
assigned_row run_id total vs v =
    if any (λ w. v.id == w.id) vs then assigned_fill run_id total v else v

assign_one :
    (run_id total : ℕ) (v : ManagedVm) (vs rows : List ManagedVm)
    → map
        (assigned_row run_id total vs)
        (update_where (has_id v.id) (assigned_fill run_id total) rows)
      ≡ map (assigned_row run_id total (v ∷ vs)) rows
unfolding update_where any
assign_one run_id total v vs [] = refl
assign_one run_id total v vs (r ∷ rows) = ground (arith, assign_one run_id total v vs rows)

map_same : (vs : List ManagedVm) → vs ≡ map (λ v. v) vs
map_same [] = refl
map_same (v ∷ vs) = ap (◌∷◌ v) (map_same vs)

pub assign_all-rows :
    (run_id total : ℕ) (vs : List ManagedVm) (db : Db)
    → db.faults ≡ []
    → assign_all run_id total vs db ≡ record db { vms = map (assigned_row run_id total vs) db.vms }
unfolding assign_all assign_fill update_vms any
assign_all-rows run_id total [] db h = ground (arith, map_same db.vms)
assign_all-rows run_id total (v ∷ vs) db h =
    let one : (assign_fill v.id run_id total db).1
        ≡ record db { vms = update_where (has_id v.id) (assigned_fill run_id total) db.vms } =
      ground arith in
    rw one (
      assign_all-rows run_id total vs _ h
      ∙ ap (λ rows. record db { vms = rows }) (assign_one run_id total v vs db.vms))

any-mem :
    (p : ManagedVm → Bool) (v : ManagedVm) {vs : List ManagedVm}
    → Memᴰ v vs
    → p v ≡ true
    → any p vs ≡ true
unfolding any
any-mem p v (Memᴰ.head e) h = rw (← e, h)
any-mem p v (Memᴰ.tail {x = x} m) h = ground (arith, any-mem p v m h)

-- A VM of the deployment is among the listed ones.
pub listed :
    (d : ℕ) (db : Db) (v : ManagedVm)
    → Memᴰ v db.vms
    → in_deployment d v ≡ true
    → any (λ w. v.id == w.id) (vms_of d db) ≡ true
unfolding vms_of
listed d db v m h =
    any-sort (λ w. v.id == w.id) _ _
    ∙ any-select (in_deployment d) (λ w. v.id == w.id) db.vms
    ∙ any-mem (λ w. in_deployment d w && v.id == w.id) v m (ground (arith, h))

pub not_listed :
    (d : ℕ) (db : Db) (j : ℕ)
    → any (λ w. in_deployment d w && j == w.id) db.vms ≡ false
    → any (λ w. j == w.id) (vms_of d db) ≡ false
unfolding vms_of
not_listed d db j h =
    any-sort (λ w. j == w.id) _ _ ∙ any-select (in_deployment d) (λ w. j == w.id) db.vms ∙ h

abbrev pub new_run : Deployment → RunType → Db → Run
new_run d ty db = record {
  id = db.next_id;
  deployment_id = d.id;
  run_type = ty;
  status = run_pending;
  started_at = none;
  finished_at = none;
  triggered_by = 0;
}

abbrev pub started_row : ℕ → Run → Run
started_row t r = record r { status = run_running; started_at = coalesce r.started_at t }

unfoldable pub run_added : Deployment → RunType → Db → Db
run_added d ty db = record db { next_id = suc db.next_id; runs = db.runs ++ (new_run d ty db ∷ []) }

abbrev launched_vms : Deployment → RunType → List ManagedVm → Db → List ManagedVm
launched_vms d ty vs db = map (assigned_row db.next_id (bytes_per_vm d.spec ty) vs) db.vms

abbrev launched_runs : Deployment → RunType → Db → List Run
launched_runs d ty db =
    update_where (run_has_id db.next_id) (started_row (now_of db))
      (db.runs ++ (new_run d ty db ∷ []))

unfoldable pub launched_db : Deployment → RunType → List ManagedVm → Db → Db
launched_db d ty vs db = record db {
  next_id = suc db.next_id;
  vms = launched_vms d ty vs db;
  runs = launched_runs d ty db;
}

any-last : (p : Run → Bool) (rs : List Run) (r : Run) → p r ≡ true → any p (rs ++ (r ∷ [])) ≡ true
unfolding any
any-last p [] r h = rw h
any-last p (x ∷ rs) r h = ground (arith, any-last p rs r h)
