-- ===== src/Api/Growth.antt =====
-- The grow-only rule of internal/api/deployments.go.
use ghostfleet.Base.{
  ℕ, ◌≡◌, ◌≤◌, refl, ap, sym, ◌∙◌, ◌⊎◌, inl, inr, Bool, true, false, List, [], ◌∷◌, Option, none,
  some, find, update_where, find-update_if, find-holds, any, arith, if◌then◌else◌, ◌==◌, Bool-cases,
}
use ghostfleet.Base.Monad.{Result, ok, err, bind_after}
use ghostfleet.Model.Int.{ℤ}
use ghostfleet.Model.Spec.{SpecOf, ProfileSpec}
use ghostfleet.Model.Checked.{check_spec}
use ghostfleet.Model.Records.{Deployment}
use ghostfleet.Store.Db.{Db, stmt_at, row_or_none, affecting, now_of, update_deployments_found}
use ghostfleet.Store.Deployments.{dep_has_id, get_deployment, update_deployment_spec}
use ghostfleet.Store.Calls.{get_deployment-ok}
use ghostfleet.Orch.State.{Orch, lift, lift_at}
use ghostfleet.Api.Reply.{replied, calls, store_code, reply}
use ghostfleet.Api.Deployments.{shrink_check, grow, with_spec, handle_update_deployment_spec}

-- No dimension of the spec is smaller.
abbrev pub NoSmaller : ProfileSpec → ProfileSpec → Type 0
NoSmaller old spec =
    (old.vm_count ≤ spec.vm_count)
    × (old.disks_per_vm ≤ spec.disks_per_vm)
    × (old.disk_size_gib ≤ spec.disk_size_gib)
    × (old.data_per_disk_gib ≤ spec.data_per_disk_gib)

-- Every deployment is still there, and its fleet is no smaller.
abbrev pub Grown : List Deployment → List Deployment → Type 0
Grown rows rows' =
    (j : ℕ) (d : Deployment)
    → find (dep_has_id j) rows ≡ some d
    → (d' : Deployment) × (find (dep_has_id j) rows' ≡ some d') × NoSmaller d.spec d'.spec

Grown-same : (rows rows' : List Deployment) → rows' ≡ rows → Grown rows rows'
Grown-same rows rows' e j d h = (d, rw e h, (omega arith, omega arith, omega arith, omega arith))

respecified : ProfileSpec → ℕ → Deployment → Deployment
respecified spec t d = record d { spec = spec; updated_at = t }

shrink_check-NoSmaller :
    (old spec : ProfileSpec) → shrink_check old spec ≡ false → NoSmaller old spec
unfolding shrink_check
shrink_check-NoSmaller old spec h =
    (ground (arith, h), ground (arith, h), ground (arith, h), ground (arith, h))

-- The row that the handler has read is the only one that the update meets.
update-Grown :
    (rows : List Deployment) (id : ℕ) (d : Deployment) (spec : ProfileSpec) (t : ℕ)
    → find (dep_has_id id) rows ≡ some d
    → NoSmaller d.spec spec
    → Grown rows (update_where (dep_has_id d.id) (respecified spec t) rows)
unfolding respecified
update-Grown rows id d spec t there more j e h = elim (Bool-cases (e.id == d.id)) [
  | inl same ↦
      let mine : d.id ≡ id = ground (arith, find-holds (dep_has_id id) rows d there) in
      let yours : e.id ≡ j = ground (arith, find-holds (dep_has_id j) rows e h) in
      let one : j ≡ id = ground (arith, same, mine, yours) in
      let got : some e ≡ some d = sym h ∙ ap (λ i. find (dep_has_id i) rows) one ∙ there in
      let same_row : e ≡ d = cc in
      (
        respecified spec t e,
        find-update_if (dep_has_id j) (dep_has_id d.id) (respecified spec t) rows e (λ y. refl) h
            ∙ ap (λ b. some (if b then respecified spec t e else e)) same,
        rw same_row more,
      )
  | inr other ↦ (
    e,
    find-update_if (dep_has_id j) (dep_has_id d.id) (respecified spec t) rows e (λ y. refl) h
        ∙ ap (λ b. some (if b then respecified spec t e else e)) other,
    (omega arith, omega arith, omega arith, omega arith),
  )
]

-- A read leaves the rows, whether it fails or not.
get_rows : (id : ℕ) (db : Db) → (get_deployment id db).1.deployments ≡ db.deployments
unfolding get_deployment
get_rows id db = at db.faults
  where
    found :
        (o : Option Deployment) (fs : List Bool)
        → (row_or_none o (record db { faults = fs })).1.deployments ≡ db.deployments
    found none fs = refl
    found (some d) fs = refl

    at :
        (fs : List Bool)
        → (bind_after
            (stmt_at fs db)
            (λ u db. row_or_none (find (dep_has_id id) db.deployments) db)).1.deployments
          ≡ db.deployments
    at [] = found (find (dep_has_id id) db.deployments) db.faults
    at (true ∷ fs) = refl
    at (false ∷ fs) = found (find (dep_has_id id) db.deployments) fs

updated_rows :
    (id : ℕ) (spec : ProfileSpec) (db : Db)
    → ((update_deployment_spec id spec db).1.deployments ≡ db.deployments)
      ⊎ ((update_deployment_spec id spec db).1.deployments
          ≡ update_where (dep_has_id id) (respecified spec (now_of db)) db.deployments)
unfolding update_deployment_spec update_deployments_found respecified
updated_rows id spec db = at db.faults
  where
    rows : List Deployment
    rows = update_where (dep_has_id id) (respecified spec (now_of db)) db.deployments

    wrote :
        (b : Bool) (fs : List Bool)
        → (affecting b (record db { deployments = rows; faults = fs })).1.deployments ≡ rows
    wrote true fs = refl
    wrote false fs = refl

    at :
        (fs : List Bool)
        → ((bind_after (stmt_at fs db) (λ u e.
              affecting (any (dep_has_id id) e.deployments) (record e {
                deployments =
                    update_where (dep_has_id id) (respecified spec (now_of db)) e.deployments;
              }))).1.deployments
            ≡ db.deployments)
          ⊎ ((bind_after (stmt_at fs db) (λ u e.
                affecting (any (dep_has_id id) e.deployments) (record e {
                  deployments =
                      update_where (dep_has_id id) (respecified spec (now_of db)) e.deployments;
                }))).1.deployments
              ≡ rows)
    at [] = inr (wrote (any (dep_has_id id) db.deployments) db.faults)
    at (true ∷ fs) = inl refl
    at (false ∷ fs) = inr (wrote (any (dep_has_id id) db.deployments) fs)

-- The rest of the handler keeps the rows that the update leaves.
answered_rows :
    (id : ℕ) (r : Result (Unit {0}) × Orch)
    → (replied store_code
        (λ u. calls store_code (lift (get_deployment id)) (reply 200))
        r).1.db.deployments
      ≡ r.1.db.deployments
answered_rows id (ok u, o) = read (lift (get_deployment id) o) ∙ get_rows id o.db
  where
    read :
        (r : Result Deployment × Orch)
        → (replied store_code (reply 200) r).1.db.deployments ≡ r.1.db.deployments
    read (ok d, o) = refl
    read (err e, o) = refl
answered_rows id (err e, o) = refl

grow-Grown :
    (id : ℕ) (d : Deployment) (spec : ProfileSpec) (o : Orch)
    → find (dep_has_id id) o.db.deployments ≡ some d
    → Grown o.db.deployments (grow d spec o).1.db.deployments
grow-Grown id d spec o there = elim (Bool-cases (shrink_check d.spec spec)) [
  | inl shrinks ↦ Grown-same _ _ (rw shrinks refl)
  | inr grows ↦
      let rows = answered_rows d.id (lift (update_deployment_spec d.id spec) o) in
      rw grows (elim (updated_rows d.id spec o.db) [
        | inl same ↦ Grown-same _ _ (rows ∙ same)
        | inr wrote ↦ rw (rows ∙ wrote) (
            update-Grown o.db.deployments id d spec (now_of o.db) there
              (shrink_check-NoSmaller d.spec spec grows))
      ])
]

spec-Grown :
    (id : ℕ) (d : Deployment) (spec : Option ProfileSpec) (o : Orch)
    → find (dep_has_id id) o.db.deployments ≡ some d
    → Grown o.db.deployments (with_spec spec (grow d) o).1.db.deployments
spec-Grown id d none o there = Grown-same _ _ refl
spec-Grown id d (some spec) o there = grow-Grown id d spec o there

read-Grown :
    (id : ℕ) (spec : Option ProfileSpec) (o : Orch) (r : Result Deployment × Db)
    → get_deployment id o.db ≡ r
    → r.1.deployments ≡ o.db.deployments
    → Grown o.db.deployments
        (replied store_code (λ d. with_spec spec (grow d)) (lift_at o r)).1.db.deployments
read-Grown id spec o (ok d, db) e rows =
    let there = (get_deployment-ok id o.db db d e).0 in
    rw (← rows)
      (spec-Grown id d spec (record o { db = db }) (ap (find (dep_has_id id)) rows ∙ there))
read-Grown id spec o (err x, db) e rows = Grown-same _ _ rows

-- The handler that replaces a deployment's spec drops no deployment and makes none smaller, in VMs, disks,
-- disk size or data, whatever the body and whichever statements fail.
pub update_deployment_spec-Grown :
    (id : ℕ) (body : Option (SpecOf ℤ)) (o : Orch)
    → Grown o.db.deployments (handle_update_deployment_spec id body o).1.db.deployments
unfolding handle_update_deployment_spec
update_deployment_spec-Grown id none o = Grown-same _ _ refl
update_deployment_spec-Grown id (some raw) o =
    read-Grown id (check_spec raw) o (get_deployment id o.db) refl (get_rows id o.db)
