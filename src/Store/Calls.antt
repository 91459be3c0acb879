-- ===== src/Store/Calls.antt =====
-- What a call of internal/store that succeeds has found and has written, whichever statements may
-- fail.
use ghostfleet.Base.{
  ℕ, ◌≡◌, refl, Bool, true, false, List, [], ◌∷◌, Option, none, some, find, any, update_where,
  if◌then◌else◌, arith,
}
use ghostfleet.Base.Monad.{Error, Result, ok, err, M, db_failure, ◌>>◌}
use ghostfleet.Base.Binds.{Gives}
use ghostfleet.Model.Records.{Deployment, ManagedVm, DiscoveredStatus}
use ghostfleet.Store.Db.{Db, stmt, affecting, row_or_none, update_vms_found}
use ghostfleet.Store.Vms.{get_vm_where}
use ghostfleet.Store.Deployments.{dep_has_id, get_deployment}
use ghostfleet.Store.Discovered.{set_discovered_status, disc_has_id, update_discovered}

-- A call that only reads leaves everything but the failures to come.
abbrev pub Unchanged : Db → Db → Type 0
Unchanged db db' = db' ≡ record db { faults = db'.faults }

pub Unchanged-refl : (db db' : Db) → db' ≡ db → Unchanged db db'
Unchanged-refl db db' e = rw e refl

pub Unchanged-trans : (a b c : Db) → Unchanged a b → Unchanged b c → Unchanged a c
Unchanged-trans a b c e f = Unchanged-by a b c b.faults c.faults e f
  where
    Unchanged-by :
        (a b c : Db) (fs gs : List Bool)
        → b ≡ record a { faults = fs }
        → c ≡ record b { faults = gs }
        → c ≡ record a { faults = gs }
    Unchanged-by a b c fs gs e f = rw (f, e) refl

stmt_at-ok :
    {A : Type 0} (fs : List Bool) (k : M Db A) (db db' : Db) (a : A)
    → db.faults ≡ fs
    → Gives (stmt >> k) db a db'
    → (rest : List Bool) × Gives k (record db { faults = rest }) a db'
stmt_at-ok [] k db db' a e h = ([], rw e at h)
stmt_at-ok (true ∷ fs) k db db' a e h =
    let off : (err db_failure, record db { faults = fs }) ≡ (ok a, db') = rw e at h in
    absurd (ground (arith, off))
stmt_at-ok (false ∷ fs) k db db' a e h = (fs, rw e at h)

pub stmt-ok :
    {A : Type 0} (k : M Db A) (db db' : Db) (a : A)
    → Gives (stmt >> k) db a db'
    → (rest : List Bool) × Gives k (record db { faults = rest }) a db'
stmt-ok k db db' a h = stmt_at-ok db.faults k db db' a refl h

pub row-ok :
    {A : Type 0} (o : Option A) (db db' : Db) (a : A)
    → row_or_none o db ≡ (ok a, db')
    → (o ≡ some a) × (db' ≡ db)
row-ok none db db' a h = absurd (ground (arith, h))
row-ok (some x) db db' a h = (ground (arith, h), ground (arith, h))

pub affecting-ok :
    (b : Bool) (db db' : Db) (u : _) → affecting b db ≡ (ok u, db') → (b ≡ true) × (db' ≡ db)
affecting-ok true db db' u h = (refl, ground (arith, h))
affecting-ok false db db' u h = absurd (ground (arith, h))

pub get_deployment-ok :
    (id : ℕ) (db db' : Db) (d : Deployment)
    → Gives (get_deployment id) db d db'
    → (find (dep_has_id id) db.deployments ≡ some d) × Unchanged db db'
unfolding get_deployment
get_deployment-ok id db db' d h =
    let (rest, g) = stmt-ok _ db db' d h in
    let (there, same) = row-ok _ _ db' d g in (there, rw same refl)

pub get_vm_where-ok :
    (p : ManagedVm → Bool) (db db' : Db) (v : ManagedVm)
    → Gives (get_vm_where p) db v db'
    → (find p db.vms ≡ some v) × Unchanged db db'
unfolding get_vm_where
get_vm_where-ok p db db' v h =
    let (rest, g) = stmt-ok _ db db' v h in
    let (there, same) = row-ok _ _ db' v g in (there, rw same refl)

pub update_vms_found-ok :
    (p : ManagedVm → Bool) (f : ManagedVm → ManagedVm) (db db' : Db) (u : _)
    → Gives (update_vms_found p f) db u db'
    → (any p db.vms ≡ true)
      × (db' ≡ record db { vms = update_where p f db.vms; faults = db'.faults })
unfolding update_vms_found
update_vms_found-ok p f db db' u h =
    let (rest, g) = stmt-ok _ db db' u h in
    let (there, same) = affecting-ok _ _ db' u g in (there, rw same refl)

pub set_discovered_status-ok :
    (id : ℕ) (status : DiscoveredStatus) (db db' : Db) (u : _)
    → Gives (set_discovered_status id status) db u db'
    → (any (disc_has_id id) db.discovered ≡ true)
      × (db' ≡ record db {
        discovered =
            update_where (disc_has_id id) (λ v. record v { status = status }) db.discovered;
        faults = db'.faults;
      })
unfolding set_discovered_status update_discovered
set_discovered_status-ok id status db db' u h =
    let (rest, g) = stmt-ok _ db db' u h in
    let (there, same) = affecting-ok _ _ db' u g in (there, rw same refl)

-- A guard of a statement: `if bad { return err }`.
pub unless-ok :
    {A : Type 0} (bad : Bool) (x : Error) (db db' : Db) (r : Result A × Db) (a : A)
    → ◌≡◌ {A = Result A × Db} (if bad then (err x, db) else r) (ok a, db')
    → (bad ≡ false) × (r ≡ (ok a, db'))
unless-ok true x db db' r a h = absurd (ground (arith, h))
unless-ok false x db db' r a h = (refl, h)
