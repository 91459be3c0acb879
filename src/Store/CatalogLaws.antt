-- ===== src/Store/CatalogLaws.antt =====
-- internal/store: when a connection can be deleted, and the transaction of a profile's new version.
use ghostfleet.Base.{
  ℕ, suc, ◌≡◌, refl, ap, sym, ◌∙◌, ◌⊎◌, inl, inr, Bool, true, false, List, [], ◌∷◌, ◌++◌, Option,
  none, some, find, any, update_where,
}
use ghostfleet.Base.Monad.{Result, ok, err, bind_after}
use ghostfleet.Base.Binds.{Gives, bind-ok}
use ghostfleet.Model.Spec.{ProfileSpec}
use ghostfleet.Model.Records.{ProfileRow, ProfileVersion, Profile}
use ghostfleet.Store.Db.{Db, now_of, stmt_at, row_or_none, rolled_back}
use ghostfleet.Store.Calls.{Unchanged, stmt-ok, row-ok, unless-ok}
use ghostfleet.Store.Profiles.{
  profile_has_id, is_version, add_version, update_profile_spec, get_profile, current_of,
  current_version_of, insert_version,
}

-- A profile with its next version.
abbrev pub versioned : ℕ → ProfileRow → ProfileSpec → Db → List ProfileVersion
versioned id p spec db =
    db.versions
    ++ (record {
      profile_id = id;
      version = suc p.current_version;
      spec = spec;
      created_at = now_of db;
    }
        ∷ [])

abbrev pub advanced_to : ℕ → ProfileRow → Db → List ProfileRow
advanced_to id p db =
    update_where (profile_has_id id)
      (λ q. record q { current_version = suc p.current_version; updated_at = now_of db })
      db.profiles

-- The tables of profiles before and after a call: as they were, or with a new current version.
abbrev pub Whole : ℕ → ProfileSpec → Db → Db → Type 0
Whole id spec db db' =
    ((db'.profiles ≡ db.profiles) × (db'.versions ≡ db.versions))
    ⊎ ((p : ProfileRow) × (find (profile_has_id id) db.profiles ≡ some p)
        × (any (is_version id (suc p.current_version)) db.versions ≡ false)
        × (db'.profiles ≡ advanced_to id p db)
        × (db'.versions ≡ versioned id p spec db))

current-ok :
    (id : ℕ) (db db' : Db) (p : ProfileRow)
    → Gives (current_version_of id) db p db'
    → (find (profile_has_id id) db.profiles ≡ some p) × Unchanged db db'
unfolding current_version_of
current-ok id db db' p h =
    let (rest, g) = stmt-ok _ db db' p h in
    let (there, same) = row-ok _ _ db' p g in (there, rw same refl)

insert-ok :
    (v : ProfileVersion) (db db' : Db) (u : _)
    → Gives (insert_version v) db u db'
    → (any (is_version v.profile_id v.version) db.versions ≡ false)
      × (db' ≡ record db { versions = db.versions ++ (v ∷ []); faults = db'.faults })
unfolding insert_version
insert-ok v db db' u h =
    let (rest, g) = stmt-ok _ db db' u h in
    let (fresh, on) =
      unless-ok _ _ (record db { faults = rest }) db'
        (ok tt, record db { versions = db.versions ++ (v ∷ []); faults = rest }) u g in
    (fresh, rw (sym (ap (λ x. x.1) on)) refl)

version_row : ℕ → ProfileRow → ProfileSpec → Db → ProfileVersion
version_row id p spec db = record {
  profile_id = id;
  version = suc p.current_version;
  spec = spec;
  created_at = now_of db;
}

chained :
    (id : ℕ) (spec : ProfileSpec) (p : ProfileRow) (db db1 db2 db' : Db) (fs gs : List Bool)
    → find (profile_has_id id) db.profiles ≡ some p
    → db1 ≡ record db { faults = fs }
    → any (is_version id (suc p.current_version)) db1.versions ≡ false
    → db2 ≡ record db1 { versions = db1.versions ++ (version_row id p spec db ∷ []); faults = gs }
    → (db'.profiles ≡ advanced_to id p (record db2 { clock = db.clock }))
    → db'.versions ≡ db2.versions
    → Whole id spec db db'
unfolding version_row
chained id spec p db db1 db2 db' fs gs there e1 fresh e2 ps vs =
    inr (p, there, rw e1 at fresh, ps ∙ rw (e2, e1) refl, vs ∙ rw (e2, e1) refl)

committed :
    (id : ℕ) (spec : ProfileSpec) (db db' : Db) (u : _)
    → Gives (add_version id spec) db u db'
    → Whole id spec db db'
unfolding add_version version_row
committed id spec db db' u h =
    let (p, (db1, (a1, h1))) = bind-ok (current_version_of id) _ db db' u h in
    let (u2, (db2, (a2, h2))) =
      bind-ok (insert_version (version_row id p spec db)) _ db1 db' u h1 in
    let (there, same) = current-ok id db db1 p a1 in
    let (fresh, put) = insert-ok (version_row id p spec db) db1 db2 u2 a2 in
    let (rest, end) = stmt-ok _ db2 db' u h2 in
    chained id spec p db db1 db2 db' db1.faults db2.faults there same fresh put
      (sym (ap (λ x. x.1.profiles) end)) (sym (ap (λ x. x.1.versions) end))

read_rows :
    (id : ℕ) (db : Db)
    → ((get_profile id db).1.profiles ≡ db.profiles)
      × ((get_profile id db).1.versions ≡ db.versions)
unfolding get_profile
read_rows id db = at db.faults
  where
    row :
        (o : Option Profile) (fs : List Bool)
        → ((row_or_none o (record db { faults = fs })).1.profiles ≡ db.profiles)
          × ((row_or_none o (record db { faults = fs })).1.versions ≡ db.versions)
    row none fs = (refl, refl)
    row (some p) fs = (refl, refl)

    found : Db → Option Profile
    found e = current_of e (find (profile_has_id id) e.profiles)

    at :
        (fs : List Bool)
        → ((bind_after (stmt_at fs db) (λ u e. row_or_none (found e) e)).1.profiles ≡ db.profiles)
          × ((bind_after (stmt_at fs db) (λ u e. row_or_none (found e) e)).1.versions ≡ db.versions)
    at [] = row (found db) db.faults
    at (true ∷ fs) = (refl, refl)
    at (false ∷ fs) = row (found (record db { faults = fs })) fs

rolled-Whole :
    (id : ℕ) (spec : ProfileSpec) (db : Db) (r : Result (Unit {0}) × Db)
    → add_version id spec db ≡ r
    → Whole id spec db (bind_after (rolled_back db r) (λ u. get_profile id)).1
rolled-Whole id spec db (err e, db') h = inl (refl, refl)
rolled-Whole id spec db (ok u, db') h = elim (committed id spec db db' u h) [
  | inl (ps, vs) ↦ inl ((read_rows id db').0 ∙ ps, (read_rows id db').1 ∙ vs)
  | inr (p, there, fresh, ps, vs) ↦
      inr (p, there, fresh, (read_rows id db').0 ∙ ps, (read_rows id db').1 ∙ vs)
]

-- Whichever statements fail, UpdateProfileSpec either leaves the profiles and their versions as they are or
-- adds the spec as the version after the current one, which did not exist, and makes it current.
pub update_profile_spec-Whole :
    (id : ℕ) (spec : ProfileSpec) (db : Db) → Whole id spec db (update_profile_spec id spec db).1
unfolding update_profile_spec
update_profile_spec-Whole id spec db = rolled-Whole id spec db (add_version id spec db) refl
