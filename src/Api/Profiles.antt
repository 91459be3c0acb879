-- ===== src/Api/Profiles.antt =====
-- A profile that is exported and imported again (internal/api/profiles.go).
use ghostfleet.Base.{
  ℕ, suc, ◌∷◌, ◌++◌, ap, ◌≡◌, refl, false, [], some, Name, name_eq, any, arith, ◌&&◌, ◌==◌,
  name_eq_refl,
}
use ghostfleet.Base.Monad.{Result, ok, err}
use ghostfleet.Model.Int.{ℤ}
use ghostfleet.Model.Spec.{ProfileSpec, SpecOf, is_empty}
use ghostfleet.Model.Checked.{check_spec, check_spec-stable}
use ghostfleet.Model.Records.{Profile, ProfileRow}
use ghostfleet.Store.Db.{Db, now_of, new_id}
use ghostfleet.Store.Profiles.{create_profile, get_profile, insert_profile, insert_version}
use ghostfleet.Api.Reply.{replied, store_code, reply}
use ghostfleet.Api.Catalog.{document_of, export_profile, import_profile, profile_export_kind}

abbrev pub fresh_row : Name → Db → ProfileRow
fresh_row name db = record {
  id = db.next_id;
  name = name;
  current_version = 1;
  created_at = now_of db;
  updated_at = now_of db;
}

-- The database with a new profile of the name, at version 1 with the spec.
abbrev pub with_profile : Name → ProfileSpec → Db → Db
with_profile name spec db = record db {
  profiles = db.profiles ++ (fresh_row name db ∷ []);
  versions =
      db.versions
      ++ (record { profile_id = db.next_id; version = 1; spec = spec; created_at = now_of db }
          ∷ []);
  next_id = suc db.next_id;
}

create_profile-new :
    (name : Name) (spec : ProfileSpec) (db : Db)
    → db.faults ≡ []
    → any (λ q. name_eq q.name name) db.profiles ≡ false
    → any (λ v. v.profile_id == db.next_id && v.version == 1) db.versions ≡ false
    → create_profile name spec db
      ≡ (ok (record { row = fresh_row name db; spec = spec }), with_profile name spec db)
unfolding create_profile insert_profile insert_version new_id
create_profile-new name spec db h taken fresh = ground (arith, h, taken, fresh)

exported :
    (id : ℕ) (db : Db) (p : Profile)
    → (get_profile id db).0 ≡ ok p
    → (export_profile id db).0.body ≡ some (document_of p)
unfolding export_profile
exported id db p h = at (get_profile id db) h
  where
    at :
        (r : Result Profile × Db)
        → r.0 ≡ ok p
        → (replied store_code (λ q. reply 200 (document_of q)) r).0.body ≡ some (document_of p)
    at (ok q, e) h = let same : q ≡ p = ground (arith, h) in rw same refl
    at (err x, e) h = absurd (ground (arith, h))

created_reply :
    (r : Result Profile × Db) (q : Profile) (db : Db)
    → r ≡ (ok q, db)
    → replied store_code (reply 201) r ≡ (record { code = 201; body = some q }, db)
created_reply r q db h = ap (replied store_code (reply 201)) h

-- A profile whose spec passed ApplyDefaults and Validate, exported from one controller and imported into
-- another (or the same), where no statement fails there, its name is not empty and not taken and no version
-- has the fresh ID, is created again with its name and its very spec, as version 1: the reply carries it, and
-- the database gets its row and its version and keeps all else.
pub export_import :
    (id : ℕ) (db db2 : Db) (p : Profile) (raw : SpecOf ℤ)
    → (get_profile id db).0 ≡ ok p
    → check_spec raw ≡ some p.spec
    → is_empty p.row.name ≡ false
    → db2.faults ≡ []
    → any (λ q. name_eq q.name p.row.name) db2.profiles ≡ false
    → any (λ v. v.profile_id == db2.next_id && v.version == 1) db2.versions ≡ false
    → import_profile (export_profile id db).0.body db2 ≡ (
      record { code = 201; body = some (record { row = fresh_row p.row.name db2; spec = p.spec }) },
      with_profile p.row.name p.spec db2,
    )
unfolding import_profile
export_import id db db2 p raw got checked named h taken fresh =
    let stays = check_spec-stable raw p.spec checked in
    rw (exported id db p got, named, name_eq_refl profile_export_kind, stays)
      (created_reply (create_profile p.row.name p.spec db2) _ _
        (create_profile-new p.row.name p.spec db2 h taken fresh))
