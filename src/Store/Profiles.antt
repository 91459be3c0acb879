-- ===== src/Store/Profiles.antt =====
-- internal/store/profiles.go: profiles and their versions. A profile's spec is that of its current
-- version.
use ghostfleet.Base.{
  ℕ, suc, Bool, ◌&&◌, not, List, [], ◌∷◌, ◌++◌, Option, none, some, Name, name_eq, ◌==◌,
  if◌then◌else◌, find, select, count, any, sort_by, update_where, delete_where, ltb, leb,
}
use ghostfleet.Base.Monad.{ok, err, M, pure, ◌>>=◌, ◌>>◌, conflict, not_found, db_failure}
use ghostfleet.Model.Spec.{ProfileSpec}
use ghostfleet.Model.Records.{Deployment, Profile, ProfileRow, ProfileVersion, is_deleted}
use ghostfleet.Store.Db.{Db, stmt, new_id, now, row_or_none, affecting, transaction}

abbrev pub profile_has_id : ℕ → ProfileRow → Bool
profile_has_id id p = p.id == id

abbrev pub is_version : ℕ → ℕ → ProfileVersion → Bool
is_version id n v = v.profile_id == id && v.version == n

abbrev pub name_taken : ℕ → Name → ProfileRow → Bool
name_taken id name p = not (p.id == id) && name_eq p.name name

-- INSERT INTO profile_versions: the key is (profile, version).
unfoldable pub insert_version : ProfileVersion → M Db (Unit {0})
insert_version v = do
  stmt
  λ db.
      if any (is_version v.profile_id v.version) db.versions
      then (err db_failure, db)
      else (ok tt, record db { versions = db.versions ++ (v ∷ []) })

unfoldable pub insert_profile : ProfileRow → M Db (Unit {0})
insert_profile p = do
  stmt
  λ db.
      if any (λ q. name_eq q.name p.name) db.profiles
      then (err conflict, db)
      else (ok tt, record db { profiles = db.profiles ++ (p ∷ []) })

unfoldable pub create_profile : Name → ProfileSpec → M Db Profile
unfolding insert_profile insert_version
create_profile name spec = do
  id ← new_id
  t ← now
  transaction (do
    insert_profile
        (record { id = id; name = name; current_version = 1; created_at = t; updated_at = t })
    insert_version (record { profile_id = id; version = 1; spec = spec; created_at = t }))
  pure (record {
    row = record { id = id; name = name; current_version = 1; created_at = t; updated_at = t };
    spec = spec;
  })

-- The JOIN: no row without the current version's.
abbrev pub joined : ProfileRow → Option ProfileVersion → Option Profile
joined p none = none
joined p (some v) = some (record { row = p; spec = v.spec })

abbrev pub current_of : Db → Option ProfileRow → Option Profile
current_of db none = none
current_of db (some p) = joined p (find (is_version p.id p.current_version) db.versions)

unfoldable pub get_profile : ℕ → M Db Profile
get_profile id = do
  stmt
  λ db. row_or_none (current_of db (find (profile_has_id id) db.profiles)) db

unfoldable pub current_version_of : ℕ → M Db ProfileRow
current_version_of id = do stmt; λ db. row_or_none (find (profile_has_id id) db.profiles) db

-- The transaction of UpdateProfileSpec.
unfoldable pub add_version : ℕ → ProfileSpec → M Db (Unit {0})
unfolding current_version_of insert_version
add_version id spec = do
  t ← now
  p ← current_version_of id
  insert_version
      (record { profile_id = id; version = suc p.current_version; spec = spec; created_at = t })
  stmt
  λ db. (
    ok tt,
    record db {
      profiles =
          update_where (profile_has_id id)
            (λ q. record q { current_version = suc p.current_version; updated_at = t }) db.profiles;
    },
  )

unfoldable pub update_profile_spec : ℕ → ProfileSpec → M Db Profile
unfolding add_version get_profile
update_profile_spec id spec = do transaction (add_version id spec); get_profile id

unfoldable pub rename_profile : ℕ → Name → M Db (Unit {0})
rename_profile id name = do
  t ← now
  stmt
  λ db.
      if any (profile_has_id id) db.profiles && any (name_taken id name) db.profiles
      then (err conflict, db)
      else affecting (any (profile_has_id id) db.profiles) (record db {
        profiles =
            update_where (profile_has_id id) (λ p. record p { name = name; updated_at = t })
              db.profiles;
      })

-- The rows of the JOIN.
unfoldable pub joined_all : Db → List ProfileRow → List Profile
joined_all db [] = []
joined_all db (p ∷ ps) =
    let rest = joined_all db ps in elim (current_of db (some p)) [ none ↦ rest | some q ↦ q ∷ rest ]

unfoldable pub list_profiles : M Db (List Profile)
unfolding joined_all
list_profiles = do
  stmt
  λ db. (ok (joined_all db (sort_by (λ a b. leb b.created_at a.created_at) db.profiles)), db)

abbrev pub uses_profile : ℕ → Deployment → Bool
uses_profile id d = d.profile_id == id && not (is_deleted d.status)

-- ON DELETE CASCADE for the versions, SET NULL for the deployments.
abbrev pub without_profile : ℕ → Db → Db
without_profile id db = record db {
  profiles = delete_where (profile_has_id id) db.profiles;
  versions = delete_where (λ v. v.profile_id == id) db.versions;
  deployments =
      update_where (λ d. d.profile_id == id) (λ d. record d { profile_id = 0 }) db.deployments;
}

unfoldable pub delete_profile : ℕ → M Db (Unit {0})
delete_profile id = do
  stmt
  λ db.
      if ltb 0 (count (uses_profile id) db.deployments)
      then (err conflict, db)
      else (do
        stmt
        λ e.
            if any (profile_has_id id) e.profiles
            then (ok tt, without_profile id e)
            else (err not_found, e))
          db

unfoldable pub get_profile_version : ℕ → ℕ → M Db ProfileVersion
get_profile_version id n = do stmt; λ db. row_or_none (find (is_version id n) db.versions) db

unfoldable pub list_profile_versions : ℕ → M Db (List ProfileVersion)
list_profile_versions id = do
  stmt
  λ db. (
    ok (sort_by (λ a b. leb b.version a.version) (select (λ v. v.profile_id == id) db.versions)),
    db,
  )
