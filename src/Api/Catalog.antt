-- ===== src/Api/Catalog.antt =====
-- internal/api/profiles.go and connections.go: the handlers of profiles and connections.
use ghostfleet.Base.{
  ℕ, Bool, true, false, ◌&&◌, ◌||◌, not, List, [], ◌∷◌, ◌++◌, Option, none, some, Name, name_eq,
  ◌==◌, if◌then◌else◌, map,
}
use ghostfleet.Base.Monad.{Result, M, pure, ◌>>=◌}
use ghostfleet.Model.Int.{ℤ}
use ghostfleet.Model.Spec.{SpecOf, is_empty, is_lower, is_upper, is_digit}
use ghostfleet.Model.Checked.{as_raw, check_spec}
use ghostfleet.Model.Records.{Profile, ProfileVersion, Connection}
use ghostfleet.Store.Db.{Db}
use ghostfleet.Store.Profiles.{
  create_profile, get_profile, rename_profile, update_profile_spec, delete_profile,
  get_profile_version, list_profile_versions,
}
use ghostfleet.Store.Connections.{
  create_connection, update_connection, get_connection, delete_connection,
}
use ghostfleet.Api.Reply.{H, reply, bare, store_code, calls, with_body}
use ghostfleet.Api.Deployments.{with_spec}

-- "" is a name that is not given.
pub record ProfileRequest : Type 0 where
  pub name : Name
  pub spec : Option (SpecOf ℤ)

pub record ProfileDocument : Type 0 where
  pub kind : Name
  pub name : Name
  pub spec : Option (SpecOf ℤ)

abbrev pub profile_export_kind : Name
profile_export_kind =
    b'g' ∷ b'h' ∷ b'o' ∷ b's' ∷ b't' ∷ b'f' ∷ b'l' ∷ b'e' ∷ b'e' ∷ b't' ∷ b'.' ∷ b'p' ∷ b'r' ∷ b'o'
    ∷ b'f' ∷ b'i' ∷ b'l' ∷ b'e' ∷ []

abbrev pub created_as : Name → Option (SpecOf ℤ) → H Db Profile
created_as name none = bare 400
created_as name (some raw) =
    if is_empty name
    then bare 400
    else with_spec (check_spec raw)
        (λ spec. calls store_code (create_profile name spec) (reply 201))

unfoldable pub handle_create_profile : Option ProfileRequest → H Db Profile
handle_create_profile body = with_body body (λ req. created_as req.name req.spec)

abbrev answered_profile : ℕ → H Db Profile
answered_profile id = calls store_code (get_profile id) (reply 200)

abbrev pub respec : ℕ → Option (SpecOf ℤ) → H Db Profile
respec id none = answered_profile id
respec id (some raw) =
    with_spec (check_spec raw)
      (λ spec. calls store_code (update_profile_spec id spec) (λ p. answered_profile id))

abbrev no_spec : Option (SpecOf ℤ) → Bool
no_spec none = true
no_spec (some s) = false

unfoldable pub handle_update_profile : ℕ → Option ProfileRequest → H Db Profile
handle_update_profile id body = with_body body (λ req.
    if is_empty req.name && no_spec req.spec
    then bare 400
    else (if is_empty req.name
        then respec id req.spec
        else calls store_code (rename_profile id req.name) (λ u. respec id req.spec)))

abbrev pub document_of : Profile → ProfileDocument
document_of p = record {
  kind = profile_export_kind;
  name = p.row.name;
  spec = some (as_raw p.spec);
}

unfoldable pub export_profile : ℕ → H Db ProfileDocument
export_profile id = calls store_code (get_profile id) (λ p. reply 200 (document_of p))

unfoldable pub import_profile : Option ProfileDocument → H Db Profile
import_profile body = with_body body (λ doc.
    if not (is_empty doc.kind) && not (name_eq doc.kind profile_export_kind)
    then bare 400
    else created_as doc.name doc.spec)

abbrev is_slug : ℕ → Bool
is_slug c = is_lower c || is_upper c || is_digit c || c == b'-' || c == b'_'

abbrev slug_or : Name → Name
slug_or [] = b'p' ∷ b'r' ∷ b'o' ∷ b'f' ∷ b'i' ∷ b'l' ∷ b'e' ∷ []
slug_or (c ∷ cs) = c ∷ cs

-- The name of the download, for a name of one byte per character.
unfoldable pub profile_filename : Name → Name
profile_filename name =
    slug_or (map (λ c. if is_slug c then c else b'-') name)
    ++ (b'.' ∷ b'g' ∷ b'h' ∷ b'o' ∷ b's' ∷ b't' ∷ b'f' ∷ b'l' ∷ b'e' ∷ b'e' ∷ b't' ∷ b'-' ∷ b'p'
        ∷ b'r' ∷ b'o' ∷ b'f' ∷ b'i' ∷ b'l' ∷ b'e' ∷ b'.' ∷ b'j' ∷ b's' ∷ b'o' ∷ b'n' ∷ [])

unfoldable pub handle_list_profile_versions : ℕ → H Db (List ProfileVersion)
handle_list_profile_versions id = calls store_code (list_profile_versions id) listed
  where
    listed : List ProfileVersion → H Db (List ProfileVersion)
    listed [] = bare 404
    listed (v ∷ vs) = reply 200 (v ∷ vs)

-- The version is a decoded number, or none.
unfoldable pub handle_get_profile_version : ℕ → Option ℕ → H Db ProfileVersion
handle_get_profile_version id n =
    with_body n (λ n. calls store_code (get_profile_version id n) (reply 200))

unfoldable pub handle_delete_profile : ℕ → H Db (Unit {0})
handle_delete_profile id = calls store_code (delete_profile id) (λ u. bare 204)

pub record ConnectionRequest : Type 0 where
  pub name : Name
  pub plugin : Name
  pub endpoint : Name
  pub username : Name
  pub secret : Name
  pub insecure_tls : Bool

abbrev vsphere_text : Name
vsphere_text = b'v' ∷ b's' ∷ b'p' ∷ b'h' ∷ b'e' ∷ b'r' ∷ b'e' ∷ []

-- An error message, or "".
unfoldable pub connection_invalid : Bool → ConnectionRequest → Bool
connection_invalid secret_required r =
    is_empty r.name
    || not (name_eq r.plugin vsphere_text)
    || is_empty r.endpoint
    || is_empty r.username
    || (secret_required && is_empty r.secret)

abbrev pub connection_of : ℕ → ConnectionRequest → Connection
connection_of id r = record {
  id = id;
  name = r.name;
  plugin = r.plugin;
  endpoint = r.endpoint;
  username = r.username;
  insecure_tls = r.insecure_tls;
  created_at = 0;
  updated_at = 0;
}

-- The encryption of internal/secrets is a parameter.
module _ (encrypt : Name → Result Name) where
  abbrev encrypted : Name → M Db Name
  encrypted secret db = (encrypt secret, db)

  unfoldable pub handle_create_connection : Option ConnectionRequest → H Db Connection
  unfolding connection_invalid
  handle_create_connection body = with_body body (λ r.
      if connection_invalid true r
      then bare 400
      else calls store_code (encrypted r.secret)
          (λ blob. calls store_code (create_connection (connection_of 0 r) blob) (reply 201)))

  abbrev secret_blob : Name → M Db (Option Name)
  secret_blob [] = pure none
  secret_blob (c ∷ cs) = do blob ← encrypted (c ∷ cs); pure (some blob)

  unfoldable pub handle_update_connection : ℕ → Option ConnectionRequest → H Db Connection
  unfolding connection_invalid
  handle_update_connection id body = with_body body (λ r.
      if connection_invalid false r
      then bare 400
      else calls store_code (secret_blob r.secret) (λ blob.
        calls store_code (update_connection (connection_of id r) blob)
          (λ u. calls store_code (get_connection id) (reply 200))))

unfoldable pub handle_delete_connection : ℕ → H Db (Unit {0})
handle_delete_connection id = calls store_code (delete_connection id) (λ u. bare 204)
