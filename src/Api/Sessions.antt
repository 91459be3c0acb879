-- ===== src/Api/Sessions.antt =====
-- internal/api/auth.go: sessions, API keys and the gate before the protected API.
use ghostfleet.Base.{
  ℕ, ◌+◌, ◌*◌, Bool, true, false, ◌||◌, not, List, ◌∷◌, Option, none, some, Name, name_eq, ◌==◌,
  if◌then◌else◌, find, any, delete_where, ltb,
}
use ghostfleet.Model.Spec.{is_empty}
use ghostfleet.Model.Records.{minute}

-- A token with its expiry.
pub record Session : Type 0 where
  pub token : ℕ
  pub expiry : ℕ

abbrev pub session_lifetime : ℕ
session_lifetime = 24 * 60 * minute

abbrev pub has_token : ℕ → Session → Bool
has_token token s = s.token == token

-- create, with the random token and the time given. A map has one entry for a key.
unfoldable pub create_session : ℕ → ℕ → List Session → List Session
create_session token now tokens =
    record { token = token; expiry = now + session_lifetime }
    ∷ delete_where (has_token token) (delete_where (λ s. ltb s.expiry now) tokens)

abbrev pub unexpired : ℕ → Option Session → Bool
unexpired now none = false
unexpired now (some s) = ltb now s.expiry

unfoldable pub valid_session : ℕ → ℕ → List Session → Bool
valid_session token now tokens = unexpired now (find (has_token token) tokens)

unfoldable pub revoke_session : ℕ → List Session → List Session
revoke_session token tokens = delete_where (has_token token) tokens

pub record AuthConfig : Type 0 where
  pub password : Name
  pub api_keys : List Name

-- What a request offers: its session cookie, the X-API-Key header, the key behind `Bearer ` in the
-- Authorization header, and the `apikey` query parameter.
pub record Credentials : Type 0 where
  pub cookie : Option ℕ
  pub header_key : Name
  pub bearer_key : Name
  pub query_key : Name

abbrev pub auth_required : AuthConfig → Bool
auth_required c = not (is_empty c.password) || any (λ k. true) c.api_keys

abbrev pub cookie_valid : Option ℕ → ℕ → List Session → Bool
cookie_valid none now tokens = false
cookie_valid (some token) now tokens = valid_session token now tokens

unfoldable pub authenticated : Credentials → ℕ → List Session → Bool
authenticated r now tokens = cookie_valid r.cookie now tokens

-- The first key that is not empty.
unfoldable pub offered_key : Credentials → Name
offered_key r =
    let given = if is_empty r.header_key then r.bearer_key else r.header_key in
    if is_empty given then r.query_key else given

unfoldable pub has_valid_api_key : AuthConfig → Credentials → Bool
unfolding offered_key
has_valid_api_key c r =
    if is_empty (offered_key r) then false else any (λ k. name_eq (offered_key r) k) c.api_keys

-- Whether requireAuth passes a request on.
unfoldable pub passes_auth : AuthConfig → Credentials → ℕ → List Session → Bool
unfolding authenticated has_valid_api_key
passes_auth c r now tokens =
    not (auth_required c) || authenticated r now tokens || has_valid_api_key c r

-- handleLogin with a decoded password: the status, whether a cookie is set, and the sessions.
unfoldable pub handle_login : AuthConfig → Name → ℕ → ℕ → List Session → (ℕ × Bool) × List Session
unfolding create_session
handle_login c password token now tokens =
    if is_empty c.password
    then ((200, false), tokens)
    else (if name_eq password c.password
        then ((200, true), create_session token now tokens)
        else ((401, false), tokens))

abbrev pub dropped : Option ℕ → List Session → List Session
dropped none tokens = tokens
dropped (some token) tokens = revoke_session token tokens

unfoldable pub handle_logout : Credentials → List Session → List Session
unfolding revoke_session
handle_logout r tokens = dropped r.cookie tokens
