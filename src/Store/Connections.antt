-- ===== src/Store/Connections.antt =====
-- internal/store/connections.go: hypervisor connections with their encrypted secrets.
use ghostfleet.Base.{
  ℕ, Bool, ◌&&◌, not, List, [], ◌∷◌, ◌++◌, Option, none, some, Name, name_eq, ◌==◌, if◌then◌else◌,
  find, count, any, sort_by, update_where, delete_where, ltb, leb, map,
}
use ghostfleet.Base.Monad.{ok, err, M, ◌>>=◌, ◌>>◌, conflict, not_found, db_failure}
use ghostfleet.Model.Records.{Deployment, Connection, is_deleted}
use ghostfleet.Store.Db.{Db, StoredConnection, stmt, new_id, now, row_or_none, affecting}

abbrev pub conn_has_id : ℕ → StoredConnection → Bool
conn_has_id id c = c.connection.id == id

abbrev pub conn_name_taken : ℕ → Name → StoredConnection → Bool
conn_name_taken id name c = not (c.connection.id == id) && name_eq c.connection.name name

-- CreateConnection, of a connection with no ID yet.
unfoldable pub create_connection : Connection → Name → M Db Connection
create_connection c secret = do
  id ← new_id
  t ← now
  stmt
  λ db.
      let row : Connection = record c { id = id; created_at = t; updated_at = t } in
      if any (λ e. name_eq e.connection.name c.name) db.connections then (err conflict, db) else (
        ok row,
        record db {
          connections = db.connections ++ (record { connection = row; secret_enc = secret } ∷ []);
        },
      )

-- A secret that is not given stays as it is.
abbrev pub secret_or : Option Name → Name → Name
secret_or none old = old
secret_or (some new) old = new

abbrev pub reconnected : Connection → Option Name → ℕ → StoredConnection → StoredConnection
reconnected c secret t row = record {
  connection = record c {
    id = row.connection.id;
    created_at = row.connection.created_at;
    updated_at = t;
  };
  secret_enc = secret_or secret row.secret_enc;
}

unfoldable pub update_connection : Connection → Option Name → M Db (Unit {0})
update_connection c secret = do
  t ← now
  stmt
  λ db.
      if any (conn_has_id c.id) db.connections && any (conn_name_taken c.id c.name) db.connections
      then (err conflict, db)
      else affecting (any (conn_has_id c.id) db.connections) (record db {
        connections = update_where (conn_has_id c.id) (reconnected c secret t) db.connections;
      })

abbrev pub without_secret : Option StoredConnection → Option Connection
without_secret none = none
without_secret (some c) = some c.connection

unfoldable pub get_connection : ℕ → M Db Connection
get_connection id = do
  stmt
  λ db. row_or_none (without_secret (find (conn_has_id id) db.connections)) db

abbrev pub secret_of : Option StoredConnection → Option Name
secret_of none = none
secret_of (some c) = some c.secret_enc

unfoldable pub get_connection_secret : ℕ → M Db Name
get_connection_secret id = do
  stmt
  λ db. row_or_none (secret_of (find (conn_has_id id) db.connections)) db

unfoldable pub list_connections : M Db (List Connection)
list_connections = do
  stmt
  λ db. (
    ok (sort_by (λ a b. leb b.created_at a.created_at) (map (λ c. c.connection) db.connections)),
    db,
  )

abbrev pub uses_connection : ℕ → Deployment → Bool
uses_connection id d = d.connection_id == id

abbrev pub live_on : ℕ → Deployment → Bool
live_on id d = d.connection_id == id && not (is_deleted d.status)

-- The DELETE: a deployment's `connection_id` is a foreign key with no action on a delete.
unfoldable pub delete_connection_row : ℕ → M Db (Unit {0})
delete_connection_row id = do
  stmt
  λ db.
      if any (conn_has_id id) db.connections
      then (if any (uses_connection id) db.deployments
          then (err db_failure, db)
          else (ok tt, record db { connections = delete_where (conn_has_id id) db.connections }))
      else (err not_found, db)

unfoldable pub delete_connection : ℕ → M Db (Unit {0})
unfolding delete_connection_row
delete_connection id = do
  stmt
  λ db.
      if ltb 0 (count (live_on id) db.deployments)
      then (err conflict, db)
      else delete_connection_row id db
