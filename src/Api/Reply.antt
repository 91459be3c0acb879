-- ===== src/Api/Reply.antt =====
-- internal/api: replies, and the HTTP statuses of the errors (server.go, operations.go, discovery.go).
use ghostfleet.Base.{ℕ, Option, none, some}
use ghostfleet.Base.Monad.{
  Error, Result, ok, err, M, not_found, conflict, busy, not_running, precondition,
}

-- A reply with a body, or with an error message, which is not modelled, or with neither.
pub record Reply (A : Type 0) : Type 0 where
  pub code : ℕ
  pub body : Option A

abbrev pub H : Type 0 → Type 0 → Type 0
H S A = S → Reply A × S

module _ {S A : Type 0} where
  -- writeJSON, and writeError or a bare WriteHeader.
  abbrev pub reply : ℕ → A → H S A
  reply code a s = (record { code = code; body = some a }, s)

  abbrev pub bare : ℕ → H S A
  bare code s = (record { code = code; body = none }, s)

-- writeStoreError, writeJobError, writeConnectError and writeAdoptError. A failure of the hypervisor is no
-- error of the store.
abbrev pub store_code : Error → ℕ
store_code not_found = 404
store_code conflict = 409
store_code _ = 500

abbrev pub job_code : Error → ℕ
job_code busy = 409
job_code not_running = 409
job_code (precondition r) = 409
job_code e = store_code e

abbrev pub connect_code : Error → ℕ
connect_code not_found = 404
connect_code _ = 502

abbrev pub adopt_code : Error → ℕ
adopt_code (precondition r) = 409
adopt_code conflict = 409
adopt_code not_found = 404
adopt_code _ = 502

-- `if err != nil { write…(err); return }` behind a call.
abbrev pub replied : {S A B : Type 0} → (Error → ℕ) → (A → H S B) → Result A × S → Reply B × S
replied code k (ok a, s) = k a s
replied code k (err e, s) = bare (code e) s

abbrev pub calls : {S A B : Type 0} → (Error → ℕ) → M S A → (A → H S B) → H S B
calls code m k s = replied code k (m s)

-- readJSON: `none` is a body that does not decode.
abbrev pub with_body : {S A B : Type 0} → Option A → (A → H S B) → H S B
with_body none k = bare 400
with_body (some a) k = k a
