-- ===== src/Base/Monad.antt =====
-- Go methods that mutate a state and return `(T, error)`: a state monad that keeps the state on an
-- error, as Go does.

-- Reasons of `orch.ErrPrecondition`, by their messages.
pub data Reason : Type 0 where
  adopted_not_deployable nothing_to_fill fill_first must_be_ready already_adopted : Reason
  not_inspected no_identity deployment_gone no_vm_record mac_not_found target_not_adopted : Reason

-- The errors that the controller tells apart.
pub data Error : Type 0 where
  not_found conflict busy not_running : Error
  precondition : Reason → Error
  db_failure driver_failure name_conflicts unknown_action bad_report : Error

pub data Result {ℓ} (A : Type ℓ) : Type ℓ where
  ok : A → Result A
  err : Error → Result A

abbrev pub M : Type 0 → Type 0 → Type 0
M S A = S → Result A × S

module _ {S : Type 0} where
  abbrev pub pure : {A : Type 0} → A → M S A
  pure a s = (ok a, s)

  abbrev pub fail : {A : Type 0} → Error → M S A
  fail e s = (err e, s)

abbrev pub bind_after : {S A B : Type 0} → Result A × S → (A → M S B) → Result B × S
bind_after (ok a, s) f = f a s
bind_after (err e, s) f = (err e, s)

infixl 5 ◌>>=◌ ◌>>◌
abbrev pub ◌>>=◌ : {S A B : Type 0} → M S A → (A → M S B) → M S B
◌>>=◌ m f s = bind_after (m s) f

abbrev pub ◌>>◌ : {S B : Type 0} → M S (Unit {0}) → M S B → M S B
m >> k = m >>= λ _. k
