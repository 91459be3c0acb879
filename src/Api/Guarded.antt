-- ===== src/Api/Guarded.antt =====
-- Who passes the gate before the protected API (internal/api/auth.go), over any history of logins and logouts.
use ghostfleet.Base.{
  ℕ, ◌≡◌, ◌+◌, ◌<◌, ◌⊎◌, inl, inr, refl, ap, ◌∙◌, Bool, true, false, List, [], ◌∷◌, Option, none,
  some, Name, name_eq, name_eq_sound, ◌==◌, find, find-holds, any, select, All, arith, Bool-cases,
}
use ghostfleet.Model.Spec.{is_empty}
use ghostfleet.Api.Sessions.{
  Session, session_lifetime, has_token, create_session, unexpired, valid_session, revoke_session,
  dropped, AuthConfig, Credentials, auth_required, authenticated, cookie_valid, offered_key,
  has_valid_api_key, passes_auth, handle_login, handle_logout,
}

-- A login with its password, its random token and its time, or a logout with the credentials of its request.
pub data AuthEvent : Type 0 where
  logs_in : Name → ℕ → ℕ → AuthEvent
  logs_out : Credentials → AuthEvent

-- The sessions after a history, the latest event first.
unfoldable pub sessions_after : AuthConfig → List AuthEvent → List Session
sessions_after c [] = []
sessions_after c (logs_in password token now ∷ es) =
    (handle_login c password token now (sessions_after c es)).1
sessions_after c (logs_out r ∷ es) = handle_logout r (sessions_after c es)

abbrev ends_cookie : ℕ → Option ℕ → Bool
ends_cookie token none = false
ends_cookie token (some t) = token == t

abbrev pub ends : ℕ → AuthEvent → Bool
ends token (logs_in password t now) = false
ends token (logs_out r) = ends_cookie token r.cookie

-- A login with the password, which is not empty, has issued the token at a time, and no logout has ended it
-- since.
pub data Issued (c : AuthConfig) (token : ℕ) : ℕ → List AuthEvent → Type 0 where
  issued :
      {now : ℕ} {es : List AuthEvent}
      → is_empty c.password ≡ false
      → Issued c token now (logs_in c.password token now ∷ es)
  still :
      {now : ℕ} {es : List AuthEvent} (e : AuthEvent)
      → ends token e ≡ false
      → Issued c token now es
      → Issued c token now (e ∷ es)

select-All :
    (P Q : Session → Type 0) (q : Session → Bool) (xs : List Session)
    → ((s : Session) → q s ≡ true → P s → Q s)
    → All P xs
    → All Q (select q xs)
unfolding select
select-All P Q q [] f h = tt
select-All P Q q (x ∷ xs) f h = elim (Bool-cases (q x)) [
  | inl e ↦ rw e (f x e h.0, select-All P Q q xs f h.1)
  | inr e ↦ rw e (select-All P Q q xs f h.1)
]

find-All :
    (P : Session → Type 0) (p : Session → Bool) (xs : List Session) (s : Session)
    → find p xs ≡ some s
    → All P xs
    → P s
unfolding find
find-All P p [] s e h = absurd (ground (arith, e))
find-All P p (x ∷ xs) s e h = elim (Bool-cases (p x)) [
  | inl hit ↦
      let got : some x ≡ some s = rw hit at e in
      let same : x ≡ s = ground (arith, got) in rw (← same) h.0
  | inr miss ↦ find-All P p xs s (rw miss at e) h.1
]

module _ (c : AuthConfig) where
  abbrev IsIssued : List AuthEvent → Session → Type 0
  IsIssued es s = (t : ℕ) × (s.expiry ≡ t + session_lifetime) × Issued c s.token t es

  still-IsIssued :
      (e : AuthEvent) (es : List AuthEvent) (s : Session)
      → ends s.token e ≡ false
      → IsIssued es s
      → IsIssued (e ∷ es) s
  still-IsIssued e es s k (t, up, h) = (t, up, still e k h)

  All-still :
      (e : AuthEvent) (es : List AuthEvent) (xs : List Session)
      → ((s : Session) → ends s.token e ≡ false)
      → All (IsIssued es) xs
      → All (IsIssued (e ∷ es)) xs
  All-still e es [] k h = tt
  All-still e es (x ∷ xs) k h = (still-IsIssued e es x (k x) h.0, All-still e es xs k h.1)

  logged_out :
      (r : Credentials) (es : List AuthEvent) (o : Option ℕ)
      → r.cookie ≡ o
      → (xs : List Session) → All (IsIssued es) xs
      → All (IsIssued (logs_out r ∷ es)) (dropped o xs)
  unfolding revoke_session
  logged_out r es none e xs h = All-still (logs_out r) es xs (λ s. ap (ends_cookie s.token) e) h
  logged_out r es (some token) e xs h =
      select-All (IsIssued es) (IsIssued (logs_out r ∷ es)) _ xs
        (λ s k m.
          still-IsIssued (logs_out r) es s (ap (ends_cookie s.token) e ∙ ground (arith, k)) m)
        h

  after-IsIssued : (es : List AuthEvent) → All (IsIssued es) (sessions_after c es)
  unfolding sessions_after handle_login handle_logout create_session revoke_session
  after-IsIssued [] = tt
  after-IsIssued (logs_in password token now ∷ es) = elim (Bool-cases (is_empty c.password)) [
    | inl free ↦ rw (free, All) (All-still _ es _ (λ s. refl) (after-IsIssued es))
    | inr closed ↦ elim (Bool-cases (name_eq password c.password)) [
      | inl right ↦
          let old =
            All-still (logs_in password token now) es (sessions_after c es) (λ s. refl)
              (after-IsIssued es) in
          rw (closed, right, All)
            (
              (now, refl, rw (name_eq_sound password c.password right) (issued closed)),
              select-All _ _ _ _ (λ s k h. h) (select-All _ _ _ _ (λ s k h. h) old),
            )
      | inr wrong ↦ rw (closed, wrong, All) (All-still _ es _ (λ s. refl) (after-IsIssued es))
    ]
  ]
  after-IsIssued (logs_out r ∷ es) =
      logged_out r es r.cookie refl (sessions_after c es) (after-IsIssued es)

  -- A key of the configuration, offered by the request.
  abbrev pub KnowsKey : Credentials → Type 0
  KnowsKey r =
      (is_empty (offered_key r) ≡ false) × (any (λ k. name_eq (offered_key r) k) c.api_keys ≡ true)

  -- Its cookie is a token that a login with the password has issued, less than a day ago, and that no logout has
  -- ended since.
  abbrev pub IsLoggedIn : Credentials → ℕ → List AuthEvent → Type 0
  IsLoggedIn r now es =
      (token : ℕ) × (t : ℕ) × (r.cookie ≡ some token)
      × (now < t + session_lifetime)
      × Issued c token t es

  valid-IsIssued :
      (token now : ℕ) (es : List AuthEvent) (o : Option Session)
      → find (has_token token) (sessions_after c es) ≡ o
      → unexpired now o ≡ true
      → (t : ℕ) × (now < t + session_lifetime) × Issued c token t es
  valid-IsIssued token now es none there v = absurd (ground (arith, v))
  valid-IsIssued token now es (some s) there v =
      let (t, up, k) =
        find-All (IsIssued es) (has_token token) (sessions_after c es) s there
          (after-IsIssued es) in
      let mine : s.token ≡ token =
        ground (arith, find-holds (has_token token) (sessions_after c es) s there) in
      (t, rw (← up) (ground (arith, v)), rw (← mine) k)

  with_cookie :
      (r : Credentials) (now : ℕ) (es : List AuthEvent) (o : Option ℕ)
      → r.cookie ≡ o
      → cookie_valid o now (sessions_after c es) ≡ true
      → IsLoggedIn r now es
  unfolding valid_session
  with_cookie r now es none e v = absurd (ground (arith, v))
  with_cookie r now es (some token) e v =
      let (t, fresh, k) = valid-IsIssued token now es _ refl v in (token, t, e, fresh, k)

  -- Where a password or keys are configured, after any history of logins and logouts, a request that passes the
  -- gate of the protected API either offers a key of the configuration or carries the token of a login with
  -- the password, less than a day old, that no logout has ended since.
  pub passes_auth-IsLoggedIn :
      (r : Credentials) (now : ℕ) (es : List AuthEvent)
      → auth_required c ≡ true
      → passes_auth c r now (sessions_after c es) ≡ true
      → IsLoggedIn r now es ⊎ KnowsKey r
  unfolding passes_auth authenticated has_valid_api_key
  passes_auth-IsLoggedIn r now es on h = elim (Bool-cases (has_valid_api_key c r)) [
    | inl key ↦ inr (ground (arith, key), ground (arith, key))
    | inr keyless ↦ inl (with_cookie r now es r.cookie refl (ground (arith, on, h, keyless)))
  ]
