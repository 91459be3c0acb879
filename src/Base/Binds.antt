-- ===== src/Base/Binds.antt =====
-- What a chain of calls that succeeds says of each of its calls.
use mathlib.Core.Path.{◌≡◌, refl}
use native.Mathlib.Omega.{arith}
use ghostfleet.Base.Monad.{Result, ok, err, M, bind_after, ◌>>=◌}

-- A result, and the state with it.
abbrev pub Gives : {S A : Type 0} → M S A → S → A → S → Type 0
Gives m s a t = m s ≡ (ok a, t)

bind_after-ok :
    {S A B : Type 0} (r : Result A × S) (f : A → M S B) (s' : S) (b : B)
    → bind_after r f ≡ (ok b, s')
    → (a : A) × ((t : S) × ((r ≡ (ok a, t)) × (f a t ≡ (ok b, s'))))
bind_after-ok (ok a, t) f s' b h = (a, (t, (refl, h)))
bind_after-ok (err e, t) f s' b h = absurd (ground (arith, h))

-- A chain that gives a result gave one at its first call.
pub bind-ok :
    {S A B : Type 0} (m : M S A) (f : A → M S B) (s s' : S) (b : B)
    → (m >>= f) s ≡ (ok b, s')
    → (a : A) × ((t : S) × (Gives m s a t × (f a t ≡ (ok b, s'))))
bind-ok m f s s' b h = bind_after-ok (m s) f s' b h
