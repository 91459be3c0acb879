-- ===== src/Base/TableLaws.antt =====
-- Laws of the table operations.

use mathlib.Core.Path.{◌≡◌, refl, ◌∙◌, ap}
use mathlib.Core.Bool.{Bool, true, false, ◌||◌, ◌&&◌}
use mathlib.Core.Option.{some}
use mathlib.Core.Logic.{inl, inr, ◌↔◌}
use mathlib.Core.List.{List, [], ◌∷◌, ◌++◌}
use native.Mathlib.Omega.{arith}
use ghostfleet.Base.Tests.{if◌then◌else◌, Bool-cases}
use ghostfleet.Base.Lists.{All}
use ghostfleet.Base.Tables.{update_where, select, find, count, any, insert_by, sort_by}

module _ {ℓ} {A : Type ℓ} where
  -- An UPDATE that affects no row changes nothing.
  pub update-none :
      (p : A → Bool) (f : A → A) (xs : List A) → any p xs ≡ false → update_where p f xs ≡ xs
  unfolding any update_where
  update-none p f [] h = refl
  update-none p f (x ∷ xs) h = elim (Bool-cases (p x)) [
    | inl e ↦ ground (arith, e)
    | inr e ↦ rw e (ap (◌∷◌ x) (update-none p f xs (ground (arith, e))))
  ]

  -- An UPDATE after which its rows no longer match leaves no row that does.
  pub any-update :
      (p : A → Bool) (f : A → A) (xs : List A)
      → ((x : A) → p x ≡ true → p (f x) ≡ false)
      → any p (update_where p f xs) ≡ false
  unfolding any update_where
  any-update p f [] h = refl
  any-update p f (x ∷ xs) h = elim (Bool-cases (p x)) [
    | inl e ↦ rw (e, h x e) (any-update p f xs h)
    | inr e ↦ rw (e, e) (any-update p f xs h)
  ]

  pub find-update :
      (p : A → Bool) (f : A → A) (xs : List A) (x : A)
      → ((y : A) → p (f y) ≡ p y)
      → find p xs ≡ some x
      → find p (update_where p f xs) ≡ some (f x)
  unfolding find update_where
  find-update p f [] x h e = cc
  find-update p f (y ∷ ys) x h e = elim (Bool-cases (p y)) [
    | inl hit ↦ rw (hit, h y, hit) (ground (arith, hit))
    | inr miss ↦ rw (miss, miss) (find-update p f ys x h (ground (arith, miss)))
  ]

  -- An UPDATE of other rows leaves a row as it is.
  pub find-update_other :
      (q p : A → Bool) (f : A → A) (xs : List A)
      → ((y : A) → p y ≡ true → q (f y) ≡ false)
      → ((y : A) → p y ≡ true → q y ≡ false)
      → find q (update_where p f xs) ≡ find q xs
  unfolding find update_where
  find-update_other q p f [] h k = refl
  find-update_other q p f (y ∷ ys) h k = elim (Bool-cases (p y)) [
    | inl hit ↦ rw (hit, h y hit, k y hit) (find-update_other q p f ys h k)
    | inr miss ↦ rw miss (ap (λ r. if q y then some y else r) (find-update_other q p f ys h k))
  ]

  pub any-find : (p : A → Bool) (xs : List A) (x : A) → find p xs ≡ some x → any p xs ≡ true
  unfolding any find
  any-find p [] x e = cc
  any-find p (y ∷ ys) x e = elim (Bool-cases (p y)) [
    | inl hit ↦ rw hit
    | inr miss ↦ rw miss (any-find p ys x (ground (arith, miss)))
  ]

  pub find-holds : (p : A → Bool) (xs : List A) (x : A) → find p xs ≡ some x → p x ≡ true
  unfolding find
  find-holds p [] x e = cc
  find-holds p (y ∷ ys) x e = elim (Bool-cases (p y)) [
    | inl hit ↦ ground (arith, hit)
    | inr miss ↦ find-holds p ys x (ground (arith, miss))
  ]

  pub any-append : (p : A → Bool) (xs ys : List A) → any p (xs ++ ys) ≡ (any p xs || any p ys)
  unfolding any
  any-append p [] ys = refl
  any-append p (x ∷ xs) ys = ground (arith, any-append p xs ys)

  -- A row that a query selects meets its condition, and what held of all rows.
  pub All-select_holds : (p : A → Bool) (xs : List A) → All (λ x. p x ≡ true) (select p xs)
  unfolding select
  All-select_holds p [] = tt
  All-select_holds p (x ∷ xs) = elim (Bool-cases (p x)) [
    | inl e ↦ rw e (e, All-select_holds p xs)
    | inr e ↦ rw e (All-select_holds p xs)
  ]

  pub any-select : (p q : A → Bool) (xs : List A) → any q (select p xs) ≡ any (λ x. p x && q x) xs
  unfolding any select
  any-select p q [] = refl
  any-select p q (x ∷ xs) = elim (Bool-cases (p x)) [
    | inl e ↦ rw (e, any-select p q xs)
    | inr e ↦ rw (e, any-select p q xs)
  ]

  pub count-any : (p : A → Bool) (xs : List A) → (count p xs ≡ 0) ↔ (any p xs ≡ false)
  unfolding any count
  count-any p [] = (λ h. refl, λ h. refl)
  count-any p (x ∷ xs) =
      (λ h. ground (arith, (count-any p xs).0), λ h. ground (arith, (count-any p xs).1))

  pub All-insert {κ} :
      (P : A → Type κ) (le : A → A → Bool) (x : A) (ys : List A)
      → P x
      → All P ys
      → All P (insert_by le x ys)
  unfolding insert_by
  All-insert P le x [] hx h = (hx, tt)
  All-insert P le x (y ∷ ys) hx h = elim (Bool-cases (le x y)) [
    | inl e ↦ rw e (hx, h)
    | inr e ↦ rw e (h.0, All-insert P le x ys hx h.1)
  ]

  pub All-sort {κ} :
      (P : A → Type κ) (le : A → A → Bool) (xs : List A) → All P xs → All P (sort_by le xs)
  unfolding sort_by
  All-sort P le [] h = tt
  All-sort P le (x ∷ xs) h = All-insert P le x (sort_by le xs) h.0 (All-sort P le xs h.1)

  pub any-insert :
      (p : A → Bool) (le : A → A → Bool) (x : A) (ys : List A)
      → any p (insert_by le x ys) ≡ (p x || any p ys)
  unfolding any insert_by
  any-insert p le x [] = refl
  any-insert p le x (y ∷ ys) = ground (arith, any-insert p le x ys)

  pub any-sort : (p : A → Bool) (le : A → A → Bool) (xs : List A) → any p (sort_by le xs) ≡ any p xs
  unfolding any sort_by
  any-sort p le [] = refl
  any-sort p le (x ∷ xs) = any-insert p le x (sort_by le xs) ∙ ap (λ b. p x || b) (any-sort p le xs)

  -- An UPDATE that keeps the column which a row is found by.
  pub find-update_if :
      (p q : A → Bool) (f : A → A) (xs : List A) (x : A)
      → ((y : A) → p (f y) ≡ p y)
      → find p xs ≡ some x
      → find p (update_where q f xs) ≡ some (if q x then f x else x)
  unfolding find update_where
  find-update_if p q f [] x h e = cc
  find-update_if p q f (y ∷ ys) x h e = elim (Bool-cases (p y)) [
    | inl hit ↦ ground (arith, hit, h y)
    | inr miss ↦ ground (arith, miss, h y, find-update_if p q f ys x h)
  ]

  -- After an UPDATE, a condition that its rows no longer meet and that the others never met.
  pub any-update_clears :
      (q p : A → Bool) (f : A → A) (xs : List A)
      → ((x : A) → p x ≡ true → q (f x) ≡ false)
      → ((x : A) → p x ≡ false → q x ≡ false)
      → any q (update_where p f xs) ≡ false
  unfolding any update_where
  any-update_clears q p f [] h k = refl
  any-update_clears q p f (x ∷ xs) h k = elim (Bool-cases (p x)) [
    | inl e ↦ rw (e, h x e) (any-update_clears q p f xs h k)
    | inr e ↦ rw (e, k x e) (any-update_clears q p f xs h k)
  ]

  -- An UPDATE keeps a condition that it does not touch.
  pub any-update_same :
      (q p : A → Bool) (f : A → A) (xs : List A)
      → ((x : A) → p x ≡ true → q (f x) ≡ q x)
      → any q (update_where p f xs) ≡ any q xs
  unfolding any update_where
  any-update_same q p f [] h = refl
  any-update_same q p f (x ∷ xs) h = elim (Bool-cases (p x)) [
    | inl e ↦ rw (e, h x e, any-update_same q p f xs h)
    | inr e ↦ rw (e, any-update_same q p f xs h)
  ]

  -- Two UPDATEs of the same rows are one.
  pub update-update :
      (p : A → Bool) (f g : A → A) (xs : List A)
      → ((x : A) → p (f x) ≡ p x)
      → update_where p g (update_where p f xs) ≡ update_where p (λ x. g (f x)) xs
  unfolding update_where
  update-update p f g [] h = refl
  update-update p f g (x ∷ xs) h = elim (Bool-cases (p x)) [
    | inl e ↦ rw (e, h x, e) (ap (◌∷◌ (g (f x))) (update-update p f g xs h))
    | inr e ↦ rw (e, e) (ap (◌∷◌ x) (update-update p f g xs h))
  ]

  -- A condition that an UPDATE brings about, and that no row met before, finds the updated row.
  pub find-marked :
      (q p : A → Bool) (f : A → A) (xs : List A)
      → any q xs ≡ false
      → ((x : A) → p x ≡ true → q (f x) ≡ true)
      → ((x : A) → p (f x) ≡ p x)
      → find q (update_where p f xs) ≡ find p (update_where p f xs)
  unfolding any find update_where
  find-marked q p f [] h m k = refl
  find-marked q p f (x ∷ xs) h m k = elim (Bool-cases (p x)) [
    | inl hit ↦ rw (hit, m x hit, k x, hit) refl
    | inr miss ↦
        let rest = find-marked q p f xs (ground (arith, h)) m k in
        let out : q x ≡ false = ground (arith, h) in rw (miss, out, miss) rest
  ]
