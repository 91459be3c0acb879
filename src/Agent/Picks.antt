-- ===== src/Agent/Picks.antt =====
-- What ascending indices pick from a list of files (cmd/agent/gen.go, pickChangeSet).
use ghostfleet.Base.{
  ℕ, suc, zero, ◌+◌, ◌-◌, ◌≤◌, ◌<◌, ◌≡◌, refl, ap, ◌∙◌, false, List, [], ◌∷◌, ◌==◌, length,
  get_elem?, take, leb, sort_by, insert_by, any, any-sort, arith, Bool-cases, inl, inr,
}
use ghostfleet.Agent.Churn.{PlanFile, total_size, cons_some, picked}

-- The files of one list among those of another, in its order.
pub data Among : List PlanFile → List PlanFile → Type 0 where
  done : Among [] []
  skip : {f : PlanFile} {xs ys : List PlanFile} → Among xs ys → Among xs (f ∷ ys)
  keep : {f : PlanFile} {xs ys : List PlanFile} → Among xs ys → Among (f ∷ xs) (f ∷ ys)

pub Among-none : (ys : List PlanFile) → Among [] ys
Among-none [] = done
Among-none (y ∷ ys) = skip (Among-none ys)

pub Among-all : (ys : List PlanFile) → Among ys ys
Among-all [] = done
Among-all (y ∷ ys) = keep (Among-all ys)

-- Numbers in ascending order, from `lo` on and below `hi`.
abbrev Ascending : ℕ → ℕ → List ℕ → Type 0
Ascending lo hi [] = Unit
Ascending lo hi (i ∷ is) = (lo ≤ i) × (i < hi) × Ascending (suc i) hi is

-- Different numbers below `hi`.
abbrev pub Different : ℕ → List ℕ → Type 0
Different hi [] = Unit
Different hi (i ∷ is) = (i < hi) × (any (λ j. j == i) is ≡ false) × Different hi is

insert-Ascending :
    (lo hi i : ℕ) (is : List ℕ)
    → lo ≤ i
    → i < hi
    → any (λ j. j == i) is ≡ false
    → Ascending lo hi is
    → Ascending lo hi (insert_by leb i is)
unfolding insert_by any
insert-Ascending lo hi i [] l u new a = (l, u, tt)
insert-Ascending lo hi i (j ∷ js) l u new a = elim (Bool-cases (leb i j)) [
  | inl e ↦ rw e (l, u, (ground (arith, e, new), a.1, a.2))
  | inr e ↦
      rw e
        (a.0, a.1, insert-Ascending (suc j) hi i js (ground (arith, e)) u (ground (arith, new)) a.2)
]

pub sort-Ascending : (hi : ℕ) (is : List ℕ) → Different hi is → Ascending 0 hi (sort_by leb is)
unfolding sort_by
sort-Ascending hi [] d = tt
sort-Ascending hi (i ∷ is) d =
    insert-Ascending 0 hi i (sort_by leb is) (omega arith) d.0 (any-sort (λ j. j == i) leb is ∙ d.1)
      (sort-Ascending hi is d.2)

take-new :
    (n i : ℕ) (is : List ℕ) → any (λ j. j == i) is ≡ false → any (λ j. j == i) (take n is) ≡ false
unfolding any
take-new zero i is h = refl
take-new (suc n) i [] h = refl
take-new (suc n) i (j ∷ is) h = ground (arith, h, take-new n i is (ground (arith, h)))

pub take-Different : (hi n : ℕ) (is : List ℕ) → Different hi is → Different hi (take n is)
take-Different hi zero is d = tt
take-Different hi (suc n) [] d = tt
take-Different hi (suc n) (i ∷ is) d = (d.0, take-new n i is d.1, take-Different hi n is d.2)

-- The pick from the files behind the first `k`.
pub picks : ℕ → List PlanFile → List ℕ → List PlanFile
picks k files [] = []
picks k files (i ∷ is) = cons_some (get_elem? files (i - k)) (picks k files is)

pub picked-picks : (files : List PlanFile) (is : List ℕ) → picked files is ≡ picks 0 files is
unfolding picked picks
picked-picks files [] = refl
picked-picks files (i ∷ is) =
    let same : i ≡ i - 0 = omega arith in
    ap (λ n. cons_some (get_elem? files n) (picked files is)) same
    ∙ ap (cons_some (get_elem? files (i - 0))) (picked-picks files is)

get-later :
    (f : PlanFile) (fs : List PlanFile) (k i : ℕ)
    → suc k ≤ i
    → get_elem? (f ∷ fs) (i - k) ≡ get_elem? fs (i - suc k)
get-later f fs k i h =
    let next : i - k ≡ suc (i - suc k) = omega (arith, h) in ap (get_elem? (f ∷ fs)) next

picks-later :
    (f : PlanFile) (fs : List PlanFile) (k lo hi : ℕ) (is : List ℕ)
    → suc k ≤ lo
    → Ascending lo hi is
    → picks k (f ∷ fs) is ≡ picks (suc k) fs is
unfolding picks
picks-later f fs k lo hi [] l a = refl
picks-later f fs k lo hi (i ∷ is) l a =
    ap (λ o. cons_some o (picks k (f ∷ fs) is)) (get-later f fs k i (omega (arith, l, a.0)))
    ∙ ap (cons_some (get_elem? fs (i - suc k)))
        (picks-later f fs k (suc i) hi is (omega (arith, l, a.0)) a.2)

pub moved :
    (lo lo' hi hi' : ℕ) (is : List ℕ)
    → lo ≡ lo'
    → hi ≡ hi'
    → Ascending lo hi is
    → Ascending lo' hi' is
moved lo lo' hi hi' is e f h = rw (← e, ← f) h

-- What ascending indices pick.
abbrev Picked : ℕ → List PlanFile → List ℕ → Type 0
Picked k files is = Among (picks k files is) files × (length (picks k files is) ≡ length is)

pub picks-Picked :
    (files : List PlanFile) (k : ℕ) (is : List ℕ)
    → Ascending k (k + length files) is
    → Picked k files is
unfolding picks
picks-Picked [] k [] a = (done, refl)
picks-Picked [] k (i ∷ is) a = absurd (omega (arith, a.0, a.1))
picks-Picked (f ∷ fs) k [] a = (Among-none (f ∷ fs), refl)
picks-Picked (f ∷ fs) k (i ∷ is) a = elim (Bool-cases (i == k)) [
  | inl e ↦
      let at : i - k ≡ 0 = ground (arith, e) in
      let same : i ≡ k = ground (arith, e) in
      let up : k + length (f ∷ fs) ≡ suc k + length fs = omega arith in
      let rest =
        moved (suc i) (suc k) (k + length (f ∷ fs)) (suc k + length fs) is (ap suc same) up a.2 in
      let ih = picks-Picked fs (suc k) is rest in
      let later = picks-later f fs k (suc i) (k + length (f ∷ fs)) is (omega (arith, a.0)) a.2 in
      rw (at, later) (keep ih.0, ap suc ih.1)
  | inr e ↦
      let up : k + length (f ∷ fs) ≡ suc k + length fs = omega arith in
      let above : suc k ≤ i = ground (arith, e, a.0) in
      let tail = moved (suc i) (suc i) (k + length (f ∷ fs)) (suc k + length fs) is refl up a.2 in
      let ih = picks-Picked fs (suc k) (i ∷ is) (above, omega (arith, a.1), tail) in
      let later =
        picks-later f fs k i (k + length (f ∷ fs)) (i ∷ is) above (omega arith, a.1, a.2) in
      rw later (skip ih.0, ih.1)
]

-- The bytes of some of the files are at most those of all.
pub Among-total : {xs ys : List PlanFile} → Among xs ys → total_size xs ≤ total_size ys
unfolding total_size
Among-total done = omega arith
Among-total (skip m) = omega (arith, Among-total m)
Among-total (keep m) = omega (arith, Among-total m)

pub take-length : (n : ℕ) (is : List ℕ) → n ≤ length is → length (take n is) ≡ n
take-length zero is h = refl
take-length (suc n) [] h = absurd (omega (arith, h))
take-length (suc n) (i ∷ is) h = ap suc (take-length n is (omega (arith, h)))

insert-length : (i : ℕ) (is : List ℕ) → length (insert_by leb i is) ≡ suc (length is)
unfolding insert_by
insert-length i [] = refl
insert-length i (j ∷ js) = elim (Bool-cases (leb i j)) [
  | inl e ↦ rw e refl
  | inr e ↦ rw e (ap suc (insert-length i js))
]

pub sort-length : (is : List ℕ) → length (sort_by leb is) ≡ length is
unfolding sort_by
sort-length [] = refl
sort-length (i ∷ is) = insert-length i (sort_by leb is) ∙ ap suc (sort-length is)
