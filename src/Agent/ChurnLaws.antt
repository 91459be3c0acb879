-- ===== src/Agent/ChurnLaws.antt =====
-- What the plan of an incremental run (cmd/agent/gen.go) rewrites.
use ghostfleet.Base.{
  ◌<◌, ◌⊎◌, ◌&&◌, ltb, inl, inr, if◌then◌else◌, ℕ, ◌+◌, ◌*◌, ◌/◌, ◌≤◌, ◌≡◌, refl, ap, ◌∙◌, Bool,
  ◌||◌, List, ◌==◌, length, take, leb, sort_by, arith, Bool-cases,
}
use ghostfleet.Model.Spec.{percent}
use ghostfleet.Datagen.WorkOrder.{WorkOrder}
use ghostfleet.Store.Vms.{name_le}
use ghostfleet.Agent.Churn.{PlanFile, total_size, change_count, pick_change_set, plan_churn}
use ghostfleet.Agent.Picks.{
  Among, Among-none, Among-all, Different, sort-Ascending, take-Different, picked-picks, moved,
  picks-Picked, Among-total, take-length, sort-length,
}

-- rand.Shuffle permutes the indices: as many as there are, all below the length and all different.
pub record IsShuffle (shuffle : ℕ → ℕ → List ℕ) : Type 0 where
  pub size : (seed n : ℕ) → length (shuffle seed n) ≡ n
  pub different : (seed n : ℕ) → Different n (shuffle seed n)

-- pickChangeSet picks, in the order of the list, as many different files as it is asked for, or all if there
-- are no more, for a shuffle that permutes the indices; they hold no more bytes than the whole list.
pub pick_change_set-Among :
    (shuffle : ℕ → ℕ → List ℕ) (files : List PlanFile) (n seed : ℕ)
    → IsShuffle shuffle
    → Among (pick_change_set shuffle files n seed) files
      × (length (pick_change_set shuffle files n seed)
          ≡ (if ltb (length files) n then length files else n))
      × (total_size (pick_change_set shuffle files n seed) ≤ total_size files)
unfolding pick_change_set
pick_change_set-Among shuffle files n seed s = let m = chosen in (m.0, m.1, Among-total m.0)
  where
    chosen :
        Among (pick_change_set shuffle files n seed) files
        × (length (pick_change_set shuffle files n seed)
            ≡ (if ltb (length files) n then length files else n))
    chosen = elim (Bool-cases (n == 0)) [
      | inl z ↦ rw z (Among-none files, ground (arith, z))
      | inr p ↦ elim (Bool-cases (leb (length files) n)) [
        | inl all ↦ rw (p, all) (Among-all files, ground (arith, all))
        | inr some_left ↦
            let is = sort_by leb (take n (shuffle seed (length files))) in
            let up =
              sort-Ascending (length files) (take n (shuffle seed (length files)))
                (take-Different (length files) n _ (s.different seed (length files))) in
            let got = picks-Picked files 0 is (moved 0 0 _ _ is refl (omega arith) up) in
            let enough : n ≤ length (shuffle seed (length files)) =
              rw (s.size seed (length files)) (ground (arith, some_left)) in
            let count =
              ap length (picked-picks files is)
              ∙ got.1
              ∙ sort-length (take n (shuffle seed (length files)))
              ∙ take-length n (shuffle seed (length files)) enough in
            let asked : n ≡ (if ltb (length files) n then length files else n) =
              ground (arith, some_left) in
            rw (p, some_left) (rw (picked-picks files is) got.0, count ∙ asked)
      ]
    ]

-- The files in the order of their names.
abbrev pub by_name : List PlanFile → List PlanFile
by_name files = sort_by (λ a b. name_le a.name b.name) files

abbrev pub is_none : ℕ → Bool
is_none n = n == 0

change_count-zero :
    (len change : ℕ)
    → (change_count len change ≤ len)
      × (is_none (change_count len change) ≡ (is_none change || is_none len))
unfolding change_count
change_count-zero len change = elim (Bool-cases (is_none change)) [
  | inl z ↦
      let none : change ≡ 0 = ground (arith, z) in
      let flat : len * change ≡ 0 = ap (λ c. len * c) none ∙ omega arith in
      let rounded : (len * change + 50 * percent) / (100 * percent) ≡ 0 = omega (arith, flat) in
      (ground (arith, z, rounded), ground (arith, z, rounded))
  | inr p ↦ (ground (arith, p), ground (arith, p))
]

-- A number of files is the share of all: within half a file of it, or one where that is less than half a file,
-- or all where it is more than that.
abbrev pub IsShare : ℕ → ℕ → ℕ → Type 0
IsShare len change n =
    ((n * (100 * percent) ≤ len * change + 50 * percent)
      × (len * change < n * (100 * percent) + 50 * percent))
    ⊎ ((n ≡ 1) × (len * change < 50 * percent))
    ⊎ ((n ≡ len) × (len * (100 * percent) ≤ len * change))

share_of :
    (x len : ℕ)
    → (n : ℕ) → (rounded : ℕ) → rounded ≡ (x + 50 * percent) / (100 * percent)
    → (n ≡ rounded) ⊎ ((n ≡ 1) × (rounded ≡ 0)) ⊎ ((n ≡ len) × (len < rounded))
    → ((n * (100 * percent) ≤ x + 50 * percent) × (x < n * (100 * percent) + 50 * percent))
      ⊎ ((n ≡ 1) × (x < 50 * percent))
      ⊎ ((n ≡ len) × (len * (100 * percent) ≤ x))
share_of x len n rounded e (inl same) = inl (omega (arith, e, same), omega (arith, e, same))
share_of x len n rounded e (inr (inl (one, none))) = inr (inl (one, omega (arith, e, none)))
share_of x len n rounded e (inr (inr (all, more))) = inr (inr (all, omega (arith, e, more)))

change_count-IsShare : (len change : ℕ) → IsShare len change (change_count len change)
unfolding change_count
change_count-IsShare len change = share_of (len * change) len _ _ refl (rounds (ltb 0 change) _)
  where
    rounds :
        (due : Bool) (r : ℕ)
        → let up = if due && r == 0 && ltb 0 len then 1 else r in
          let n = if ltb len up then len else up in
          (n ≡ r) ⊎ ((n ≡ 1) × (r ≡ 0)) ⊎ ((n ≡ len) × (len < r))
    rounds due r = elim (Bool-cases (due && r == 0 && ltb 0 len)) [
      | inl e ↦ inr (inl (ground (arith, e), ground (arith, e)))
      | inr e ↦ elim (Bool-cases (ltb len r)) [
        | inl k ↦ inr (inr (ground (arith, e, k), ground (arith, k)))
        | inr k ↦ inl (ground (arith, e, k))
      ]
    ]

-- The plan of an incremental run, for a shuffle that permutes the indices: it rewrites different files of the
-- directory, in the order of their names, as many as the share of changes asks for, which is within half
-- a file of it but for one file at least and all at most, and none exactly if there are no changes or no files;
-- they never hold more bytes than all the files.
pub plan_churn-Among :
    (shuffle : ℕ → ℕ → List ℕ) (wo : WorkOrder) (files : List PlanFile)
    → IsShuffle shuffle
    → Among (plan_churn shuffle wo files).rewrite (by_name files)
      × (length (plan_churn shuffle wo files).rewrite
          ≡ change_count (length (by_name files)) wo.change_percent)
      × (is_none (length (plan_churn shuffle wo files).rewrite)
          ≡ (is_none wo.change_percent || is_none (length (by_name files))))
      × IsShare
          (length (by_name files))
          wo.change_percent
          (length (plan_churn shuffle wo files).rewrite)
      × (total_size (plan_churn shuffle wo files).rewrite ≤ total_size (by_name files))
unfolding plan_churn
plan_churn-Among shuffle wo files s =
    let n = change_count (length (by_name files)) wo.change_percent in
    let picks = pick_change_set-Among shuffle (by_name files) n wo.run_seed s in
    let few = change_count-zero (length (by_name files)) wo.change_percent in
    let exact : length (pick_change_set shuffle (by_name files) n wo.run_seed) ≡ n =
      picks.1 ∙ ground (arith, few.0) in
    (
      picks.0,
      exact,
      ap is_none exact ∙ few.1,
      rw exact (change_count-IsShare (length (by_name files)) wo.change_percent),
      picks.2,
    )
