-- ===== src/Witness/OfAgent.antt =====
-- Applications to an agent's disk and plan (cmd/agent).
use mathlib.Core.List.{Memᴰ}
use ghostfleet.Base.{
  Name, Bool, ◌⊎◌, inl, inr, name_eq, ℕ, ◌≡◌, refl, ap, sym, ◌∙◌, ◌≤◌, true, false, ◌||◌, zero, suc,
  List, [], ◌∷◌, some, All, any, length, arith, ◌==◌,
}
use ghostfleet.Model.Int.{pos}
use ghostfleet.Datagen.WorkOrder.{WorkOrder}
use ghostfleet.Model.Records.{incremental}
use ghostfleet.Agent.Manifest.{
  DiskFile, Manifest, update_disk_manifest, new_entries, verify_disk, on_disk, hash_file, entry_of,
}
use ghostfleet.Agent.Entries.{IsAccurate, Distinct}
use ghostfleet.Agent.Verified.{update-verifies, verified-IsIntact, IsIntact, NoCollision}
use ghostfleet.Agent.Churn.{PlanFile, plan_churn, total_size, change_count}
use ghostfleet.Agent.Picks.{Among, Different}
use ghostfleet.Agent.ChurnLaws.{IsShare, IsShuffle, by_name, is_none, plan_churn-Among}
use ghostfleet.Samples.{length_hash, fleet_spec}

abbrev notes : DiskFile
notes = record { path = b'n' ∷ []; content = some (b'x' ∷ b'y' ∷ []) }

abbrev plans : DiskFile
plans = record { path = b'p' ∷ []; content = some (b'z' ∷ []) }

abbrev both : List DiskFile
both = notes ∷ plans ∷ []

-- The run has rewritten the notes, which were longer, and kept the plans.
abbrev rewrote : Name → Bool
rewrote p = name_eq p (b'n' ∷ [])

abbrev old_manifest : Manifest
old_manifest = record {
  run_id = 4;
  files =
      (b'n' ∷ [], record { size = 3; sum = 3 }) ∷ (b'p' ∷ [], record { size = 1; sum = 1 }) ∷ [];
}

abbrev new_manifest : Manifest
new_manifest = record {
  run_id = 5;
  files =
      (b'n' ∷ [], record { size = 2; sum = 2 }) ∷ (b'p' ∷ [], record { size = 1; sum = 1 }) ∷ [];
}

written : update_disk_manifest length_hash 5 rewrote (some old_manifest) both ≡ some new_manifest
unfolding update_disk_manifest new_entries hash_file entry_of name_eq
written = refl

kept : IsAccurate length_hash rewrote old_manifest.files both
unfolding entry_of hash_file name_eq
kept = ((λ k e h. absurd (ground (arith, k))), ((λ k e h. h), tt))

apart : Distinct both
unfolding name_eq
apart = ((refl, tt), (tt, tt))

update-verifies_example : verify_disk length_hash new_manifest both ≡ some []
update-verifies_example =
    update-verifies length_hash 5 rewrote (some old_manifest) both new_manifest apart kept written

one_of_both : (f : DiskFile) → Memᴰ f both → (f ≡ notes) ⊎ (f ≡ plans)
one_of_both f (Memᴰ.head e) = inl e
one_of_both f (Memᴰ.tail (Memᴰ.head e)) = inr e
one_of_both f (Memᴰ.tail (Memᴰ.tail m)) = elim m [ ]

no_collision : NoCollision length_hash both both
unfolding hash_file
no_collision f g m k h = at (one_of_both f m) (one_of_both g k)
  where
    at : (f ≡ notes) ⊎ (f ≡ plans) → (g ≡ notes) ⊎ (g ≡ plans) → f.content ≡ g.content
    at (inl a) (inl b) = ap (λ x. x.content) (a ∙ sym b)
    at (inr a) (inr b) = ap (λ x. x.content) (a ∙ sym b)
    at (inl a) (inr b) = let off = rw (a, b) at h in absurd (ground (arith, off))
    at (inr a) (inl b) = let off = rw (a, b) at h in absurd (ground (arith, off))

verified-IsIntact_example :
    All (IsIntact length_hash both) both × All (λ f. on_disk both f.path ≡ true) both
verified-IsIntact_example =
    verified-IsIntact length_hash 5 rewrote (some old_manifest) both both new_manifest kept written
      no_collision update-verifies_example

-- The shuffle that reverses the indices.
countdown : ℕ → List ℕ
countdown zero = []
countdown (suc n) = n ∷ countdown n

countdown-length : (n : ℕ) → length (countdown n) ≡ n
unfolding countdown
countdown-length zero = refl
countdown-length (suc n) = ap suc (countdown-length n)

countdown-new : (n i : ℕ) → n ≤ i → any (λ j. j == i) (countdown n) ≡ false
unfolding countdown any
countdown-new zero i h = refl
countdown-new (suc n) i h = ground (arith, h, countdown-new n i (omega (arith, h)))

weaken : (n m : ℕ) (is : List ℕ) → n ≤ m → Different n is → Different m is
weaken n m [] h d = tt
weaken n m (i ∷ is) h d = (omega (arith, h, d.0), d.1, weaken n m is h d.2)

countdown-Different : (n : ℕ) → Different n (countdown n)
unfolding countdown
countdown-Different zero = tt
countdown-Different (suc n) = (
  omega arith,
  countdown-new n n (omega arith),
  weaken n (suc n) (countdown n) (omega arith) (countdown-Different n),
)

countdown-IsShuffle : IsShuffle (λ seed n. countdown n)
countdown-IsShuffle = record {
  size = λ seed n. countdown-length n;
  different = λ seed n. countdown-Different n;
}

abbrev three_files : List PlanFile
three_files =
    record { name = b'b' ∷ []; size = 4 }
    ∷ record { name = b'a' ∷ []; size = 5 }
    ∷ record { name = b'c' ∷ []; size = 6 }
    ∷ []

abbrev nightly_order : WorkOrder
nightly_order = record {
  run_id = 6;
  run_type = incremental;
  vm_name = b'v' ∷ [];
  compress_percent = 50;
  dedupe_percent = 20;
  file_size_bytes = 1048576;
  rate_limit_kbps = pos 0;
  disks = [];
  change_percent = 50000000;
  growth_percent = 1000000;
  run_seed = 3;
  identity = record {
    deployment_id = 1;
    deployment_name = b'f' ∷ [];
    vm_name = b'v' ∷ [];
    disk_index = 0;
    spec = fleet_spec;
  };
}

plan_churn-Among_example :
    Among
      (plan_churn (λ seed n. countdown n) nightly_order three_files).rewrite
      (by_name three_files)
    × (length (plan_churn (λ seed n. countdown n) nightly_order three_files).rewrite
        ≡ change_count (length (by_name three_files)) 50000000)
    × (is_none (length (plan_churn (λ seed n. countdown n) nightly_order three_files).rewrite)
        ≡ (is_none 50000000 || is_none (length (by_name three_files))))
    × IsShare
        (length (by_name three_files))
        50000000
        (length (plan_churn (λ seed n. countdown n) nightly_order three_files).rewrite)
    × (total_size (plan_churn (λ seed n. countdown n) nightly_order three_files).rewrite
        ≤ total_size (by_name three_files))
plan_churn-Among_example =
    plan_churn-Among (λ seed n. countdown n) nightly_order three_files countdown-IsShuffle
