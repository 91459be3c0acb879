-- ===== src/Model/Validity.antt =====
-- What a spec that Validate (internal/model/model.go) accepts satisfies, and the sizes that follow.
use ghostfleet.Base.{
  ℕ, ◌+◌, ◌*◌, ◌≤◌, ◌≡◌, refl, ◌↔◌, ◌⊎◌, Bool, true, false, ◌||◌, ◌&&◌, not, inl, List, ◌∷◌, All,
  Name, none, arith, [],
}
use ghostfleet.Model.Int.{ℤ, pos, negsuc, to_ℕ, is_below, exceeds}
use ghostfleet.Model.Spec.{
  SpecOf, SpecError, AfterFill, shutdown, keep_running, percent, prefix_matches, tag_matches,
  outside, is_empty, is_known_after, cases, first_failure, validate,
}

abbrev pub InRange : ℤ → ℕ → ℕ → Type 0
InRange n lo hi = (n ≡ pos (to_ℕ n)) × (lo ≤ to_ℕ n) × (to_ℕ n ≤ hi)

-- The documented constraints.
pub record IsValid (s : SpecOf ℤ) : Type 0 where
  pub vm_count : InRange s.vm_count 1 1000
  pub name_prefix : prefix_matches s.name_prefix ≡ true
  pub name_pad : InRange s.name_pad 1 8
  pub vcpus : InRange s.vcpus 1 64
  pub memory_mib : InRange s.memory_mib 512 262144
  pub disks_per_vm : InRange s.disks_per_vm 1 60
  pub disk_size_gib : InRange s.disk_size_gib 1 63488
  pub data_per_disk_gib : InRange s.data_per_disk_gib 0 (to_ℕ s.disk_size_gib)
  pub compress_percent : InRange s.compress_percent 0 (100 * percent)
  pub dedupe_percent : InRange s.dedupe_percent 0 (100 * percent)
  pub cross_vm_dedupe_percent : InRange s.cross_vm_dedupe_percent 0 (100 * percent)
  pub dedupe_sum : to_ℕ s.dedupe_percent + to_ℕ s.cross_vm_dedupe_percent ≤ 100 * percent
  pub change_percent : InRange s.change_percent 0 (100 * percent)
  pub growth_percent : InRange s.growth_percent 0 (1000 * percent)
  pub tag : (s.tag ≡ []) ⊎ (tag_matches s.tag ≡ true)
  pub after_fill : (s.after_fill ≡ shutdown) ⊎ (s.after_fill ≡ keep_running)
  pub rate_limit : s.rate_limit_mbps ≡ pos (to_ℕ s.rate_limit_mbps)
  pub max_parallel : InRange s.max_parallel_vms 0 (to_ℕ s.vm_count)

abbrev Passes : Bool × SpecError → Type 0
Passes c = c.0 ≡ false

first_failure-none : (cs : List (Bool × SpecError)) → (first_failure cs ≡ none) ↔ All Passes cs
unfolding first_failure
first_failure-none [] = (λ h. tt, λ h. refl)
first_failure-none ((true, e) ∷ cs) = (λ h. cc, λ h. cc)
first_failure-none ((false, e) ∷ cs) =
    (λ h. (refl, (first_failure-none cs).0 h), λ h. (first_failure-none cs).1 h.1)

in_range : (n : ℤ) (lo hi : ℕ) → outside n lo hi ≡ false → InRange n lo hi
in_range (pos n) lo hi h = ground arith
in_range (negsuc n) lo hi h = ground arith

in_bound :
    (n m : ℤ) → (is_below n 0 || exceeds n m) ≡ false → InRange m 0 (to_ℕ m) → InRange n 0 (to_ℕ m)
in_bound (pos n) (pos m) h r = ground arith
in_bound (pos n) (negsuc m) h r = ground arith
in_bound (negsuc n) m h r = ground arith

from_range : (n : ℤ) (lo hi : ℕ) → InRange n lo hi → outside n lo hi ≡ false
from_range (pos n) lo hi h = ground arith
from_range (negsuc n) lo hi h = ground arith

from_bound :
    (n m : ℤ) → InRange n 0 (to_ℕ m) → InRange m 0 (to_ℕ m) → (is_below n 0 || exceeds n m) ≡ false
from_bound (pos n) (pos m) h r = ground arith
from_bound (pos n) (negsuc m) h r = ground arith
from_bound (negsuc n) m h r = ground arith

not_below : (n : ℤ) → (is_below n 0 ≡ false) ↔ (n ≡ pos (to_ℕ n))
not_below (pos n) = (λ h. refl, λ h. ground arith)
not_below (negsuc n) = (λ h. ground arith, λ h. ground arith)

known_after :
    (a : AfterFill) → (not (is_known_after a) ≡ false) ↔ ((a ≡ shutdown) ⊎ (a ≡ keep_running))
known_after a = (λ h. ground arith, λ h. ground arith)

good_tag :
    (t : Name)
    → ((not (is_empty t) && not (tag_matches t)) ≡ false) ↔ ((t ≡ []) ⊎ (tag_matches t ≡ true))
good_tag [] = (λ h. inl refl, λ h. refl)
good_tag (c ∷ cs) = (λ h. ground arith, λ h. ground arith)

passing-IsValid : (s : SpecOf ℤ) → All Passes (cases s) → IsValid s
passing-IsValid s
      (
        c1,
        (
          c2,
          (
            c3,
            (
              c4,
              (
                c5,
                (
                  c6,
                  (
                    c7,
                    (c8, (c9, (c10, (c11, (c12, (c13, (c14, (c15, (c16, (c17, (c18, _))))))))))),
                  ),
                ),
              ),
            ),
          ),
        ),
      ) =
    let size = in_range s.disk_size_gib 1 63488 c7 in
    let fleet = in_range s.vm_count 1 1000 c1 in
    record {
      vm_count = fleet;
      name_prefix = ground (arith, c2);
      name_pad = in_range s.name_pad 1 8 c3;
      vcpus = in_range s.vcpus 1 64 c4;
      memory_mib = in_range s.memory_mib 512 262144 c5;
      disks_per_vm = in_range s.disks_per_vm 1 60 c6;
      disk_size_gib = size;
      data_per_disk_gib =
          in_bound s.data_per_disk_gib s.disk_size_gib c8 (size.0, omega arith, omega arith);
      compress_percent = in_range s.compress_percent 0 (100 * percent) c9;
      dedupe_percent = in_range s.dedupe_percent 0 (100 * percent) c10;
      cross_vm_dedupe_percent = in_range s.cross_vm_dedupe_percent 0 (100 * percent) c11;
      dedupe_sum = ground (arith, c12);
      change_percent = in_range s.change_percent 0 (100 * percent) c13;
      growth_percent = in_range s.growth_percent 0 (1000 * percent) c14;
      tag = (good_tag s.tag).0 c15;
      after_fill = (known_after s.after_fill).0 c16;
      rate_limit = (not_below s.rate_limit_mbps).0 c17;
      max_parallel = in_bound s.max_parallel_vms s.vm_count c18 (fleet.0, omega arith, omega arith);
    }

valid_passing : (s : SpecOf ℤ) → IsValid s → All Passes (cases s)
valid_passing s v = (
  from_range _ 1 1000 v.vm_count,
  (
    rw v.name_prefix,
    (
      from_range _ 1 8 v.name_pad,
      (
        from_range _ 1 64 v.vcpus,
        (
          from_range _ 512 262144 v.memory_mib,
          (
            from_range _ 1 60 v.disks_per_vm,
            (
              from_range _ 1 63488 v.disk_size_gib,
              (
                from_bound _ s.disk_size_gib v.data_per_disk_gib
                    (v.disk_size_gib.0, omega arith, omega arith),
                (
                  from_range _ 0 (100 * percent) v.compress_percent,
                  (
                    from_range _ 0 (100 * percent) v.dedupe_percent,
                    (
                      from_range _ 0 (100 * percent) v.cross_vm_dedupe_percent,
                      (
                        ground (arith, v.dedupe_sum),
                        (
                          from_range _ 0 (100 * percent) v.change_percent,
                          (
                            from_range _ 0 (1000 * percent) v.growth_percent,
                            (
                              (good_tag s.tag).1 v.tag,
                              (
                                (known_after s.after_fill).1 v.after_fill,
                                (
                                  (not_below s.rate_limit_mbps).1 v.rate_limit,
                                  (
                                    from_bound _ s.vm_count v.max_parallel
                                        (v.vm_count.0, omega arith, omega arith),
                                    tt,
                                  ),
                                ),
                              ),
                            ),
                          ),
                        ),
                      ),
                    ),
                  ),
                ),
              ),
            ),
          ),
        ),
      ),
    ),
  ),
)

-- Validate returns nil exactly for the specs that meet every documented constraint.
pub validate_iff : (s : SpecOf ℤ) → (validate s ≡ none) ↔ IsValid s
unfolding validate
validate_iff s = (
  λ h. passing-IsValid s ((first_failure-none (cases s)).0 h),
  λ v. (first_failure-none (cases s)).1 (valid_passing s v),
)
