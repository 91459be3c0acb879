-- ===== src/Model/Checked.antt =====
-- The specs that pass ApplyDefaults and Validate of internal/model/model.go, as the handlers of
-- internal/api call them, and what becomes of a stored one that passes again.
use ghostfleet.Base.{ℕ, ◌≡◌, refl, ap, ◌∙◌, sym, Option, none, some, ◌⊎◌, inl, inr, arith, ◌≤◌}
use ghostfleet.Model.Int.{ℤ, pos, negsuc, to_ℕ}
use ghostfleet.Model.Spec.{
  SpecOf, ProfileSpec, SpecError, AfterFill, shutdown, keep_running, apply_defaults, validate,
  accepted, default_int, default_after,
}
use ghostfleet.Model.Validity.{IsValid, validate_iff}

-- A stored spec as the handlers read it.
unfoldable pub as_raw : ProfileSpec → SpecOf ℤ
as_raw s = record {
  vm_count = pos s.vm_count;
  name_prefix = s.name_prefix;
  name_pad = pos s.name_pad;
  vcpus = pos s.vcpus;
  memory_mib = pos s.memory_mib;
  disks_per_vm = pos s.disks_per_vm;
  disk_size_gib = pos s.disk_size_gib;
  data_per_disk_gib = pos s.data_per_disk_gib;
  thick = s.thick;
  compress_percent = pos s.compress_percent;
  dedupe_percent = pos s.dedupe_percent;
  cross_vm_dedupe_percent = pos s.cross_vm_dedupe_percent;
  change_percent = pos s.change_percent;
  growth_percent = pos s.growth_percent;
  tag = s.tag;
  after_fill = s.after_fill;
  rate_limit_mbps = pos s.rate_limit_mbps;
  max_parallel_vms = pos s.max_parallel_vms;
}

abbrev pub checked : SpecOf ℤ → Option SpecError → Option ProfileSpec
checked s none = some (accepted s)
checked s (some e) = none

-- The spec that is stored for a decoded one; none for an error of Validate.
unfoldable pub check_spec : SpecOf ℤ → Option ProfileSpec
check_spec s = let d = apply_defaults s in checked d (validate d)

raw-accepted : (s : SpecOf ℤ) → IsValid s → as_raw (accepted s) ≡ s
unfolding as_raw accepted
raw-accepted s v = λ i. record s {
  vm_count = sym v.vm_count.0 i;
  name_pad = sym v.name_pad.0 i;
  vcpus = sym v.vcpus.0 i;
  memory_mib = sym v.memory_mib.0 i;
  disks_per_vm = sym v.disks_per_vm.0 i;
  disk_size_gib = sym v.disk_size_gib.0 i;
  data_per_disk_gib = sym v.data_per_disk_gib.0 i;
  compress_percent = sym v.compress_percent.0 i;
  dedupe_percent = sym v.dedupe_percent.0 i;
  cross_vm_dedupe_percent = sym v.cross_vm_dedupe_percent.0 i;
  change_percent = sym v.change_percent.0 i;
  growth_percent = sym v.growth_percent.0 i;
  max_parallel_vms = sym v.max_parallel.0 i;
  rate_limit_mbps = sym v.rate_limit i;
}

-- A number that the constraints keep from 0 is its own default.
default-kept : (d : ℕ) (n : ℤ) → n ≡ pos (to_ℕ n) → 1 ≤ to_ℕ n → default_int d n ≡ n
default-kept d (pos n) e h = ground (arith, h)
default-kept d (negsuc n) e h = absurd (omega (arith, h))

defaults-valid : (s : SpecOf ℤ) → IsValid s → apply_defaults s ≡ s
unfolding apply_defaults
defaults-valid s v = λ i. record s {
  name_pad = default-kept 4 s.name_pad v.name_pad.0 v.name_pad.1 i;
  vcpus = default-kept 2 s.vcpus v.vcpus.0 v.vcpus.1 i;
  memory_mib = default-kept 2048 s.memory_mib v.memory_mib.0 (omega (arith, v.memory_mib.1)) i;
  after_fill = after-kept s.after_fill v.after_fill i;
}
  where
    after-kept : (a : AfterFill) → (a ≡ shutdown) ⊎ (a ≡ keep_running) → default_after a ≡ a
    after-kept a (inl e) = rw e refl
    after-kept a (inr e) = rw e refl

-- A spec that ApplyDefaults and Validate have accepted is accepted again as it is.
pub check_spec-stable :
    (s : SpecOf ℤ) (spec : ProfileSpec)
    → check_spec s ≡ some spec
    → check_spec (as_raw spec) ≡ some spec
unfolding check_spec
check_spec-stable s spec h = again (validate d) refl h
  where
    d : SpecOf ℤ
    d = apply_defaults s

    again :
        (o : Option SpecError)
        → validate d ≡ o
        → checked d o ≡ some spec
        → checked (apply_defaults (as_raw spec)) (validate (apply_defaults (as_raw spec)))
          ≡ some spec
    again (some x) e h = absurd (ground (arith, h))
    again none e h =
        let v : IsValid d = (validate_iff d).0 e in
        let same : spec ≡ accepted d = ground (arith, h) in
        let back : apply_defaults (as_raw spec) ≡ d =
          ap (λ x. apply_defaults (as_raw x)) same
          ∙ ap apply_defaults (raw-accepted d v)
          ∙ defaults-valid d v in
        ap (λ x. checked x (validate x)) back ∙ ap (checked d) e ∙ h
