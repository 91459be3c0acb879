-- ===== src/Datagen/Split.antt =====
-- The byte split and the knobs of a work order (internal/datagen/datagen.go).
use ghostfleet.Base.{
  ℕ, zero, suc, ◌+◌, ◌*◌, ◌/◌, ◌^◌, ◌≤◌, ◌<◌, ◌≡◌, refl, Name, arith, All, length, ap,
}
use ghostfleet.Model.Spec.{ProfileSpec, percent}
use ghostfleet.Model.Records.{RunType}
use ghostfleet.Datagen.WorkOrder.{
  DiskWork, pct, data_bytes, global_bytes_of, seed, disk_works, build_work_order,
}

pub pct-le : (v : ℕ) → pct v ≤ 100
unfolding pct
pct-le v = ground arith

mul-le : (d c k : ℕ) → c ≤ k → d * c ≤ d * k
mul-le d c k h = grind arith

share-le : (d c : ℕ) → c ≤ 100 * percent → d * c / (100 * percent) ≤ d
share-le d c h = omega (arith, mul-le d c (100 * percent) h)

global-le :
    (spec : ProfileSpec)
    → spec.cross_vm_dedupe_percent ≤ 100 * percent
    → global_bytes_of spec ≤ data_bytes spec
unfolding global_bytes_of
global-le spec h = share-le (data_bytes spec) spec.cross_vm_dedupe_percent h

module _ (fnv : Name → ℕ) (text : ℕ → Name) where
  abbrev pub IsWholeDisk : ProfileSpec → DiskWork → Type 0
  IsWholeDisk spec w =
      (w.global_bytes + w.local_bytes ≡ data_bytes spec)
      × (w.size_gib ≡ spec.disk_size_gib)
      × (w.global_seed < 2 ^ 63)
      × (w.local_seed < 2 ^ 63)

  disk_works-whole :
      (dep run : ℕ) (vm : Name) (spec : ProfileSpec) (i n : ℕ)
      → spec.cross_vm_dedupe_percent ≤ 100 * percent
      → All (IsWholeDisk spec) (disk_works fnv text dep run vm spec i n)
  unfolding disk_works seed
  disk_works-whole dep run vm spec i zero h = tt
  disk_works-whole dep run vm spec i (suc n) h = (
    (omega (arith, global-le spec h), refl, omega arith, omega arith),
    disk_works-whole dep run vm spec (suc i) n h,
  )

  length-disk_works :
      (dep run : ℕ) (vm : Name) (spec : ProfileSpec) (i n : ℕ)
      → length (disk_works fnv text dep run vm spec i n) ≡ n
  unfolding disk_works
  length-disk_works dep run vm spec i zero = refl
  length-disk_works dep run vm spec i (suc n) = ap suc (length-disk_works dep run vm spec (suc i) n)

  -- The work order of a spec whose cross-VM share is at most 100 % has one entry for each disk; the
  -- global and the local bytes of each entry add up to the disk's payload, its seeds fit 63 bits,
  -- and the compression and dedupe knobs are at most 100.
  pub build_work_order_whole :
      (dep : ℕ) (dep_name : Name) (run : ℕ) (ty : RunType) (vm : Name) (spec : ProfileSpec)
      → spec.cross_vm_dedupe_percent ≤ 100 * percent
      → let wo = build_work_order fnv text dep dep_name run ty vm spec in
        (length wo.disks ≡ spec.disks_per_vm)
        × All (IsWholeDisk spec) wo.disks
        × (wo.compress_percent ≤ 100)
        × (wo.dedupe_percent ≤ 100)
  unfolding build_work_order
  build_work_order_whole dep dep_name run ty vm spec h = (
    length-disk_works dep run vm spec 0 spec.disks_per_vm,
    disk_works-whole dep run vm spec 0 spec.disks_per_vm h,
    pct-le spec.compress_percent,
    pct-le spec.dedupe_percent,
  )
