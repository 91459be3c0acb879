-- ===== src/Orch/Rates.antt =====
-- internal/orch/fill.go: bytesPerVM and perVMRateKBps.
use ghostfleet.Base.{
  zero, suc, refl, ◌-◌, ◌%◌, ◌⊎◌, ◌==◌, true, false, ℕ, ◌+◌, ◌*◌, ◌/◌, ◌^◌, ◌≤◌, ◌<◌, ◌≡◌, ◌&&◌,
  ltb, leb, if◌then◌else◌, arith, none, Bool-cases, inl, inr,
}
use ghostfleet.Model.Int.{ℤ, pos, negsuc, to_ℕ}
use ghostfleet.Model.Spec.{ProfileSpec, SpecOf, percent, validate, accepted}
use ghostfleet.Model.Validity.{IsValid, validate_iff}
use ghostfleet.Model.Records.{RunType, incremental, type_eq}
use ghostfleet.Datagen.WorkOrder.{gib}

-- The product in float64 with the fraction, rounded down.
abbrev pub fill_bytes : ProfileSpec → ℕ
fill_bytes spec = spec.disks_per_vm * spec.data_per_disk_gib * gib

unfoldable pub bytes_per_vm : ProfileSpec → RunType → ℕ
bytes_per_vm spec ty =
    if type_eq ty incremental
    then fill_bytes spec * (spec.change_percent + spec.growth_percent) / (100 * percent)
    else fill_bytes spec

-- How many VMs write at once.
unfoldable pub parallel_vms : ProfileSpec → ℕ
parallel_vms spec =
    let par =
      if ltb 0 spec.max_parallel_vms && ltb spec.max_parallel_vms spec.vm_count
      then spec.max_parallel_vms
      else spec.vm_count in
    if ltb par 1 then 1 else par

product-le : (a b c d : ℕ) → a ≤ c → b ≤ d → a * b ≤ c * d
product-le a b c d h k = grind arith

abbrev neg : ℕ → ℤ
neg zero = pos 0
neg (suc n) = negsuc n

-- A number as an int of 64 bits.
unfoldable pub int64 : ℕ → ℤ
int64 n = let w = n % 2 ^ 64 in if ltb w (2 ^ 63) then pos w else neg (2 ^ 64 - w)

-- Division of an int by a positive one, toward 0.
abbrev pub quotient : ℤ → ℕ → ℤ
quotient (pos a) n = pos (a / n)
quotient (negsuc a) n = neg (suc a / n)

unfoldable pub per_vm_rate_kbps : ProfileSpec → ℤ
unfolding int64
per_vm_rate_kbps spec =
    if leb spec.rate_limit_mbps 0
    then pos 0
    else quotient (int64 (spec.rate_limit_mbps * 1024)) (parallel_vms spec)

div-mul-le : (a n : ℕ) → 0 < n → n * (a / n) ≤ a
div-mul-le a n h = grind arith

lt-div-mul : (a n : ℕ) → 0 < n → a < n * (a / n) + n
lt-div-mul a n h = grind arith

parallel_vms-pos : (spec : ProfileSpec) → 0 < parallel_vms spec
unfolding parallel_vms
parallel_vms-pos spec = ground arith

int64-pos : (n : ℕ) → n < 2 ^ 63 → int64 n ≡ pos n
unfolding int64
int64-pos n h =
    let same : n % 2 ^ 64 ≡ n = omega (arith, h) in
    let low : ltb n (2 ^ 63) ≡ true = ground (arith, h) in rw (same, low) refl

capped_rate :
    (spec : ProfileSpec)
    → 0 < spec.rate_limit_mbps
    → spec.rate_limit_mbps * 1024 < 2 ^ 63
    → per_vm_rate_kbps spec ≡ pos (spec.rate_limit_mbps * 1024 / parallel_vms spec)
unfolding per_vm_rate_kbps
capped_rate spec h fits =
    let some_cap : leb spec.rate_limit_mbps 0 ≡ false = ground (arith, h) in
    rw (some_cap, int64-pos (spec.rate_limit_mbps * 1024) fits) refl

-- So many VMs of the spec may write at once: no more than there are, and than the limit if there is one.
abbrev pub MayWrite : ProfileSpec → ℕ → Type 0
MayWrite spec n = (n ≤ spec.vm_count) × ((spec.max_parallel_vms ≡ 0) ⊎ (n ≤ spec.max_parallel_vms))

MayWrite-parallel : (spec : ProfileSpec) (n : ℕ) → MayWrite spec n → n ≤ parallel_vms spec
unfolding parallel_vms
MayWrite-parallel spec n (fleet, inl free) = ground (arith, fleet, free)
MayWrite-parallel spec n (fleet, inr few) = ground (arith, fleet, few)

parallel-MayWrite : (spec : ProfileSpec) → 0 < spec.vm_count → MayWrite spec (parallel_vms spec)
unfolding parallel_vms
parallel-MayWrite spec h = elim (Bool-cases (spec.max_parallel_vms == 0)) [
  | inl free ↦ (ground (arith, h, free), inl (ground (arith, free)))
  | inr some_limit ↦ (ground (arith, h, some_limit), inr (ground (arith, h, some_limit)))
]

-- Under a cap whose KB/s fit an int of 64 bits, the rate of one VM is a number such that any VMs that may write
-- at once stay together within the cap, and the most that may use all of it but less than one KB/s for each.
pub per_vm_rate_fills_cap :
    (spec : ProfileSpec)
    → 0 < spec.vm_count
    → 0 < spec.rate_limit_mbps
    → spec.rate_limit_mbps * 1024 < 2 ^ 63
    → (rate : ℕ) × (per_vm_rate_kbps spec ≡ pos rate)
      × ((n : ℕ) → MayWrite spec n → n * rate ≤ spec.rate_limit_mbps * 1024)
      × ((n : ℕ) × MayWrite spec n × (spec.rate_limit_mbps * 1024 < n * rate + n))
per_vm_rate_fills_cap spec fleet h fits =
    let par = parallel_vms spec in
    let rate = spec.rate_limit_mbps * 1024 / par in
    let all_of_them = div-mul-le (spec.rate_limit_mbps * 1024) par (parallel_vms-pos spec) in
    (
      rate,
      capped_rate spec h fits,
      λ n may.
          let fewer = product-le n rate par rate (MayWrite-parallel spec n may) (omega arith) in
          omega (arith, fewer, all_of_them),
      (
        par,
        parallel-MayWrite spec fleet,
        lt-div-mul (spec.rate_limit_mbps * 1024) par (parallel_vms-pos spec),
      ),
    )

fill_bytes-le : (raw : SpecOf ℤ) → IsValid raw → fill_bytes (accepted raw) ≤ 60 * 63488 * gib
unfolding accepted
fill_bytes-le raw v =
    let area =
      product-le (to_ℕ raw.disks_per_vm) (to_ℕ raw.data_per_disk_gib) 60 63488 v.disks_per_vm.2
        (omega (arith, v.data_per_disk_gib.2, v.disk_size_gib.2)) in
    omega (arith, area)

-- For a spec that Validate accepts, the bytes of a full fill are below 2^53, so their conversion to
-- float64 is exact, and the bytes of every run are below 2^63.
pub bytes_per_vm_fits :
    (raw : SpecOf ℤ) (ty : RunType)
    → validate raw ≡ none
    → (fill_bytes (accepted raw) < 2 ^ 53) × (bytes_per_vm (accepted raw) ty < 2 ^ 63)
unfolding bytes_per_vm accepted
bytes_per_vm_fits raw ty v =
    let valid = (validate_iff raw).0 v in
    let bound = fill_bytes-le raw valid in
    let grown =
      product-le (fill_bytes (accepted raw)) (to_ℕ raw.change_percent + to_ℕ raw.growth_percent)
        (60 * 63488 * gib) (1100 * percent) bound
        (omega (arith, valid.change_percent.2, valid.growth_percent.2)) in
    (
      omega (arith, bound),
      elim (Bool-cases (type_eq ty incremental)) [
        | inl e ↦ rw e (omega (arith, grown))
        | inr e ↦ rw e (omega (arith, bound))
      ],
    )
