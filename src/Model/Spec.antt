-- ===== src/Model/Spec.antt =====
-- internal/model/model.go: ProfileSpec, ApplyDefaults and Validate. `SpecOf ℤ` is the spec as it is
-- decoded, `SpecOf ℕ` one that Validate has accepted. Percentages count millionths of a percent.
use ghostfleet.Base.{
  ℕ, ◌+◌, ◌*◌, Bool, true, false, ◌&&◌, ◌||◌, not, List, [], ◌∷◌, Option, none, some, leb, ltb,
  ◌==◌, if◌then◌else◌, Name, length,
}
use ghostfleet.Model.Int.{ℤ, pos, negsuc, to_ℕ, is_below, is_above, exceeds}

-- `AfterFill`: "" before the defaults, a known mode, or any other text.
pub data AfterFill : Type 0 where
  unset shutdown keep_running : AfterFill
  unknown : Name → AfterFill

pub record SpecOf (N : Type 0) : Type 0 where
  pub vm_count : N
  pub name_prefix : Name
  pub name_pad : N
  pub vcpus : N
  pub memory_mib : N
  pub disks_per_vm : N
  pub disk_size_gib : N
  pub data_per_disk_gib : N
  pub thick : Bool
  pub compress_percent : N
  pub dedupe_percent : N
  pub cross_vm_dedupe_percent : N
  pub change_percent : N
  pub growth_percent : N
  pub tag : Name
  pub after_fill : AfterFill
  pub rate_limit_mbps : N
  pub max_parallel_vms : N

abbrev pub ProfileSpec : Type 0
ProfileSpec = SpecOf ℕ

-- One percent, and the scale of a fraction of one.
abbrev pub percent : ℕ
percent = 1000000

abbrev pub default_int : ℕ → ℤ → ℤ
default_int d (pos n) = if n == 0 then pos d else pos n
default_int d (negsuc n) = negsuc n

abbrev pub default_after : AfterFill → AfterFill
default_after unset = shutdown
default_after a = a

unfoldable pub apply_defaults : SpecOf ℤ → SpecOf ℤ
apply_defaults s = record s {
  name_pad = default_int 4 s.name_pad;
  vcpus = default_int 2 s.vcpus;
  memory_mib = default_int 2048 s.memory_mib;
  after_fill = default_after s.after_fill;
}

abbrev pub is_lower : ℕ → Bool
is_lower c = leb b'a' c && leb c b'z'

abbrev pub is_upper : ℕ → Bool
is_upper c = leb b'A' c && leb c b'Z'

abbrev pub is_digit : ℕ → Bool
is_digit c = leb b'0' c && leb c b'9'

all_name : (ℕ → Bool) → Name → Bool
all_name p [] = true
all_name p (c ∷ cs) = p c && all_name p cs

-- `^[a-z][a-z0-9-]{0,31}$`
unfoldable pub prefix_matches : Name → Bool
unfolding all_name
prefix_matches [] = false
prefix_matches (c ∷ cs) =
    is_lower c && leb (length cs) 31 && all_name (λ d. is_lower d || is_digit d || d == b'-') cs

abbrev is_tag_char : ℕ → Bool
is_tag_char c = is_lower c || is_upper c || is_digit c || c == b'_' || c == b'.' || c == b'-'

-- What may follow the first character of the tag's name: more of it, then `=` and a value.
tag_rest : Name → Bool
tag_rest [] = true
tag_rest (c ∷ []) = is_tag_char c
tag_rest (c ∷ d ∷ cs) =
    let more = tag_rest (d ∷ cs) in
    if is_tag_char c then more else c == b'=' && is_tag_char d && all_name is_tag_char cs

-- `^[\w.-]+(=[\w.-]+)?$`
unfoldable pub tag_matches : Name → Bool
unfolding tag_rest all_name
tag_matches [] = false
tag_matches (c ∷ cs) = is_tag_char c && tag_rest cs

pub data SpecError : Type 0 where
  bad_vm_count bad_name_prefix bad_name_pad bad_vcpus bad_memory bad_disks bad_disk_size : SpecError
  bad_data bad_compress bad_dedupe bad_cross_vm bad_dedupe_sum bad_change bad_growth : SpecError
  bad_tag bad_after_fill bad_rate_limit bad_max_parallel : SpecError

abbrev pub outside : ℤ → ℕ → ℕ → Bool
outside n lo hi = is_below n lo || is_above n hi

abbrev pub is_empty : Name → Bool
is_empty [] = true
is_empty (c ∷ cs) = false

abbrev pub is_known_after : AfterFill → Bool
is_known_after shutdown = true
is_known_after keep_running = true
is_known_after unset = false
is_known_after (unknown t) = false

-- The sum of two percentages, both of which the cases above have found to be no less than 0.
abbrev pub sum_above : ℤ → ℤ → ℕ → Bool
sum_above a b k = ltb k (to_ℕ a + to_ℕ b)

-- The cases of the switch, each with the error that it returns.
abbrev pub cases : SpecOf ℤ → List (Bool × SpecError)
cases s =
    (outside s.vm_count 1 1000, bad_vm_count)
    ∷ (not (prefix_matches s.name_prefix), bad_name_prefix)
    ∷ (outside s.name_pad 1 8, bad_name_pad)
    ∷ (outside s.vcpus 1 64, bad_vcpus)
    ∷ (outside s.memory_mib 512 262144, bad_memory)
    ∷ (outside s.disks_per_vm 1 60, bad_disks)
    ∷ (outside s.disk_size_gib 1 (62 * 1024), bad_disk_size)
    ∷ (is_below s.data_per_disk_gib 0 || exceeds s.data_per_disk_gib s.disk_size_gib, bad_data)
    ∷ (outside s.compress_percent 0 (100 * percent), bad_compress)
    ∷ (outside s.dedupe_percent 0 (100 * percent), bad_dedupe)
    ∷ (outside s.cross_vm_dedupe_percent 0 (100 * percent), bad_cross_vm)
    ∷ (sum_above s.dedupe_percent s.cross_vm_dedupe_percent (100 * percent), bad_dedupe_sum)
    ∷ (outside s.change_percent 0 (100 * percent), bad_change)
    ∷ (outside s.growth_percent 0 (1000 * percent), bad_growth)
    ∷ (not (is_empty s.tag) && not (tag_matches s.tag), bad_tag)
    ∷ (not (is_known_after s.after_fill), bad_after_fill)
    ∷ (is_below s.rate_limit_mbps 0, bad_rate_limit)
    ∷ (is_below s.max_parallel_vms 0 || exceeds s.max_parallel_vms s.vm_count, bad_max_parallel)
    ∷ []

unfoldable pub first_failure : List (Bool × SpecError) → Option SpecError
first_failure [] = none
first_failure ((b, e) ∷ rest) = if b then some e else first_failure rest

unfoldable pub validate : SpecOf ℤ → Option SpecError
validate s = first_failure (cases s)

-- The accepted spec, with its numbers as naturals.
unfoldable pub accepted : SpecOf ℤ → ProfileSpec
accepted s = record {
  vm_count = to_ℕ s.vm_count;
  name_prefix = s.name_prefix;
  name_pad = to_ℕ s.name_pad;
  vcpus = to_ℕ s.vcpus;
  memory_mib = to_ℕ s.memory_mib;
  disks_per_vm = to_ℕ s.disks_per_vm;
  disk_size_gib = to_ℕ s.disk_size_gib;
  data_per_disk_gib = to_ℕ s.data_per_disk_gib;
  thick = s.thick;
  compress_percent = to_ℕ s.compress_percent;
  dedupe_percent = to_ℕ s.dedupe_percent;
  cross_vm_dedupe_percent = to_ℕ s.cross_vm_dedupe_percent;
  change_percent = to_ℕ s.change_percent;
  growth_percent = to_ℕ s.growth_percent;
  tag = s.tag;
  after_fill = s.after_fill;
  rate_limit_mbps = to_ℕ s.rate_limit_mbps;
  max_parallel_vms = to_ℕ s.max_parallel_vms;
}
