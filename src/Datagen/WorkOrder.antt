-- ===== src/Datagen/WorkOrder.antt =====
-- internal/datagen/datagen.go: seed, BuildWorkOrder and pct. The 64-bit FNV-1a sum of hash/fnv and
-- the text of an identifier are parameters.
use ghostfleet.Base.{
  ℕ, zero, suc, ◌+◌, ◌-◌, ◌*◌, ◌/◌, ◌%◌, ◌^◌, List, [], ◌∷◌, ◌++◌, Name, ltb, if◌then◌else◌,
}
use ghostfleet.Model.Int.{ℤ, pos}
use ghostfleet.Model.Spec.{ProfileSpec, percent}
use ghostfleet.Model.Naming.{decimal}
use ghostfleet.Model.Records.{RunType}
use ghostfleet.Datagen.Report.{IdentityMarker}

-- 1 GiB.
abbrev pub gib : ℕ
gib = 2 ^ 30

abbrev pub file_size_bytes : ℕ
file_size_bytes = 2 ^ 30

pub record DiskWork : Type 0 where
  pub index : ℕ
  pub size_gib : ℕ
  pub global_bytes : ℕ
  pub local_bytes : ℕ
  pub global_seed : ℕ
  pub local_seed : ℕ

-- Without the constants: the file system and the block size.
pub record WorkOrder : Type 0 where
  pub run_id : ℕ
  pub run_type : RunType
  pub vm_name : Name
  pub compress_percent : ℕ
  pub dedupe_percent : ℕ
  pub file_size_bytes : ℕ
  pub rate_limit_kbps : ℤ
  pub disks : List DiskWork
  pub change_percent : ℕ
  pub growth_percent : ℕ
  pub run_seed : ℕ
  pub identity : IdentityMarker

-- The bytes written to the hash: each part, and a zero byte behind it.
unfoldable pub seed_input : List Name → Name
seed_input [] = []
seed_input (p ∷ ps) = p ++ (0 ∷ seed_input ps)

-- `int(v+0.5)`, held to at most 100. A percentage is never below 0 here.
unfoldable pub pct : ℕ → ℕ
pct v = let r = (v + percent / 2) / percent in if ltb 100 r then 100 else r

-- The payload of one disk, and its share that is written from the global seed.
abbrev pub data_bytes : ProfileSpec → ℕ
data_bytes spec = spec.data_per_disk_gib * gib

unfoldable pub global_bytes_of : ProfileSpec → ℕ
global_bytes_of spec = data_bytes spec * spec.cross_vm_dedupe_percent / (100 * percent)

-- `strconv.Itoa`.
unfoldable pub itoa : ℕ → Name
unfolding decimal
itoa i = decimal (suc i) i []

module _ (fnv : Name → ℕ) (text : ℕ → Name) where
  -- The sum, masked to 63 bits.
  unfoldable pub seed : List Name → ℕ
  unfolding seed_input
  seed parts = fnv (seed_input parts) % 2 ^ 63

  -- The parts of the two seeds of disk i.
  abbrev pub global_parts : ℕ → ℕ → ℕ → List Name
  global_parts deployment_id run_id i = text deployment_id ∷ global_word ∷ text run_id ∷ itoa i ∷ []
    where
      global_word : Name
      global_word = b'g' ∷ b'l' ∷ b'o' ∷ b'b' ∷ b'a' ∷ b'l' ∷ []

  abbrev pub local_parts : ℕ → Name → ℕ → ℕ → List Name
  local_parts deployment_id vm_name run_id i =
      text deployment_id ∷ vm_name ∷ local_word ∷ text run_id ∷ itoa i ∷ []
    where
      local_word : Name
      local_word = b'l' ∷ b'o' ∷ b'c' ∷ b'a' ∷ b'l' ∷ []

  -- The loop over the disks, from disk i on.
  unfoldable pub disk_works : ℕ → ℕ → Name → ProfileSpec → ℕ → ℕ → List DiskWork
  disk_works deployment_id run_id vm_name spec i zero = []
  disk_works deployment_id run_id vm_name spec i (suc left) =
      record {
        index = i;
        size_gib = spec.disk_size_gib;
        global_bytes = global_bytes_of spec;
        local_bytes = data_bytes spec - global_bytes_of spec;
        global_seed = seed (global_parts deployment_id run_id i);
        local_seed = seed (local_parts deployment_id vm_name run_id i);
      }
      ∷ disk_works deployment_id run_id vm_name spec (suc i) left

  unfoldable pub build_work_order : ℕ → Name → ℕ → RunType → Name → ProfileSpec → WorkOrder
  build_work_order deployment_id deployment_name run_id run_type vm_name spec = record {
    run_id = run_id;
    run_type = run_type;
    vm_name = vm_name;
    compress_percent = pct spec.compress_percent;
    dedupe_percent = pct spec.dedupe_percent;
    file_size_bytes = file_size_bytes;
    rate_limit_kbps = pos 0;
    disks = disk_works deployment_id run_id vm_name spec 0 spec.disks_per_vm;
    change_percent = spec.change_percent;
    growth_percent = spec.growth_percent;
    run_seed = seed (text deployment_id ∷ (b'r' ∷ b'u' ∷ b'n' ∷ []) ∷ text run_id ∷ []);
    identity = record {
      deployment_id = deployment_id;
      deployment_name = deployment_name;
      vm_name = vm_name;
      disk_index = 0;
      spec = spec;
    };
  }
