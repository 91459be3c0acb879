-- ===== src/Witness/OfDatagen.antt =====
-- Applications to the work orders and reports of a small fleet (internal/datagen/datagen.go).
use ghostfleet.Base.{
  ℕ, ◌≤◌, ◌≡◌, ◌≢◌, ◌↔◌, refl, true, List, [], ◌∷◌, none, Name, All, length, arith,
}
use ghostfleet.Model.Records.{unknown_data, empty, filled, initial_fill}
use ghostfleet.Datagen.Report.{DiscoveryDisk, data_state}
use ghostfleet.Datagen.Classify.{
  IsMarked, IsBlank, HasManifest, data_state_classifies, data_state-manifest,
}
use ghostfleet.Datagen.WorkOrder.{itoa, seed_input, build_work_order}
use ghostfleet.Datagen.Split.{IsWholeDisk, build_work_order_whole}
use ghostfleet.Datagen.Seeds.{seed_input-injective, global_seeds, global_seeds_shared}
use ghostfleet.Samples.{fleet_spec, length_hash}

abbrev text_parts : List Name
text_parts = (b'a' ∷ []) ∷ (b'b' ∷ b'c' ∷ []) ∷ []

abbrev order_of : Name → ghostfleet.Datagen.WorkOrder.WorkOrder
order_of vm = build_work_order length_hash itoa 1 [] 5 initial_fill vm fleet_spec

abbrev filled_disk : DiscoveryDisk
filled_disk = record {
  device = b'a' ∷ [];
  size_gib = 10;
  filesystem = [];
  identity = none;
  run_id = 5;
  run_bytes = 1;
  manifest = true;
  file_count = 1;
}

build_work_order_whole_example :
    (length (order_of (b'v' ∷ [])).disks ≡ 2)
    × All (IsWholeDisk length_hash itoa fleet_spec) (order_of (b'v' ∷ [])).disks
    × ((order_of (b'v' ∷ [])).compress_percent ≤ 100)
    × ((order_of (b'v' ∷ [])).dedupe_percent ≤ 100)
build_work_order_whole_example =
    build_work_order_whole length_hash itoa 1 [] 5 initial_fill (b'v' ∷ []) fleet_spec (omega arith)

seed_input-injective_example : text_parts ≡ text_parts
seed_input-injective_example =
    seed_input-injective text_parts text_parts
      ((omega arith, tt), ((omega arith, (omega arith, tt)), tt))
      ((omega arith, tt), ((omega arith, (omega arith, tt)), tt)) refl

abbrev one_vm : Name
one_vm = b'v' ∷ []

abbrev second_disk : ℕ
second_disk = 1

global_seeds_shared_example :
    global_seeds (order_of (b'v' ∷ [])).disks ≡ global_seeds (order_of (b'w' ∷ [])).disks
global_seeds_shared_example =
    global_seeds_shared length_hash itoa 1 [] 5 initial_fill (b'v' ∷ []) (b'w' ∷ []) fleet_spec

data_state_classifies_example :
    (((data_state (filled_disk ∷ [])).0 ≡ filled)
      ↔ (((filled_disk ∷ []) ≢ []) × All IsMarked (filled_disk ∷ [])))
    × (((data_state (filled_disk ∷ [])).0 ≡ empty)
        ↔ (((filled_disk ∷ []) ≢ []) × All IsBlank (filled_disk ∷ [])))
    × (((data_state (filled_disk ∷ [])).0 ≡ unknown_data) ↔ ((filled_disk ∷ []) ≡ []))
data_state_classifies_example = data_state_classifies (filled_disk ∷ [])

data_state-manifest_example :
    ((data_state (filled_disk ∷ [])).2 ≡ true)
    ↔ ((¬ All IsBlank (filled_disk ∷ [])) × All HasManifest (filled_disk ∷ []))
data_state-manifest_example = data_state-manifest (filled_disk ∷ [])
