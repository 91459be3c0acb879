-- ===== src/Datagen/Seeds.antt =====
-- Which work orders share a seed (internal/datagen/datagen.go): the global seed of a disk is that of
-- every VM, and no two local seeds of a run are sums of the same input.
use ghostfleet.Base.{ℕ, zero, suc, ◌<◌, ◌≡◌, refl, List, [], ◌∷◌, ◌++◌, Name, arith, All, map}
use ghostfleet.Model.Naming.{decimal-injective, decimal-nonzero}
use ghostfleet.Model.Spec.{ProfileSpec}
use ghostfleet.Model.Records.{RunType}
use ghostfleet.Datagen.WorkOrder.{
  DiskWork, itoa, seed_input, local_parts, disk_works, build_work_order,
}

-- A text with no zero byte.
abbrev pub HasNoNul : Name → Type 0
HasNoNul = All (λ c. 0 < c)

split_at_nul :
    (p q r s : Name) → HasNoNul p → HasNoNul q → p ++ (0 ∷ r) ≡ q ++ (0 ∷ s) → (p ≡ q) × (r ≡ s)
split_at_nul [] [] r s hp hq e = (refl, cc)
split_at_nul [] (b ∷ q) r s hp hq e = absurd (ground arith)
split_at_nul (a ∷ p) [] r s hp hq e = absurd (ground arith)
split_at_nul (a ∷ p) (b ∷ q) r s hp hq e =
    let rest = split_at_nul p q r s hp.1 hq.1 (cc) in (cc rest.0, rest.1)

-- The separator keeps the parts apart: lists of parts without zero bytes that give the hash the same
-- input are equal.
pub seed_input-injective :
    (ps qs : List Name)
    → All HasNoNul ps
    → All HasNoNul qs
    → seed_input ps ≡ seed_input qs
    → ps ≡ qs
unfolding seed_input
seed_input-injective [] [] hp hq e = refl
seed_input-injective [] ([] ∷ qs) hp hq e = cc
seed_input-injective [] ((b ∷ q) ∷ qs) hp hq e = cc
seed_input-injective ([] ∷ ps) [] hp hq e = cc
seed_input-injective ((a ∷ p) ∷ ps) [] hp hq e = cc
seed_input-injective (p ∷ ps) (q ∷ qs) hp hq e =
    let parts = split_at_nul p q (seed_input ps) (seed_input qs) hp.0 hq.0 e in
    cc (parts.0, seed_input-injective ps qs hp.1 hq.1 parts.1)

pub itoa-HasNoNul : (i : ℕ) → HasNoNul (itoa i)
unfolding itoa
itoa-HasNoNul i = decimal-nonzero (suc i) i [] tt

itoa-injective : (i j : ℕ) → itoa i ≡ itoa j → i ≡ j
unfolding itoa
itoa-injective i j e = decimal-injective i j e

module _ (fnv : Name → ℕ) (text : ℕ → Name) (clean : (id : ℕ) → HasNoNul (text id)) where
  local_parts-clean :
      (dep : ℕ) (vm : Name) (run i : ℕ)
      → HasNoNul vm
      → All HasNoNul (local_parts fnv text dep vm run i)
  local_parts-clean dep vm run i h =
      (clean dep, (h, (omega arith, (clean run, (itoa-HasNoNul i, tt)))))

  -- Where the texts of identifiers and the names of VMs have no zero byte, two local seeds of a
  -- deployment are sums of the same input only for the same VM name, disk and text of the run.
  local_input-injective :
      (dep run run' i i' : ℕ) (vm vm' : Name)
      → HasNoNul vm
      → HasNoNul vm'
      → seed_input (local_parts fnv text dep vm run i)
        ≡ seed_input (local_parts fnv text dep vm' run' i')
      → (vm ≡ vm') × (text run ≡ text run') × (i ≡ i')
  local_input-injective dep run run' i i' vm vm' h h' e =
      let same =
        seed_input-injective (local_parts fnv text dep vm run i)
          (local_parts fnv text dep vm' run' i') (local_parts-clean dep vm run i h)
          (local_parts-clean dep vm' run' i' h') e in
      (cc same, cc same, itoa-injective i i' (cc same))

abbrev pub global_seeds : List DiskWork → List ℕ
global_seeds = map λ w. w.global_seed

module _ (fnv : Name → ℕ) (text : ℕ → Name) where
  disk_works-global :
      (dep run : ℕ) (vm vm' : Name) (spec : ProfileSpec) (i n : ℕ)
      → global_seeds (disk_works fnv text dep run vm spec i n)
        ≡ global_seeds (disk_works fnv text dep run vm' spec i n)
  unfolding disk_works
  disk_works-global dep run vm vm' spec i zero = refl
  disk_works-global dep run vm vm' spec i (suc n) =
      cc (disk_works-global dep run vm vm' spec (suc i) n)

  -- All VMs of a deployment write the same global seeds in one run, disk by disk.
  pub global_seeds_shared :
      (dep : ℕ) (dep_name : Name) (run : ℕ) (ty : RunType) (vm vm' : Name) (spec : ProfileSpec)
      → global_seeds (build_work_order fnv text dep dep_name run ty vm spec).disks
        ≡ global_seeds (build_work_order fnv text dep dep_name run ty vm' spec).disks
  unfolding build_work_order
  global_seeds_shared dep dep_name run ty vm vm' spec =
      disk_works-global dep run vm vm' spec 0 spec.disks_per_vm
