-- ===== src/Datagen/Report.antt =====
-- internal/datagen/datagen.go: the inspection report of a VM's disks, DataState and GhostIdentity.
use ghostfleet.Base.{
  ℕ, suc, Bool, true, false, ◌&&◌, ◌||◌, List, [], ◌∷◌, Option, none, some, ◌==◌, if◌then◌else◌,
  Name, length,
}
use ghostfleet.Model.Spec.{ProfileSpec}
use ghostfleet.Model.Records.{DataState, unknown_data, empty, partial, filled}

pub record IdentityMarker : Type 0 where
  pub deployment_id : ℕ
  pub deployment_name : Name
  pub vm_name : Name
  pub disk_index : ℕ
  pub spec : ProfileSpec

pub record DiscoveryDisk : Type 0 where
  pub device : Name
  pub size_gib : ℕ
  pub filesystem : Name
  pub identity : Option IdentityMarker
  pub run_id : ℕ
  pub run_bytes : ℕ
  pub manifest : Bool
  pub file_count : ℕ

abbrev pub is_some : Option IdentityMarker → Bool
is_some none = false
is_some (some i) = true

-- Not `d.Identity == nil && d.RunID == ""`.
abbrev pub is_marked : DiscoveryDisk → Bool
is_marked d = is_some d.identity || (if d.run_id == 0 then false else true)

-- The variables of the loop.
pub record Tally : Type 0 where
  pub marked : ℕ
  pub run_id : ℕ
  pub manifest : Bool

abbrev pub tally_disk : Tally → DiscoveryDisk → Tally
tally_disk t d =
    if is_marked d
    then record {
      marked = suc t.marked;
      run_id = if t.run_id == 0 then d.run_id else t.run_id;
      manifest = t.manifest && d.manifest;
    }
    else t

unfoldable pub tally : Tally → List DiscoveryDisk → Tally
tally t [] = t
tally t (d ∷ ds) = tally (tally_disk t d) ds

abbrev pub no_disk_yet : Tally
no_disk_yet = record { marked = 0; run_id = 0; manifest = true }

abbrev classify : ℕ → Tally → DataState × ℕ × Bool
classify n t =
    if t.marked == 0
    then (empty, 0, false)
    else if t.marked == n
    then (filled, t.run_id, t.manifest)
    else (partial, t.run_id, t.manifest)

unfoldable pub data_state : List DiscoveryDisk → DataState × ℕ × Bool
unfolding tally
data_state [] = (unknown_data, 0, false)
data_state (d ∷ ds) = classify (length (d ∷ ds)) (tally no_disk_yet (d ∷ ds))

unfoldable pub ghost_identity : List DiscoveryDisk → Option IdentityMarker
ghost_identity [] = none
ghost_identity (d ∷ ds) = if is_some d.identity then d.identity else ghost_identity ds
