-- ===== src/Agent/Manifest.antt =====
-- cmd/agent/manifest.go and verify.go: the manifest of a disk's files, its update after a run, and the
-- verification of the files against it.
use ghostfleet.Base.{
  ℕ, Bool, List, [], ◌∷◌, ◌++◌, Option, none, some, Name, name_eq, ◌==◌, if◌then◌else◌, any, length,
}

-- A generated file, by its path from the disk's root; `content` is none for a file that cannot be read.
pub record DiskFile : Type 0 where
  pub path : Name
  pub content : Option Name

pub record ManifestEntry : Type 0 where
  pub size : ℕ
  pub sum : ℕ

pub record Manifest : Type 0 where
  pub run_id : ℕ
  pub files : List (Name × ManifestEntry)

unfoldable pub entry_of : Name → List (Name × ManifestEntry) → Option ManifestEntry
entry_of path [] = none
entry_of path (e ∷ es) = if name_eq e.0 path then some e.1 else entry_of path es

-- A manifest that is absent or corrupt counts as empty.
abbrev pub recorded_files : Option Manifest → List (Name × ManifestEntry)
recorded_files none = []
recorded_files (some m) = m.files

pub data Problem : Type 0 where
  unexpected wrong_size mismatch missing_file : Name → Problem

abbrev pub with_entry :
    Name
    → Option ManifestEntry
    → Option (List (Name × ManifestEntry))
    → Option (List (Name × ManifestEntry))
with_entry path none rest = none
with_entry path (some e) none = none
with_entry path (some e) (some es) = some ((path, e) ∷ es)

abbrev pub manifest_with : ℕ → Option (List (Name × ManifestEntry)) → Option Manifest
manifest_with run_id none = none
manifest_with run_id (some es) = some (record { run_id = run_id; files = es })

abbrev pub compared : Name → ManifestEntry → ManifestEntry → List Problem
compared path entry got =
    if got.size == entry.size
    then (if got.sum == entry.sum then [] else mismatch path ∷ [])
    else wrong_size path ∷ []

abbrev pub read_against : Name → ManifestEntry → Option ManifestEntry → Option (List Problem)
read_against path entry none = none
read_against path entry (some got) = some (compared path entry got)

abbrev pub joined_problems : Option (List Problem) → Option (List Problem) → Option (List Problem)
joined_problems none rest = none
joined_problems (some ps) none = none
joined_problems (some ps) (some qs) = some (ps ++ qs)

abbrev pub on_disk : List DiskFile → Name → Bool
on_disk files path = any (λ f. name_eq f.path path) files

unfoldable pub missing_files : List (Name × ManifestEntry) → List DiskFile → List Problem
missing_files [] files = []
missing_files (e ∷ es) files =
    let rest = missing_files es files in if on_disk files e.0 then rest else missing_file e.0 ∷ rest

-- `sha256` is the hash of the standard library.
module _ (sha256 : Name → ℕ) where
  abbrev pub hashed : Option Name → Option ManifestEntry
  hashed none = none
  hashed (some bytes) = some (record { size = length bytes; sum = sha256 bytes })

  unfoldable pub hash_file : DiskFile → Option ManifestEntry
  hash_file f = hashed f.content

  -- The entry of a file: the recorded one, unless there is none or the run has changed the file.
  abbrev pub entry_for : Option ManifestEntry → Bool → DiskFile → Option ManifestEntry
  entry_for none changed f = hash_file f
  entry_for (some e) changed f = if changed then hash_file f else some e

  -- The loop over the files; none is the error of a file that cannot be hashed.
  unfoldable pub new_entries :
      (Name → Bool)
      → List (Name × ManifestEntry)
      → List DiskFile
      → Option (List (Name × ManifestEntry))
  unfolding hash_file
  new_entries changed old [] = some []
  new_entries changed old (f ∷ fs) =
      with_entry f.path (entry_for (entry_of f.path old) (changed f.path) f)
        (new_entries changed old fs)

  -- The manifest that is written; `old` is the one on the disk.
  unfoldable pub update_disk_manifest :
      ℕ → (Name → Bool) → Option Manifest → List DiskFile → Option Manifest
  unfolding new_entries
  update_disk_manifest run_id changed old files =
      manifest_with run_id (new_entries changed (recorded_files old) files)

  abbrev pub file_problems : Option ManifestEntry → DiskFile → Option (List Problem)
  file_problems none f = some (unexpected f.path ∷ [])
  file_problems (some entry) f = read_against f.path entry (hash_file f)

  unfoldable pub check_files : List (Name × ManifestEntry) → List DiskFile → Option (List Problem)
  unfolding hash_file
  check_files entries [] = some []
  check_files entries (f ∷ fs) =
      joined_problems (file_problems (entry_of f.path entries) f) (check_files entries fs)

  -- One disk of runVerify: its problems, or none for a file that cannot be read.
  unfoldable pub verify_disk : Manifest → List DiskFile → Option (List Problem)
  unfolding check_files missing_files
  verify_disk m files =
      joined_problems (check_files m.files files) (some (missing_files m.files files))

pub data VerifyOutcome : Type 0 where
  verified no_manifest unreadable_file : VerifyOutcome
  failed_with : ℕ → VerifyOutcome

-- A mounted disk: its manifest, none if it is absent or corrupt, and its files.
abbrev pub Disk : Type 0
Disk = Option Manifest × List DiskFile

abbrev pub with_disk :
    Option Manifest
    → List DiskFile
    → Option (List (Manifest × List DiskFile))
    → Option (List (Manifest × List DiskFile))
with_disk none files rest = none
with_disk (some m) files none = none
with_disk (some m) files (some ds) = some ((m, files) ∷ ds)

unfoldable pub loaded_disks : List Disk → Option (List (Manifest × List DiskFile))
loaded_disks [] = some []
loaded_disks (d ∷ ds) = with_disk d.0 d.1 (loaded_disks ds)

abbrev outcome_of : Option (List Problem) → VerifyOutcome
outcome_of none = unreadable_file
outcome_of (some []) = verified
outcome_of (some (p ∷ ps)) = failed_with (length (p ∷ ps))

module _ (sha256 : Name → ℕ) where
  unfoldable pub verify_disks : List (Manifest × List DiskFile) → Option (List Problem)
  verify_disks [] = some []
  verify_disks (d ∷ ds) = joined_problems (verify_disk sha256 d.0 d.1) (verify_disks ds)

  abbrev pub verify_loaded : Option (List (Manifest × List DiskFile)) → VerifyOutcome
  verify_loaded none = no_manifest
  verify_loaded (some ds) = outcome_of (verify_disks ds)

  -- runVerify behind the mounts: every manifest is loaded before a file is read.
  unfoldable pub run_verify : List Disk → VerifyOutcome
  unfolding verify_disks loaded_disks
  run_verify disks = verify_loaded (loaded_disks disks)
