-- ===== src/Agent/Verified.antt =====
-- What a verification (cmd/agent/verify.go) that finds no problem proves of a restored disk.
use mathlib.Core.List.{Memᴰ}
use ghostfleet.Base.{
  ℕ, ◌≡◌, refl, ap, sym, ◌∙◌, Bool, true, List, [], ◌∷◌, Option, none, some, Name, name_eq, find,
  All, arith, Bool-cases, inl, inr, ◌==◌,
}
use ghostfleet.Agent.Manifest.{
  DiskFile, ManifestEntry, Manifest, entry_of, recorded_files, Problem, hash_file, new_entries,
  update_disk_manifest, manifest_with, compared, file_problems, joined_problems, check_files,
  read_against, on_disk, missing_files, verify_disk, missing_file,
}
use ghostfleet.Agent.Entries.{
  Distinct, Matches, IsAccurate, Recorded, entries-Matches, Matches-Recorded, Recorded-clean,
  missing_none,
}

module _ (sha256 : Name → ℕ) where
  both-clean :
      (a b : Option (List Problem)) → joined_problems a b ≡ some [] → (a ≡ some []) × (b ≡ some [])
  both-clean none b h = absurd (ground (arith, h))
  both-clean (some ps) none h = absurd (ground (arith, h))
  both-clean (some []) (some qs) h = (refl, h)
  both-clean (some (p ∷ ps)) (some qs) h = absurd (ground (arith, h))

  compared-same : (path : Name) (e got : ManifestEntry) → compared path e got ≡ [] → got ≡ e
  compared-same path e got h = elim (Bool-cases (got.size == e.size)) [
    | inl s ↦ elim (Bool-cases (got.sum == e.sum)) [
      | inl t ↦
          let a : got.size ≡ e.size = ground (arith, s) in
          let b : got.sum ≡ e.sum = ground (arith, t) in λ i. record { size = a i; sum = b i }
      | inr t ↦ absurd (ground (arith, s, t, h))
    ]
    | inr s ↦ absurd (ground (arith, s, h))
  ]

  clean-file :
      (f : DiskFile) (es : List (Name × ManifestEntry)) (o x : Option ManifestEntry)
      → entry_of f.path es ≡ o
      → hash_file sha256 f ≡ x
      → file_problems sha256 o f ≡ some []
      → Recorded sha256 es f
  clean-file f es none x ho hx h = absurd (ground (arith, h))
  clean-file f es (some e) none ho hx h =
      let off : none ≡ some [] = ap (read_against f.path e) (sym hx) ∙ h in
      absurd (ground (arith, off))
  clean-file f es (some e) (some got) ho hx h =
      let on : some (compared f.path e got) ≡ some [] = ap (read_against f.path e) (sym hx) ∙ h in
      let same : got ≡ e = compared-same f.path e got (ground (arith, on)) in
      (e, ho, hx ∙ ap some same)

  clean-Recorded :
      (es : List (Name × ManifestEntry)) (files : List DiskFile)
      → check_files sha256 es files ≡ some []
      → All (Recorded sha256 es) files
  unfolding check_files
  clean-Recorded es [] h = tt
  clean-Recorded es (f ∷ fs) h =
      let (a, b) = both-clean _ (check_files sha256 es fs) h in
      (clean-file f es _ _ refl refl a, clean-Recorded es fs b)

  -- An entry of a disk's manifest is that of its file.
  abbrev FromDisk : List DiskFile → Name → ManifestEntry → Type 0
  FromDisk files path e =
      (g : DiskFile) × (find (λ g. name_eq g.path path) files ≡ some g)
      × (hash_file sha256 g ≡ some e)

  entry-FromDisk :
      (files : List DiskFile) (es : List (Name × ManifestEntry)) (path : Name) (e : ManifestEntry)
      → Matches sha256 files es
      → entry_of path es ≡ some e
      → FromDisk files path e
  unfolding entry_of find
  entry-FromDisk [] [] path e m h = absurd (ground (arith, h))
  entry-FromDisk [] (x ∷ es) path e m h = absurd m
  entry-FromDisk (f ∷ fs) [] path e m h = absurd m
  entry-FromDisk (f ∷ fs) (x ∷ es) path e m h = elim (Bool-cases (name_eq f.path path)) [
    | inl hit ↦ let got : some x.1 ≡ some e = rw (m.0, hit) at h in rw hit (f, refl, m.1 ∙ got)
    | inr miss ↦ rw miss (entry-FromDisk fs es path e m.2 (rw (m.0, miss) at h))
  ]

  none_missing :
      (files restored : List DiskFile) (es : List (Name × ManifestEntry))
      → Matches sha256 files es
      → missing_files es restored ≡ []
      → All (λ f. on_disk restored f.path ≡ true) files
  unfolding missing_files
  none_missing [] restored es m h = tt
  none_missing (f ∷ fs) restored [] m h = absurd m
  none_missing (f ∷ fs) restored (e ∷ es) m h = elim (Bool-cases (on_disk restored e.0)) [
    | inl there ↦ (rw m.0 at there, none_missing fs restored es m.2 (rw there at h))
    | inr gone ↦
        let off : missing_file e.0 ∷ missing_files es restored ≡ [] = rw gone at h in
        absurd (ground (arith, off))
  ]

  -- No two files of the two disks that differ have the same size and hash.
  abbrev pub NoCollision : List DiskFile → List DiskFile → Type 0
  NoCollision files restored =
      (f g : DiskFile)
      → Memᴰ f files
      → Memᴰ g restored
      → hash_file sha256 f ≡ hash_file sha256 g
      → f.content ≡ g.content

  -- The file of the first disk with the path of a restored one has its content.
  abbrev pub IsIntact : List DiskFile → DiskFile → Type 0
  IsIntact files f =
      (g : DiskFile) × (find (λ g. name_eq g.path f.path) files ≡ some g) × (g.content ≡ f.content)

  updated-Matches :
      (run_id : ℕ) (changed : Name → Bool) (old : Option Manifest) (files : List DiskFile)
      (m : Manifest)
      → IsAccurate sha256 changed (recorded_files old) files
      → update_disk_manifest sha256 run_id changed old files ≡ some m
      → Matches sha256 files m.files
  unfolding update_disk_manifest
  updated-Matches run_id changed old files m h e =
      written (new_entries sha256 changed (recorded_files old) files) refl e
    where
      written :
          (r : Option (List (Name × ManifestEntry)))
          → new_entries sha256 changed (recorded_files old) files ≡ r
          → manifest_with run_id r ≡ some m
          → Matches sha256 files m.files
      written none k e = absurd (ground (arith, e))
      written (some es) k e =
          let same : m ≡ record { run_id = run_id; files = es } = ground (arith, e) in
          entries-Matches sha256 changed (recorded_files old) files m.files h
            (k ∙ ap some (sym (ap (λ x. x.files) same)))

  -- The manifest that a run writes finds no problem on its own disk, if the entries that it keeps were right
  -- and no two files have the same path.
  pub update-verifies :
      (run_id : ℕ) (changed : Name → Bool) (old : Option Manifest) (files : List DiskFile)
      (m : Manifest)
      → Distinct files
      → IsAccurate sha256 changed (recorded_files old) files
      → update_disk_manifest sha256 run_id changed old files ≡ some m
      → verify_disk sha256 m files ≡ some []
  unfolding verify_disk
  update-verifies run_id changed old files m d h e =
      let match = updated-Matches run_id changed old files m h e in
      rw
        (
          Recorded-clean sha256 m.files files (Matches-Recorded sha256 files m.files d match),
          missing_none sha256 files files m.files match (λ p k. k),
        )
        refl

  find-mem :
      (files : List DiskFile) (path : Name) (g : DiskFile)
      → find (λ g. name_eq g.path path) files ≡ some g
      → Memᴰ g files
  unfolding find
  find-mem [] path g h = absurd (ground (arith, h))
  find-mem (f ∷ fs) path g h = elim (Bool-cases (name_eq f.path path)) [
    | inl hit ↦
        let got : some f ≡ some g = rw hit at h in
        let same : f ≡ g = ground (arith, got) in Memᴰ.head (sym same)
    | inr miss ↦ Memᴰ.tail (find-mem fs path g (rw miss at h))
  ]

  All-members :
      (P Q : DiskFile → Type 0) (fs : List DiskFile)
      → ((f : DiskFile) → Memᴰ f fs → P f → Q f)
      → All P fs
      → All Q fs
  All-members P Q [] g h = tt
  All-members P Q (f ∷ fs) g h =
      (g f (Memᴰ.head refl) h.0, All-members P Q fs (λ x m. g x (Memᴰ.tail m)) h.1)

  restored_file :
      (files restored : List DiskFile) (es : List (Name × ManifestEntry)) (f : DiskFile)
      → Matches sha256 files es
      → NoCollision files restored
      → Memᴰ f restored
      → Recorded sha256 es f
      → IsIntact files f
  restored_file files restored es f m no_coll mem (e, there, h) =
      let (g, found, k) = entry-FromDisk files es f.path e m there in
      (g, found, no_coll g f (find-mem files f.path g found) mem (k ∙ sym h))

  -- A verification of a restored disk that finds no problem, against the manifest that a run wrote on the
  -- first disk with the entries that it kept right, proves the restore intact, if no two differing files have
  -- the same size and hash: every restored file has the content of the first disk's file of its path, and
  -- every file of the first disk is there.
  pub verified-IsIntact :
      (run_id : ℕ) (changed : Name → Bool) (old : Option Manifest) (files restored : List DiskFile)
      (m : Manifest)
      → IsAccurate sha256 changed (recorded_files old) files
      → update_disk_manifest sha256 run_id changed old files ≡ some m
      → NoCollision files restored
      → verify_disk sha256 m restored ≡ some []
      → All (IsIntact files) restored × All (λ f. on_disk restored f.path ≡ true) files
  unfolding verify_disk
  verified-IsIntact run_id changed old files restored m h e no_coll v =
      let match = updated-Matches run_id changed old files m h e in
      let (clean, whole) = both-clean (check_files sha256 m.files restored) _ v in
      (
        All-members (Recorded sha256 m.files) (IsIntact files) restored
            (λ f mem. restored_file files restored m.files f match no_coll mem)
            (clean-Recorded m.files restored clean),
        none_missing files restored m.files match (ground (arith, whole)),
      )
