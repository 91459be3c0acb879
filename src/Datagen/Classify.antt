-- ===== src/Datagen/Classify.antt =====
-- What DataState (internal/datagen/datagen.go) says of the disks.
use ghostfleet.Base.{
  ℕ, ◌+◌, ◌≤◌, ◌≡◌, ◌≢◌, ◌↔◌, refl, true, false, List, [], ◌∷◌, length, All, arith, Bool-cases, inl,
  inr,
}
use ghostfleet.Model.Records.{unknown_data, empty, filled}
use ghostfleet.Datagen.Report.{
  DiscoveryDisk, Tally, is_marked, tally, tally_disk, no_disk_yet, data_state,
}

abbrev pub IsMarked : DiscoveryDisk → Type 0
IsMarked d = is_marked d ≡ true

abbrev pub IsBlank : DiscoveryDisk → Type 0
IsBlank d = is_marked d ≡ false

-- A marked disk has a manifest.
abbrev pub HasManifest : DiscoveryDisk → Type 0
HasManifest d = is_marked d ≡ true → d.manifest ≡ true

marked_count : List DiscoveryDisk → ℕ
marked_count [] = 0
marked_count (d ∷ ds) = (elim (is_marked d) [ true ↦ 1 | false ↦ 0 ]) + marked_count ds

marked-tally :
    (t : Tally) (ds : List DiscoveryDisk) → (tally t ds).marked ≡ t.marked + marked_count ds
unfolding tally marked_count
marked-tally t [] = omega arith
marked-tally t (d ∷ ds) = ground (arith, marked-tally (tally_disk t d) ds)

marked_count-le : (ds : List DiscoveryDisk) → marked_count ds ≤ length ds
unfolding marked_count
marked_count-le [] = omega arith
marked_count-le (d ∷ ds) = ground (arith, marked_count-le ds)

All-IsMarked : (ds : List DiscoveryDisk) → (marked_count ds ≡ length ds) ↔ All IsMarked ds
unfolding marked_count
All-IsMarked [] = (λ h. tt, λ h. refl)
All-IsMarked (d ∷ ds) = (
  λ h. (
    ground (arith, marked_count-le ds),
    (All-IsMarked ds).0 (ground (arith, marked_count-le ds)),
  ),
  λ h. ground (arith, (All-IsMarked ds).1 h.1),
)

none_marked : (ds : List DiscoveryDisk) → (marked_count ds ≡ 0) ↔ All IsBlank ds
unfolding marked_count
none_marked [] = (λ h. tt, λ h. refl)
none_marked (d ∷ ds) = (
  λ h. (ground arith, (none_marked ds).0 (ground arith)),
  λ h. ground (arith, (none_marked ds).1 h.1),
)

manifest-tally :
    (t : Tally) (ds : List DiscoveryDisk)
    → ((tally t ds).manifest ≡ true) ↔ ((t.manifest ≡ true) × All HasManifest ds)
unfolding tally
manifest-tally t [] = (λ h. (h, tt), λ h. h.0)
manifest-tally t (d ∷ ds) =
    let rest = manifest-tally (tally_disk t d) ds in
    (
      λ h. (ground (arith, rest.0 h), ((λ m. ground (arith, rest.0 h)), (rest.0 h).1)),
      λ h. rest.1 (
        elim (Bool-cases (is_marked d)) [ inl m ↦ ground (arith, h.1.0 m) | inr b ↦ ground arith ],
        h.1.1,
      ),
    )

marked_of_state :
    (d : DiscoveryDisk) (ds : List DiscoveryDisk)
    → (((data_state (d ∷ ds)).0 ≡ filled) ↔ (marked_count (d ∷ ds) ≡ length (d ∷ ds)))
      × (((data_state (d ∷ ds)).0 ≡ empty) ↔ (marked_count (d ∷ ds) ≡ 0))
unfolding data_state
marked_of_state d ds =
    let counted = marked-tally no_disk_yet (d ∷ ds) in
    (
      (λ h. ground (arith, counted), λ h. ground (arith, counted)),
      (λ h. ground (arith, counted), λ h. ground (arith, counted)),
    )

-- DataState says filled exactly of a report with disks, each of which carries data, and empty
-- exactly of one with disks, none of which does. It says unknown exactly of a report with no disk.
pub data_state_classifies :
    (ds : List DiscoveryDisk)
    → (((data_state ds).0 ≡ filled) ↔ ((ds ≢ []) × All IsMarked ds))
      × (((data_state ds).0 ≡ empty) ↔ ((ds ≢ []) × All IsBlank ds))
      × (((data_state ds).0 ≡ unknown_data) ↔ (ds ≡ []))
unfolding data_state
data_state_classifies [] =
    ((λ h. cc, λ h. absurd (h.0 refl)), (λ h. cc, λ h. absurd (h.0 refl)), (λ h. refl, λ h. refl))
data_state_classifies (d ∷ ds) =
    let counts = marked_of_state d ds in
    (
      (
        λ h. (λ e. cc, (All-IsMarked (d ∷ ds)).0 (counts.0.0 h)),
        λ h. counts.0.1 ((All-IsMarked (d ∷ ds)).1 h.1),
      ),
      (
        λ h. (λ e. cc, (none_marked (d ∷ ds)).0 (counts.1.0 h)),
        λ h. counts.1.1 ((none_marked (d ∷ ds)).1 h.1),
      ),
      (λ h. ground arith, λ e. cc),
    )

-- The manifest flag is set exactly if some disk carries data and each disk that does has a manifest.
pub data_state-manifest :
    (ds : List DiscoveryDisk)
    → ((data_state ds).2 ≡ true) ↔ ((¬ All IsBlank ds) × All HasManifest ds)
unfolding data_state
data_state-manifest [] = (λ h. cc, λ h. absurd (h.0 tt))
data_state-manifest (d ∷ ds) =
    let counted = marked-tally no_disk_yet (d ∷ ds) in
    let flag = manifest-tally no_disk_yet (d ∷ ds) in
    let blank = none_marked (d ∷ ds) in
    (
      λ h. (λ b. ground (arith, counted, blank.1 b), (flag.0 (ground arith)).1),
      λ h.
          ground (
            arith,
            counted,
            flag.1 (refl, h.1),
            λ (z : marked_count (d ∷ ds) ≡ 0). h.0 (blank.0 z),
          ),
    )
