-- ===== src/Agent/Entries.antt =====
-- The entries of a manifest beside the files that it lists (cmd/agent/manifest.go, verify.go).

use ghostfleet.Base.{
  ℕ, ◌≡◌, refl, ap, sym, ◌∙◌, Bool, true, false, List, [], ◌∷◌, Option, none, some, Name, name_eq,
  name_eq_refl, any, All, arith,
}
use ghostfleet.Agent.Manifest.{
  DiskFile, ManifestEntry, entry_of, hash_file, entry_for, with_entry, new_entries, check_files,
  on_disk, missing_files,
}

-- No two files have the same path.
abbrev pub Distinct : List DiskFile → Type 0
Distinct [] = Unit
Distinct (f ∷ fs) = All (λ g. name_eq f.path g.path ≡ false) fs × Distinct fs

module _ (sha256 : Name → ℕ) where
  -- The entries are those of the files, in order.
  abbrev pub Matches : List DiskFile → List (Name × ManifestEntry) → Type 0
  Matches [] [] = Unit
  Matches [] (e ∷ es) = ⊥
  Matches (f ∷ fs) [] = ⊥
  Matches (f ∷ fs) (e ∷ es) = (e.0 ≡ f.path) × (hash_file sha256 f ≡ some e.1) × Matches fs es

  -- The old entry of a file that the run has not changed is that of the file.
  abbrev pub IsAccurate : (Name → Bool) → List (Name × ManifestEntry) → List DiskFile → Type 0
  IsAccurate changed old files =
      All
        (λ f.
          changed f.path ≡ false
          → (e : ManifestEntry) → entry_of f.path old ≡ some e
          → hash_file sha256 f ≡ some e)
        files

  entry_for-hash :
      (f : DiskFile) (o : Option ManifestEntry) (changed : Bool)
      → (changed ≡ false → (e : ManifestEntry) → o ≡ some e → hash_file sha256 f ≡ some e)
      → entry_for sha256 o changed f ≡ hash_file sha256 f
  entry_for-hash f none changed h = refl
  entry_for-hash f (some e) true h = refl
  entry_for-hash f (some e) false h = sym (h refl e refl)

  step-Matches :
      (f : DiskFile) (fs : List DiskFile) (x : Option ManifestEntry)
      (r : Option (List (Name × ManifestEntry))) (es : List (Name × ManifestEntry))
      → hash_file sha256 f ≡ x
      → ((ys : List (Name × ManifestEntry)) → r ≡ some ys → Matches fs ys)
      → with_entry f.path x r ≡ some es
      → Matches (f ∷ fs) es
  step-Matches f fs none r es hx ih e = absurd (ground (arith, e))
  step-Matches f fs (some x) none es hx ih e = absurd (ground (arith, e))
  step-Matches f fs (some x) (some r) [] hx ih e = absurd (ground (arith, e))
  step-Matches f fs (some x) (some r) (y ∷ ys) hx ih e =
      let same : y ≡ (f.path, x) = ground (arith, e) in
      let more : r ≡ ys = ground (arith, e) in
      (ap (λ t. t.0) same, hx ∙ ap (λ t. some t.1) (sym same), ih ys (ap some more))

  pub entries-Matches :
      (changed : Name → Bool) (old : List (Name × ManifestEntry)) (files : List DiskFile)
      (es : List (Name × ManifestEntry))
      → IsAccurate changed old files
      → new_entries sha256 changed old files ≡ some es
      → Matches files es
  unfolding new_entries
  entries-Matches changed old [] [] h e = tt
  entries-Matches changed old [] (x ∷ es) h e = absurd (ground (arith, e))
  entries-Matches changed old (f ∷ fs) es h e =
      step-Matches f fs (hash_file sha256 f) (new_entries sha256 changed old fs) es refl
        (λ ys k. entries-Matches changed old fs ys h.1 k)
        (ap (λ x. with_entry f.path x (new_entries sha256 changed old fs))
            (sym (entry_for-hash f (entry_of f.path old) (changed f.path) h.0))
          ∙ e)

  -- A file whose entry is the one that it has.
  abbrev pub Recorded : List (Name × ManifestEntry) → DiskFile → Type 0
  Recorded es f =
      (e : ManifestEntry) × (entry_of f.path es ≡ some e) × (hash_file sha256 f ≡ some e)

  All-both :
      (P Q R : DiskFile → Type 0) (fs : List DiskFile)
      → ((f : DiskFile) → P f → Q f → R f)
      → All P fs
      → All Q fs
      → All R fs
  All-both P Q R [] g h k = tt
  All-both P Q R (f ∷ fs) g h k = (g f h.0 k.0, All-both P Q R fs g h.1 k.1)

  pub Matches-Recorded :
      (files : List DiskFile) (es : List (Name × ManifestEntry))
      → Distinct files
      → Matches files es
      → All (Recorded es) files
  unfolding entry_of
  Matches-Recorded [] es d m = tt
  Matches-Recorded (f ∷ fs) [] d m = absurd m
  Matches-Recorded (f ∷ fs) (e ∷ es) d m = (
    (e.1, rw (m.0, name_eq_refl f.path) refl, m.1),
    All-both (λ g. name_eq f.path g.path ≡ false) (Recorded es) (Recorded (e ∷ es)) fs
        (λ g other r. (r.0, rw (m.0, other) r.1, r.2)) d.0 (Matches-Recorded fs es d.1 m.2),
  )

  pub Recorded-clean :
      (es : List (Name × ManifestEntry)) (files : List DiskFile)
      → All (Recorded es) files
      → check_files sha256 es files ≡ some []
  unfolding check_files
  Recorded-clean es [] h = refl
  Recorded-clean es (f ∷ fs) h = rw (h.0.1, h.0.2, Recorded-clean es fs h.1) (ground arith)

  pub missing_none :
      (files all : List DiskFile) (es : List (Name × ManifestEntry))
      → Matches files es
      → ((p : Name) → on_disk files p ≡ true → on_disk all p ≡ true)
      → missing_files es all ≡ []
  unfolding missing_files any
  missing_none [] all [] m sub = refl
  missing_none [] all (e ∷ es) m sub = absurd m
  missing_none (f ∷ fs) all [] m sub = absurd m
  missing_none (f ∷ fs) all (e ∷ es) m sub =
      rw
        (
          sub e.0 (rw (m.0, name_eq_refl f.path) refl),
          missing_none fs all es m.2 (λ p h. sub p (ground (arith, h))),
        )
        refl
