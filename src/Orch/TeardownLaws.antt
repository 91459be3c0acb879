-- ===== src/Orch/TeardownLaws.antt =====
-- What the teardown job (internal/orch/orchestrator.go) leaves of the VM rows.
use mathlib.Core.List.{Memᴰ}
use ghostfleet.Base.{
  ℕ, ◌≡◌, refl, ap, ◌∙◌, Bool, false, ◌&&◌, not, List, [], ◌∷◌, find, select, any, any-select,
  Bool-cases, inl, inr, ◌==◌, arith,
}
use ghostfleet.Base.Monad.{Result, ok, err, bind_after, ◌>>◌}
use ghostfleet.Model.Records.{Deployment, ManagedVm}
use ghostfleet.Store.Vms.{has_id, in_deployment, vms_of, list_managed_vms, delete_managed_vm}
use ghostfleet.Orch.Driver.{Driver}
use ghostfleet.Orch.Fleet.{Site}
use ghostfleet.Orch.Assigned.{listed, not_listed}
use ghostfleet.Orch.Tasks.{keep, driven_at, delete_all, teardown_fleet}

-- The rows whose ID is not among those of the listed VMs.
abbrev others_of : List ManagedVm → List ManagedVm → List ManagedVm
others_of vs rows = select (λ x. not (any (λ w. x.id == w.id) vs)) rows

others-one :
    (v : ManagedVm) (vs rows : List ManagedVm)
    → others_of vs (select (λ x. not (has_id v.id x)) rows) ≡ others_of (v ∷ vs) rows
unfolding select any
others-one v vs [] = refl
others-one v vs (r ∷ rows) = ground (arith, others-one v vs rows)

others-none : (rows : List ManagedVm) → rows ≡ others_of [] rows
unfolding select any
others-none [] = refl
others-none (r ∷ rows) = ap (◌∷◌ r) (others-none rows)

none-any :
    (p : ManagedVm → Bool) (xs : List ManagedVm)
    → ((x : ManagedVm) → Memᴰ x xs → p x ≡ false)
    → any p xs ≡ false
unfolding any
none-any p [] h = refl
none-any p (x ∷ xs) h = rw (h x (Memᴰ.head refl), none-any p xs (λ y m. h y (Memᴰ.tail m)))

find-others :
    (j : ℕ) (vs rows : List ManagedVm)
    → any (λ w. j == w.id) vs ≡ false
    → find (has_id j) (others_of vs rows) ≡ find (has_id j) rows
unfolding find select
find-others j vs [] h = refl
find-others j vs (r ∷ rows) h = elim (Bool-cases (r.id == j)) [
  | inl same ↦
      let e : r.id ≡ j = ground (arith, same) in
      let out : any (λ w. r.id == w.id) vs ≡ false = ap (λ i. any (λ w. i == w.id) vs) e ∙ h in
      ground (arith, same, out)
  | inr other ↦ ground (arith, other, find-others j vs rows h)
]

module _ {W : Type 0} (driver : Driver W) where
  after_delete : ManagedVm → Site W → W → Site W
  after_delete v s w = record s {
    orch = record (s.orch) {
      db = record (s.orch.db) { vms = select (λ x. not (has_id v.id x)) s.orch.db.vms };
    };
    world = w;
  }

  delete-step :
      (v : ManagedVm) (vs : List ManagedVm) (s s' : Site W) (r : Result (Unit {0})) (w : W)
      → s.orch.db.faults ≡ []
      → bind_after (driven_at s (r, w)) (λ u. keep (delete_managed_vm v.id) >> delete_all driver vs)
        ≡ (ok tt, s')
      → delete_all driver vs (after_delete v s w) ≡ (ok tt, s')
  unfolding delete_managed_vm after_delete
  delete-step v vs s s' (ok u) w h e =
      let gone : delete_managed_vm v.id s.orch.db
          ≡ (ok tt, record (s.orch.db) { vms = select (λ x. not (has_id v.id x)) s.orch.db.vms }) =
        ground arith in
      rw gone at e
  delete-step v vs s s' (err x) w h e = absurd (ground (arith, e))

  delete_all-rows :
      (vs : List ManagedVm) (s s' : Site W)
      → s.orch.db.faults ≡ []
      → delete_all driver vs s ≡ (ok tt, s')
      → s'.orch.db.vms ≡ others_of vs s.orch.db.vms
  unfolding delete_all after_delete
  delete_all-rows [] s s' h e =
      let same : s' ≡ s = cc in ap (λ x. x.orch.db.vms) same ∙ others-none s.orch.db.vms
  delete_all-rows (v ∷ vs) s s' h e =
      let x = driver.delete_vm v.ref s.world in
      delete_all-rows vs (after_delete v s x.1) s' h (delete-step v vs s s' x.0 x.1 h e)
      ∙ others-one v vs s.orch.db.vms

  -- A teardown that succeeds, where no statement fails, leaves no VM of its deployment, and every VM
  -- whose ID none of them has as it was.
  pub teardown_fleet_clears :
      (d : Deployment) (s s' : Site W)
      → s.orch.db.faults ≡ []
      → teardown_fleet driver d s ≡ (ok tt, s')
      → (any (in_deployment d.id) s'.orch.db.vms ≡ false)
        × ((j : ℕ)
            → any (λ w. in_deployment d.id w && j == w.id) s.orch.db.vms ≡ false
            → find (has_id j) s'.orch.db.vms ≡ find (has_id j) s.orch.db.vms)
  unfolding teardown_fleet list_managed_vms
  teardown_fleet_clears d s s' h e =
      let listed_all : list_managed_vms d.id s.orch.db ≡ (ok (vms_of d.id s.orch.db), s.orch.db) =
        ground arith in
      let rows = delete_all-rows (vms_of d.id s.orch.db) s s' h (rw listed_all at e) in
      (
        ap (any (in_deployment d.id)) rows
            ∙ any-select _ (in_deployment d.id) s.orch.db.vms
            ∙ none-any _ s.orch.db.vms (λ x m. elim (Bool-cases (in_deployment d.id x)) [
              | inl y ↦ ground (arith, y, listed d.id s.orch.db x m y)
              | inr n ↦ ground (arith, n)
            ]),
        λ j out.
            ap (find (has_id j)) rows
            ∙ find-others j (vms_of d.id s.orch.db) s.orch.db.vms (not_listed d.id s.orch.db j out),
      )
