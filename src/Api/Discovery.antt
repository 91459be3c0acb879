-- ===== src/Api/Discovery.antt =====
-- What a discovery token and an unknown MAC can do at the endpoints of internal/api/boot.go.
use ghostfleet.Base.{
  ℕ, suc, ◌≡◌, refl, ◌∙◌, Bool, true, false, List, [], ◌∷◌, Option, none, some, Name, find, any,
  update_where, Bool-cases, inl, inr,
}
use ghostfleet.Base.Monad.{Error, Result, ok, err, M, bind_after, ◌>>◌}
use ghostfleet.Model.Records.{ManagedVm}
use ghostfleet.Datagen.Report.{DiscoveryDisk}
use ghostfleet.Store.Db.{
  Db, DiscoveredVm, stmt, stmt_at, affecting, row_or_none, new_id, now_of, to_lower,
}
use ghostfleet.Store.Vms.{get_managed_vm_by_mac, get_vm_where}
use ghostfleet.Store.Discovered.{
  ensure_discovered_vm, get_discovered_vm_by_token, set_discovered_inspection,
  touch_discovered_agent, update_discovered, upsert, has_mac,
}
use ghostfleet.Orch.State.{Orch, lift, lift_at}
use ghostfleet.Api.Reply.{H, replied, calls}
use ghostfleet.Api.Boot.{
  handle_boot_script, boot_found, discovery_script, handle_discovery_boot, handle_discovery_report,
  handle_discovery_heartbeat, discovery_auth,
}

-- The state but for the discovered VMs, the fresh IDs and the failures to come.
abbrev pub beside_discovered : Orch → Orch
beside_discovered o = record o { db = record (o.db) { discovered = []; next_id = 0; faults = [] } }

abbrev IsApart : {A : Type 0} → M Db A → Type 0
IsApart m = (o : Orch) → beside_discovered (lift m o).1 ≡ beside_discovered o

abbrev IsHarmless : {A : Type 0} → H Orch A → Type 0
IsHarmless k = (o : Orch) → beside_discovered (k o).1 ≡ beside_discovered o

stmt_at-Apart :
    {A : Type 0} (fs : List Bool) (k : M Db A) (o : Orch)
    → IsApart k
    → beside_discovered (lift_at o (bind_after (stmt_at fs o.db) (λ u. k))).1 ≡ beside_discovered o
stmt_at-Apart [] k o h = h o
stmt_at-Apart (true ∷ fs) k o h = refl
stmt_at-Apart (false ∷ fs) k o h = h (record o { db = record (o.db) { faults = fs } })

stmt-Apart : {A : Type 0} (k : M Db A) → IsApart k → IsApart (stmt >> k)
stmt-Apart k h o = stmt_at-Apart o.db.faults k o h

replied-Harmless :
    {A B : Type 0} (code : Error → ℕ) (k : A → H Orch B) (o : Orch) (r : Result A × Orch)
    → beside_discovered r.1 ≡ beside_discovered o
    → ((a : A) → IsHarmless (k a))
    → beside_discovered (replied code k r).1 ≡ beside_discovered o
replied-Harmless code k o (ok a, o') h g = g a o' ∙ h
replied-Harmless code k o (err e, o') h g = h

calls-Harmless :
    {A B : Type 0} (code : Error → ℕ) (m : M Db A) (k : A → H Orch B)
    → IsApart m
    → ((a : A) → IsHarmless (k a))
    → IsHarmless (calls code (lift m) k)
calls-Harmless code m k h g o = replied-Harmless code k o (lift m o) (h o) g

row-Apart : {A : Type 0} (f : Db → Option A) → IsApart (λ db. row_or_none (f db) db)
row-Apart f o = at (f o.db)
  where
    at :
        {A : Type 0} (r : Option A)
        → beside_discovered (lift_at o (row_or_none r o.db)).1 ≡ beside_discovered o
    at none = refl
    at (some a) = refl

update-Apart :
    (p : DiscoveredVm → Bool) (f : DiscoveredVm → DiscoveredVm) → IsApart (update_discovered p f)
unfolding update_discovered
update-Apart p f = stmt-Apart _ (λ o. at o (any p o.db.discovered))
  where
    at :
        (o : Orch) (b : Bool)
        → beside_discovered
            (lift_at o
              (affecting b (record (o.db) { discovered = update_where p f o.db.discovered }))).1
          ≡ beside_discovered o
    at o true = refl
    at o false = refl

by_token-Apart : (token : ℕ) → IsApart (get_discovered_vm_by_token token)
unfolding get_discovered_vm_by_token
by_token-Apart token = stmt-Apart _ (row-Apart _)

inspection-Apart :
    (id : ℕ) (disks : List DiscoveryDisk) → IsApart (set_discovered_inspection id disks)
unfolding set_discovered_inspection
inspection-Apart id disks o = update-Apart _ _ o

touch-Apart : (id : ℕ) → IsApart (touch_discovered_agent id)
unfolding touch_discovered_agent
touch-Apart id o = stmt-Apart _ (λ o. refl) o

abbrev upserted : Name → ℕ → ℕ → ℕ → Orch → Orch
upserted mac id token t o = record o { db = upsert mac id token t o.db }

upsert-beside :
    (mac : Name) (id token t : ℕ) (o : Orch)
    → beside_discovered (upserted mac id token t o) ≡ beside_discovered o
unfolding upsert
upsert-beside mac id token t o = elim (Bool-cases (any (has_mac mac) o.db.discovered)) [
  | inl known ↦ rw known refl
  | inr fresh ↦ rw fresh refl
]

abbrev drawn : Orch → Orch
drawn o = record o { db = (new_id (new_id o.db).1).1 }

ensure-Apart : (mac : Name) → IsApart (ensure_discovered_vm mac)
unfolding ensure_discovered_vm new_id
ensure-Apart mac o =
    stmt-Apart _
      (λ o1.
        stmt-Apart _ (row-Apart (λ db. find (has_mac (to_lower mac)) db.discovered))
          (upserted (to_lower mac) o.db.next_id (suc o.db.next_id) (now_of o.db) o1)
        ∙ upsert-beside (to_lower mac) o.db.next_id (suc o.db.next_id) (now_of o.db) o1)
      (drawn o)

by_mac-Apart : (mac : Name) → IsApart (get_managed_vm_by_mac mac)
unfolding get_managed_vm_by_mac get_vm_where
by_mac-Apart mac = stmt-Apart _ (row-Apart _)

script-Harmless :
    (o : Orch) (r : Result DiscoveredVm × Orch)
    → beside_discovered r.1 ≡ beside_discovered o
    → beside_discovered (discovery_script r).1 ≡ beside_discovered o
script-Harmless o (ok dv, o') h = h
script-Harmless o (err e, o') h = h

discovery_boot-Harmless :
    (discovery : Bool) (mac : Name) → IsHarmless (handle_discovery_boot discovery mac)
unfolding handle_discovery_boot
discovery_boot-Harmless true mac o = script-Harmless o _ (ensure-Apart mac o)
discovery_boot-Harmless false mac o = refl

boot_found-Harmless :
    (discovery : Bool) (mac : Name) (o : Orch) (r : Result ManagedVm × Orch)
    → beside_discovered r.1 ≡ beside_discovered o
    → beside_discovered (boot_found discovery mac r).1 ≡ beside_discovered o
boot_found-Harmless discovery mac o (ok vm, o') h = h
boot_found-Harmless discovery mac o (err e, o') h = discovery_boot-Harmless discovery mac o' ∙ h

-- Whichever statements fail, the boot script, the report of a discovery agent and its heartbeat change no
-- managed VM, deployment, run, schedule, job or goroutine, whatever MAC or token they are called with.
pub discovery_harmless :
    (discovery : Bool) (mac : Name) (report : Option (ℕ × List DiscoveryDisk)) (token : Option ℕ)
    (o : Orch)
    → (beside_discovered (handle_boot_script discovery mac o).1 ≡ beside_discovered o)
      × (beside_discovered (handle_discovery_report report o).1 ≡ beside_discovered o)
      × (beside_discovered (handle_discovery_heartbeat token o).1 ≡ beside_discovered o)
unfolding handle_boot_script handle_discovery_report handle_discovery_heartbeat discovery_auth
discovery_harmless discovery mac report token o = (boots mac, reports report, beats token)
  where
    boots :
        (mac : Name)
        → beside_discovered (handle_boot_script discovery mac o).1 ≡ beside_discovered o
    boots [] = refl
    boots (c ∷ cs) = boot_found-Harmless discovery (c ∷ cs) o _ (by_mac-Apart (c ∷ cs) o)

    reports :
        (report : Option (ℕ × List DiscoveryDisk))
        → beside_discovered (handle_discovery_report report o).1 ≡ beside_discovered o
    reports none = refl
    reports (some req) =
        calls-Harmless _ (get_discovered_vm_by_token req.0) _ (by_token-Apart req.0)
          (λ dv.
            calls-Harmless _ (set_discovered_inspection dv.id req.1) _
              (inspection-Apart dv.id req.1) (λ u o. refl))
          o

    beats :
        (token : Option ℕ)
        → beside_discovered (handle_discovery_heartbeat token o).1 ≡ beside_discovered o
    beats none = refl
    beats (some t) =
        calls-Harmless _ (get_discovered_vm_by_token t) _ (by_token-Apart t)
          (λ dv.
            calls-Harmless _ (touch_discovered_agent dv.id) _ (touch-Apart dv.id) (λ u o. refl))
          o
