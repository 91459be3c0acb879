-- ===== src/Store/Progress.antt =====
-- The fill progress of a VM in internal/store/managed_vms.go: reports and cancellation.
use ghostfleet.Base.{
  ℕ, ◌≡◌, ◌≢◌, refl, ◌∙◌, ap, Bool, true, false, ◌&&◌, List, [], ◌∷◌, arith, ◌==◌, Name,
  update_where, find-update_if, find-holds, find-update, find-update_other, inl, inr, Bool-cases,
  some, find, if◌then◌else◌,
}
use ghostfleet.Base.Monad.{ok}
use ghostfleet.Model.Records.{
  ManagedVm, Run, filled, working, done, failed, online, is_done, cancelled_note,
}
use ghostfleet.Store.Db.{Db, now_of, update_vms}
use ghostfleet.Store.Vms.{
  has_id, reported_status, of_writing_run, progressed, settled, report_fill_progress, fills_as,
  is_unfinished, cancel_unfinished_fills,
}

-- The row after a report.
reported_row : List Run → ℕ → ℕ → ℕ → Bool → Name → ManagedVm → ManagedVm
reported_row runs t bytes mbps flag msg v =
    let w = progressed t bytes mbps flag msg v in
    if is_done (reported_status flag msg) && of_writing_run runs v then settled t w else w

reported_rows : Db → ℕ → ℕ → ℕ → Bool → Name → List ManagedVm
reported_rows db id bytes mbps flag msg =
    let rows = update_where (has_id id) (progressed (now_of db) bytes mbps flag msg) db.vms in
    if is_done (reported_status flag msg)
    then update_where (λ v. v.id == id && of_writing_run db.runs v) (settled (now_of db)) rows
    else rows

report-rows :
    (db : Db) (id bytes mbps : ℕ) (flag : Bool) (msg : Name)
    → db.faults ≡ []
    → report_fill_progress id bytes mbps flag msg db
      ≡ (ok tt, record db { vms = reported_rows db id bytes mbps flag msg })
unfolding report_fill_progress update_vms reported_rows
report-rows db id bytes mbps flag msg h = elim (Bool-cases (is_done (reported_status flag msg))) [
  | inl e ↦ ground (arith, e)
  | inr e ↦ ground (arith, e)
]

reported-find :
    (db : Db) (id bytes mbps : ℕ) (flag : Bool) (msg : Name) (v : ManagedVm)
    → find (has_id id) db.vms ≡ some v
    → find (has_id id) (reported_rows db id bytes mbps flag msg)
      ≡ some (reported_row db.runs (now_of db) bytes mbps flag msg v)
unfolding reported_rows reported_row
reported-find db id bytes mbps flag msg v e =
    let first =
      find-update (has_id id) (progressed (now_of db) bytes mbps flag msg) db.vms v (λ y. refl) e in
    elim (Bool-cases (is_done (reported_status flag msg))) [
      | inr more ↦ rw more first
      | inl over ↦ rw over (
          find-update_if (has_id id) (λ w. w.id == id && of_writing_run db.runs w)
            (settled (now_of db)) _ _ (λ y. refl) first
          ∙ ap
              (λ b. some (
                if b && of_writing_run db.runs v
                then settled (now_of db) (progressed (now_of db) bytes mbps flag msg v)
                else progressed (now_of db) bytes mbps flag msg v))
              (find-holds (has_id id) db.vms v e))
    ]

reported-find_other :
    (db : Db) (id bytes mbps : ℕ) (flag : Bool) (msg : Name) (j : ℕ)
    → j ≢ id
    → find (has_id j) (reported_rows db id bytes mbps flag msg) ≡ find (has_id j) db.vms
unfolding reported_rows
reported-find_other db id bytes mbps flag msg j ne =
    let first =
      find-update_other (has_id j) (has_id id) (progressed (now_of db) bytes mbps flag msg) db.vms
        (λ y k. ground arith) (λ y k. ground arith) in
    elim (Bool-cases (is_done (reported_status flag msg))) [
      | inr more ↦ rw more first
      | inl over ↦ rw over (
          find-update_other (has_id j) (λ w. w.id == id && of_writing_run db.runs w)
            (settled (now_of db)) _ (λ y k. ground arith) (λ y k. ground arith)
          ∙ first)
    ]

-- Where no statement fails, a progress report of a stored VM succeeds, keeps every other VM, and marks the
-- VM's agent online now. The fill status follows the report: failed with an error text, else done or
-- working. After a final report of an initial fill or an incremental the disks read as filled by the
-- VM's run, seen now, and after any other as before.
pub report_fill_progress_settles :
    (db : Db) (id bytes mbps : ℕ) (flag : Bool) (msg : Name) (v : ManagedVm)
    → db.faults ≡ []
    → find (has_id id) db.vms ≡ some v
    → (db' : Db) × (w : ManagedVm) × (report_fill_progress id bytes mbps flag msg db ≡ (ok tt, db'))
      × (find (has_id id) db'.vms ≡ some w)
      × (w.agent_status ≡ online)
      × (w.agent_seen_at ≡ some (now_of db))
      × (w.bytes_written ≡ bytes)
      × (w.fill_status ≡ (elim msg [ [] ↦ (if flag then done else working) | c ∷ cs ↦ failed ]))
      × (w.data_state
          ≡ (if is_done w.fill_status && of_writing_run db.runs v then filled else v.data_state))
      × (w.data_run_id ≡ (
          if is_done w.fill_status && of_writing_run db.runs v
          then v.fill_run_id
          else v.data_run_id))
      × (w.data_seen_at ≡ (
          if is_done w.fill_status && of_writing_run db.runs v
          then some (now_of db)
          else v.data_seen_at))
      × ((j : ℕ) → j ≢ id → find (has_id j) db'.vms ≡ find (has_id j) db.vms)
unfolding reported_row reported_status
report_fill_progress_settles db id bytes mbps flag msg v h e = (
  record db { vms = reported_rows db id bytes mbps flag msg },
  reported_row db.runs (now_of db) bytes mbps flag msg v,
  report-rows db id bytes mbps flag msg h,
  reported-find db id bytes mbps flag msg v e,
  ground arith,
  ground arith,
  ground arith,
  ground arith,
  ground arith,
  ground arith,
  ground arith,
  λ j ne. reported-find_other db id bytes mbps flag msg j ne,
)

abbrev pub cancelled_row : ManagedVm → ManagedVm
cancelled_row v = record v { fill_status = failed; fill_error = cancelled_note }

-- A VM that a cancellation failed is working again after a late report that is not final and has no
-- error, where no statement fails: the report does not look at the status that it replaces.
pub late_report_reopens :
    (run_id id bytes mbps : ℕ) (db db' : Db) (v : ManagedVm)
    → db.faults ≡ []
    → find (has_id id) db.vms ≡ some v
    → fills_as run_id is_unfinished v ≡ true
    → cancel_unfinished_fills run_id db ≡ (ok tt, db')
    → (db'' : Db) × (w : ManagedVm) × (report_fill_progress id bytes mbps false [] db'
        ≡ (ok tt, db''))
      × (find (has_id id) db''.vms ≡ some w)
      × (w.fill_status ≡ working)
unfolding cancel_unfinished_fills update_vms
late_report_reopens run_id id bytes mbps db db' v h e u c =
    let found =
      find-update_if (has_id id) (fills_as run_id is_unfinished) cancelled_row db.vms v (λ y. refl)
        e in
    let same : db'
        ≡ record db { vms = update_where (fills_as run_id is_unfinished) cancelled_row db.vms } =
      ground arith in
    let r =
      report_fill_progress_settles db' id bytes mbps false [] (cancelled_row v)
        (ground (arith, same))
        (rw same (found ∙ ap (λ b. some (if b then cancelled_row v else v)) u)) in
    (r.0, r.1, r.2, r.3, r.7)
