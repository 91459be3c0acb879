-- ===== src/Lib.antt =====
-- GhostFleet's controller (Go) deploys fleets of ghost VMs on a hypervisor, has an agent in each fill
-- its disks with synthetic data, and repeats this on schedules. This library models the controller
-- and the planning and checking of the agent, and proves them correct.
--
-- The parts and the files:
-- - Base: tests on native numbers, list and table helpers with their laws, and Base.Monad, the state
--   monad M S A = S → Result A × S for methods that return an error. The state is kept on an error.
--   Base.Binds takes a call that succeeds apart into its steps.
-- - Model (internal/model/model.go): Model.Spec is ProfileSpec with ApplyDefaults and Validate,
--   Model.Checked the pair of them as callers use it, Model.Records the records and enums,
--   Model.Naming VMName, Model.Timer the schedules' Validate and NextAfter. A percentage counts
--   millionths of a percent. Go's time package is the record Calendar.
--   Model.Recurring says when a schedule recurs, Model.Seconds what the whole seconds of the store
--   leave of a next time.
-- - Datagen (internal/datagen/datagen.go): Datagen.Report is DataState and GhostIdentity,
--   Datagen.WorkOrder is BuildWorkOrder. FNV-1a and the text of an identifier are parameters.
-- - Store (internal/store): Store.Db is the database, one list for each table, with transactions that
--   roll back; Store.Vms, Store.Runs, Store.Deployments, Store.Schedules, Store.Discovered,
--   Store.Profiles and Store.Connections are the statements, named as the methods of the source. Each
--   statement may fail: the coming failures are the list `faults`. Unique columns, also where
--   MarkDeploymentDeleted renames, and the foreign keys of deployments behave as SQLite documents them. Store.Calls says what calls that succeed leave.
-- - Orch (internal/orch): Orch.State is the store, the map of active jobs and the goroutines started;
--   Orch.Jobs is acquire, release, Cancel and Stop, and Orch.LockMap their abstract specification;
--   Orch.Start the Start methods; Orch.Resume is ResumeInterrupted; Orch.Rates the byte targets and
--   rates; Orch.Gate is WorkOrderForToken. The fill goroutine of fill.go is Orch.Fleet (power
--   operations and ends of a run), Orch.Watch (one poll) and Orch.FillRun (the loop over polls). The
--   jobs of orchestrator.go are Orch.Tasks (powerFunc, teardown, runJob) and Orch.Reconcile
--   (reconcileCore). Orch.Adopt is adopt.go. The hypervisor is the record Driver of Orch.Driver, a
--   parameter.
-- - Sched (internal/sched/sched.go): Sched.Scheduler is tick, fire, start and advance over the
--   interface Starter, which Sched.Starting implements by the orchestrator.
-- - Api (internal/api): a handler is a function of the decoded request to a status code, a body and
--   the new state (Api.Reply, with the helpers that write errors); none is a body that does not decode.
--   Api.Operations and Api.Console are operations.go, Api.Boot boot.go, Api.Discovered discovery.go,
--   Api.Deployments deployments.go, Api.Catalog profiles.go and connections.go, Api.Timers
--   schedules.go, Api.Sessions auth.go.
-- - Agent (cmd/agent): Agent.Manifest is the update of a manifest (manifest.go) and the verification
--   against it (verify.go); Agent.Churn the plan of an incremental and the choice of what runs
--   (gen.go), and the counting of progress (progress.go).
-- - Samples and Witness: a small fleet, and the theorems at concrete inputs.
--
-- How the parts interact: the scheduler and the API read the store and call the orchestrator; the
-- orchestrator writes runs and assignments to the store and starts goroutines; the agents' reports
-- reach the store and the work order gate through the API; adoption joins the discovered VMs, the
-- markers on their disks and the hypervisor. What runs beside a piece of code is an argument of it: a
-- history of calls for the jobs (Orch.History), the change of the site between two polls for a fill
-- (Wake), the order in which goroutines record their VMs for reconcile.
--
-- Conventions and bounds: identifiers, references and tokens are numbers, 0 for the empty string;
-- times are nanoseconds, which the store keeps
-- in whole seconds; the rate of a VM is an int of 64 bits, with its wrap-around; the clock stands within one operation. A loop over a list is recursion on
-- it; the poll loop is recursion on the list of its wake-ups, of which a theorem says how many are
-- enough; the digits of a number have the number plus one as fuel.
--
-- A float64 product with a percentage is the exact quotient, rounded down; the rounding of float64 is
-- not modelled. The hash of a file (SHA-256), the shuffle of indices (math/rand), the encryption of
-- secrets, the white space and time stamps of a console log are parameters.
--
-- Not modelled: the drivers, secrets, the web interface, build info and main; the routing, JSON,
-- cookies and listings of the API; mounts, fio and file access of the agent; log lines, error texts,
-- the JSON statistics and the throughput samples of a run, and the constants of a work order (file
-- system, block size).
pub mod Base
pub mod Model
pub mod Datagen
pub mod Store
pub mod Orch
pub mod Api
pub mod Agent
pub mod Sched
pub mod Samples
pub mod Witness
