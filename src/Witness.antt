-- ===== src/Witness.antt =====
-- The theorems applied at concrete inputs.
mod OfModel
mod OfDatagen
mod OfStore
mod OfOrch
mod OfFill
mod OfJobs
mod OfSched
mod OfAdopt
mod OfApi
mod OfAgent
