-- ===== src/Examples.antt =====
-- Tests, and the theorems at concrete inputs.
mod Memory
mod Tiers
mod Jobs
mod Requests
mod Texts
mod Machines
mod Archiving
mod Drawing
mod Uploading
mod Fetching
mod Downloading
