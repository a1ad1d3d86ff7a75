-- ===== src/Tests.antt =====
-- The theorems at concrete inputs.
mod Objects
mod Machinery
mod World
mod Transforming
mod Delivering
mod Controlling
mod Reconciling
mod Clusters
mod Running
mod Caching
mod Comparing
mod Calls
mod Fetching
mod Starting
mod Operating
mod Completing
