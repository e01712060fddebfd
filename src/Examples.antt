-- ===== src/Examples.antt =====
-- Runs of the operator on clusters in memory, and its theorems at concrete data.
mod Data
mod Queue
mod Services
mod Labels
mod Config
mod Clusters
mod Rancher
mod Cleanup
mod Peers
mod Watch
mod Workers
mod Drain
mod Command
mod Import
