-- ===== src/Examples.antt =====
-- Concrete hosts, checks and registries, and the theorems at them.
mod Host
mod Collected
mod Runs
mod Windows
mod Paths
mod Apps
mod Browsing
mod Manual
mod Redaction
mod Office
mod Support
