-- ===== src/Tests.antt =====
-- Concrete systems, runs of the program on them, and the theorems at these inputs.
mod Systems
mod Runs
mod Statements
mod Packets
mod Policies
mod Names
mod Daemon
mod Links
mod Rollbacks
mod Returns
mod Http
mod Proxy
mod HttpHost
mod Limits
