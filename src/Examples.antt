-- ===== src/Examples.antt =====
-- Tests of the models, and each theorem at a concrete input.
mod StateModel
mod Leases
mod Ledger
mod Resolver
mod Authority
mod Config
mod Compatibility
mod Telemetry
mod Controller
mod Guard
mod Service
mod Sessions
mod Disposal
mod Bootstrap
