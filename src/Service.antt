-- ===== src/Service.antt =====
-- packages/dsh-subagent-admission/src/host/service.ts: how the host's parts are put together at the
-- start, and taken apart at the end.
pub mod Disposal
pub mod Start
pub mod Audit
pub mod Bootstrap
pub mod Modes
