-- ===== src/Tests.antt =====
-- Runs of the model at concrete inputs.
mod Network
mod Overlap
mod Rpc
mod Client
mod Async
mod Server
mod Startup
mod Captain
mod Services
mod Echo
mod Pipeline
mod Whole
