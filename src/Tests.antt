-- ===== src/Tests.antt =====
-- Tests: the theorems at concrete inputs.
mod Library
mod Files
mod Relocation
mod Schedule
mod Recovery
mod Monitor
mod Session
mod Storage
mod Workers
mod Pixels
mod Reobservation
