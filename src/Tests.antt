-- ===== src/Tests.antt =====
-- A small world in which the calls succeed, and concrete inputs on which the theorems are applied.
mod World
mod Detection
mod InTurn
mod Groups
mod Schedules
mod Scans
mod Witnesses
