-- ===== src/Examples.antt =====
-- Concrete inputs at which the theorems are applied: packages/core, packages/durability,
-- packages/browser-runtime and apps/server.
mod Seats
mod Grids
mod Answers
mod Services
mod Predicates
mod Rankings
mod Groups
mod Dates
mod Evidences
mod Limits
