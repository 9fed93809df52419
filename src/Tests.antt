-- ===== src/Tests.antt =====
-- Runs of the operations on concrete data, and the theorems at such data.
mod Samples
mod Capture
mod Outbox
mod Passes
mod Frames
mod Loops
mod Service
mod Installing
mod Restoring
mod Journals
mod Executing
mod Providing
mod Reranking
mod Piping
mod Migrating
