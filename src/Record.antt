-- ===== src/Record.antt =====
-- The record layer, src/record.c: one child for each of the two wire headers, and one for the
-- reconstruction of truncated counters.
pub mod Plaintext
pub mod Unified
pub mod Reconstruct
