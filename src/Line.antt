-- ===== src/Line.antt =====
-- A line of the source: what cleanup and parse of src/main.c make of it.
pub mod Comments
pub mod Cleanup
pub mod Parse
pub mod Plain
pub mod Words
pub mod Semicolon
