-- ===== src/File.antt =====
-- file.c: the table of open files, with the reads and writes that it hands on. Pipes and inodes enter
-- as functions on a state of their own.
pub mod Table
pub mod Refs
pub mod Chunks
mod Tests
