-- ===== src/Io.antt =====
-- Pipes of Project01-MLFQ and the string functions of its kernel.
pub mod Pipe
pub mod Strings
pub mod Tests
