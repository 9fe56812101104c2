-- ===== src/Common.antt =====
-- src/common.c: the utilities that the rest of the program shares, one module for each group.
pub mod Hex
pub mod Compare
pub mod Hash
pub mod Benchmark
pub mod Strings
pub mod Log
