-- ===== src/Witnesses.antt =====
-- The theorems at concrete inputs, a small log of two entries of process 300.
pub mod Log
pub mod Descriptors
pub mod Daemon
pub mod Plugins
pub mod Wrappers
pub mod Sets
pub mod Reads
pub mod Programs
pub mod Faults
